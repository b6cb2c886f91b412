-- ===== src/World/Onward.antt =====
-- What no action of the tool takes back: the code outside, the environment, the time that has passed and the
-- commands that were run. `After w0 w` says that `w` comes after `w0` in this sense, and that each command in
-- between ran with the KUBECONFIG of `w0`.
use maistra_test_tool.World.{World, Invocation, modify, Action}
use maistra_test_tool.World.Keeps.{Keeps, Keeps-modify}
use maistra_test_tool.Prelude.{◌≤◌, ◌≡◌, refl, ◌∙◌, List, [], ◌++◌, Option, arith, All}
use maistra_test_tool.Text.{Text, lit}

abbrev pub RanUnder : Option Text → Invocation → Type 0
RanUnder kubeconfig i = i.kubeconfig ≡ kubeconfig

pub record After (w0 w : World) : Type 0 where
  pub outside : w.outside ≡ w0.outside
  pub env : w.env ≡ w0.env
  pub clock : w0.clock ≤ w.clock
  pub newer : List Invocation
  pub trace : w.trace ≡ newer ++ w0.trace
  pub under : All (RanUnder (w0.env (lit "KUBECONFIG"))) newer

pub After-refl : (w : World) → After w w
After-refl w = record {
  outside = refl;
  env = refl;
  clock = omega arith;
  newer = [];
  trace = refl;
  under = tt;
}

-- The parts that count are not touched.
pub record Same (w w' : World) : Type 0 where
  pub outside : w'.outside ≡ w.outside
  pub env : w'.env ≡ w.env
  pub clock : w'.clock ≡ w.clock
  pub trace : w'.trace ≡ w.trace
  pub pool : w'.address_pool ≡ w.address_pool
  pub tempo : w'.tempo_existed_before ≡ w.tempo_existed_before
  pub otel : w'.otel_existed_before ≡ w.otel_existed_before

pub Same-refl : (w : World) → Same w w
Same-refl w = record {
  outside = refl;
  env = refl;
  clock = refl;
  trace = refl;
  pool = refl;
  tempo = refl;
  otel = refl;
}

pub After-Same : {w0 w w' : World} → Same w w' → After w0 w → After w0 w'
After-Same s a = record {
  outside = s.outside ∙ a.outside;
  env = s.env ∙ a.env;
  clock = let c = a.clock in let e = s.clock in omega arith;
  newer = a.newer;
  trace = s.trace ∙ a.trace;
  under = a.under;
}

pub Same-trans : {w0 w w' : World} → Same w w' → Same w0 w → Same w0 w'
Same-trans s a = record {
  outside = s.outside ∙ a.outside;
  env = s.env ∙ a.env;
  clock = s.clock ∙ a.clock;
  trace = s.trace ∙ a.trace;
  pool = s.pool ∙ a.pool;
  tempo = s.tempo ∙ a.tempo;
  otel = s.otel ∙ a.otel;
}

pub modify-Still :
    {w0 : World} (f : World → World) → ((w : World) → Same w (f w)) → Keeps (Same w0) (modify f)
modify-Still f s = Keeps-modify f (λ w h. Same-trans (s w) h)

-- What touches none of the parts that count only goes on.
pub Still-Onward :
    {A : Type 0} {w0 : World} (m : Action A) → ((w : World) → Keeps (Same w) m) → Keeps (After w0) m
Still-Onward m k = record { at = λ w a. After-Same ((k w).at w (Same-refl w)) a }

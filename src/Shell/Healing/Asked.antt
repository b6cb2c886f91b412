-- ===== src/Shell/Healing/Asked.antt =====
-- pkg/util/shell/shell_helper.go: worlds in which a number of further commands have been run.
use maistra_test_tool.World.{
  World, Action, Outcome, Invocation, returned, panicked, exited, crashed, continue, ◌>>=◌,
}
use maistra_test_tool.World.Panics.{with_defer}
use maistra_test_tool.World.Keeps.{Keeps, Keeps-run_deferred}
use maistra_test_tool.World.Onward.{Same, Same-refl}
use maistra_test_tool.Shell.{after_command, invocation}
use maistra_test_tool.Prelude.{ℕ, suc, ◌≡◌, refl, ap, ◌∙◌, none, List, [], ◌∷◌, ◌++◌, length}
use maistra_test_tool.Text.{Text}

-- From `w` to `w'` just `n` commands have been run, and the environment is the same.
pub record Asked (w : World) (n : ℕ) (w' : World) : Type 0 where
  pub outside : w'.outside ≡ w.outside
  pub env : w'.env ≡ w.env
  pub newer : List Invocation
  pub count : length newer ≡ n
  pub trace : w'.trace ≡ newer ++ w.trace

pub Asked-refl : (w : World) → Asked w 0 w
Asked-refl w = record { outside = refl; env = refl; newer = []; count = refl; trace = refl }

module _ {w0 : World} {n : ℕ} where
  pub Asked-Same : {w w' : World} → Same w w' → Asked w0 n w → Asked w0 n w'
  Asked-Same s a = record {
    outside = s.outside ∙ a.outside;
    env = s.env ∙ a.env;
    newer = a.newer;
    count = a.count;
    trace = s.trace ∙ a.trace;
  }

  -- An action that runs no command.
  pub Still-Asked :
      {A : Type 0} (m : Action A) → ((w : World) → Keeps (Same w) m) → Keeps (Asked w0 n) m
  Still-Asked m k = record { at = λ w a. Asked-Same ((k w).at w (Same-refl w)) a }

  pub command-Asked :
      (cmd : Text) (w : World) → Asked w0 n w → Asked w0 (suc n) (after_command cmd none [] w)
  unfolding after_command
  command-Asked cmd w a = record {
    outside = a.outside;
    env = a.env;
    newer = invocation cmd none [] w ∷ a.newer;
    count = ap suc a.count;
    trace = ap (λ t. invocation cmd none [] w ∷ t) a.trace;
  }

module _ {P : World → Type 0} where
  -- What the first part establishes, and the rest keeps, holds after both.
  pub bind_then :
      {A B : Type 0} (m : Action A) (k : A → Action B) (w : World)
      → P (m w).1
      → ((a : A) → Keeps P (k a))
      → P ((m >>= k) w).1
  unfolding ◌>>=◌
  bind_then m k w p kk = let (o, w') = m w in onward o w' p
    where
      onward : (o : Outcome _) (w' : World) → P w' → P (continue k o w').1
      onward (returned a) w' p = (kk a).at w' p
      onward (panicked x) w' p = p
      onward exited w' p = p
      onward (crashed x) w' p = p

  pub defer_then :
      (m : Action Unit) (d : Outcome Unit → Action (Outcome Unit)) (w : World)
      → P (m w).1
      → ((o : Outcome Unit) → Keeps P (d o))
      → P (with_defer m d w).1
  unfolding with_defer
  defer_then m d w p kd = let (o, w') = m w in (Keeps-run_deferred d o kd).at w' p

-- ===== src/World/Keeps.antt =====
-- Invariants of actions: what holds before an action holds after it, however it ends. One rule for
-- each way to build an action.
use maistra_test_tool.World.{
  World, Action, Outcome, PanicValue, returned, panicked, exited, crashed, pure, panic, exit, gets,
  modify, when, for_each, continue, ◌>>=◌,
}
use maistra_test_tool.World.Panics.{with_defer, run_deferred}
use maistra_test_tool.Prelude.{Bool, true, false, List, [], ◌∷◌, if◌then◌else◌}

pub record Keeps {A : Type 0} (P : World → Type 0) (m : Action A) : Type 0 where
  pub at : (w : World) → P w → P (m w).1

module _ {A : Type 0} {P : World → Type 0} where
  pub Keeps-pure : (a : A) → Keeps P (pure a)
  unfolding pure
  Keeps-pure a = record { at = λ w h. h }

  pub Keeps-panic : (p : PanicValue) → Keeps P (panic {A = A} p)
  unfolding panic
  Keeps-panic p = record { at = λ w h. h }

  pub Keeps-exit : Keeps P (exit {A = A})
  unfolding exit
  Keeps-exit = record { at = λ w h. h }

  pub Keeps-gets : (f : World → A) → Keeps P (gets f)
  unfolding gets
  Keeps-gets f = record { at = λ w h. h }

  pub Keeps-if : (b : Bool) (m n : Action A) → Keeps P m → Keeps P n → Keeps P (if b then m else n)
  Keeps-if true m n km kn = km
  Keeps-if false m n km kn = kn

module _ {P : World → Type 0} where
  pub Keeps-modify : (f : World → World) → ((w : World) → P w → P (f w)) → Keeps P (modify f)
  unfolding modify
  Keeps-modify f h = record { at = h }

  pub Keeps-when : (b : Bool) (m : Action Unit) → Keeps P m → Keeps P (when b m)
  unfolding when
  Keeps-when true m km = km
  Keeps-when false m km = Keeps-pure tt

module _ {A B : Type 0} {P : World → Type 0} where
  Keeps-continue :
      (f : A → Action B) (o : Outcome A) → ((a : A) → Keeps P (f a)) → Keeps P (continue f o)
  Keeps-continue f (returned a) kf = kf a
  Keeps-continue f (panicked p) kf = record { at = λ w h. h }
  Keeps-continue f exited kf = record { at = λ w h. h }
  Keeps-continue f (crashed p) kf = record { at = λ w h. h }

  pub Keeps-bind :
      (m : Action A) (f : A → Action B) → Keeps P m → ((a : A) → Keeps P (f a)) → Keeps P (m >>= f)
  unfolding ◌>>=◌
  Keeps-bind m f km kf = record {
    at = λ w h. let (o, w') = m w in (Keeps-continue f o kf).at w' (km.at w h);
  }

module _ {P : World → Type 0} where
  pub Keeps-for_each :
      {A : Type 0} (xs : List A) (body : A → Action Unit)
      → ((x : A) → Keeps P (body x))
      → Keeps P (for_each xs body)
  unfolding for_each
  Keeps-for_each [] body k = Keeps-pure tt
  Keeps-for_each (x ∷ xs) body k = Keeps-bind (body x) _ (k x) (λ _. Keeps-for_each xs body k)

  pub Keeps-run_deferred :
      (d : Outcome Unit → Action (Outcome Unit)) (o : Outcome Unit)
      → ((o : Outcome Unit) → Keeps P (d o))
      → Keeps P (run_deferred d o)
  Keeps-run_deferred d (returned a) kd = record { at = λ w h. (kd (returned a)).at w h }
  Keeps-run_deferred d (panicked p) kd = record { at = λ w h. (kd (panicked p)).at w h }
  Keeps-run_deferred d exited kd = record { at = λ w h. (kd exited).at w h }
  Keeps-run_deferred d (crashed p) kd = record { at = λ w h. h }

  pub Keeps-with_defer :
      (m : Action Unit) (d : Outcome Unit → Action (Outcome Unit))
      → Keeps P m
      → ((o : Outcome Unit) → Keeps P (d o))
      → Keeps P (with_defer m d)
  unfolding with_defer
  Keeps-with_defer m d km kd = record {
    at = λ w h. let (o, w') = m w in (Keeps-run_deferred d o kd).at w' (km.at w h);
  }

pub ruleset keeps_rules = (
  Keeps-pure, Keeps-panic, Keeps-exit, Keeps-gets, Keeps-if, Keeps-when, Keeps-bind, Keeps-for_each,
  Keeps-with_defer,
)

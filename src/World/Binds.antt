-- ===== src/World/Binds.antt =====
-- How an action goes on: the equations of a sequence, by how its first part ends.
use maistra_test_tool.World.{
  World, Action, Outcome, PanicValue, returned, panicked, exited, crashed, pure, gets, ◌>>=◌,
}
use maistra_test_tool.Prelude.{◌≡◌, refl, ◌⊎◌, inl, inr}

-- How a call that does not return ends, whatever it would have returned.
pub data Unfinished {A B : Type 0} : Outcome A → Outcome B → Type 0 where
  by_panic : (p : PanicValue) → Unfinished (panicked p) (panicked p)
  by_exit : Unfinished exited exited
  by_crash : (p : PanicValue) → Unfinished (crashed p) (crashed p)

module _ {A B : Type 0} (k : A → Action B) where
  pub gets_bind : (f : World → A) (w : World) → (gets f >>= k) w ≡ k (f w) w
  unfolding ◌>>=◌
  gets_bind f w = refl

  pub pure_bind : (a : A) (w : World) → (pure a >>= k) w ≡ k a w
  unfolding ◌>>=◌
  pure_bind a w = refl

  pub returned_bind :
      (m : Action A) {a : A} {w w' : World} → m w ≡ (returned a, w') → (m >>= k) w ≡ k a w'
  unfolding ◌>>=◌
  returned_bind m e = rw e

  pub Unfinished-bind :
      (m : Action A) {o : Outcome A} {o' : Outcome B} {w w' : World}
      → m w ≡ (o, w')
      → Unfinished o o'
      → (m >>= k) w ≡ (o', w')
  unfolding ◌>>=◌
  Unfinished-bind m e (by_panic p) = rw e
  Unfinished-bind m e by_exit = rw e
  Unfinished-bind m e (by_crash p) = rw e

-- An outcome is a return, or is unfinished.
pub Outcome-cases :
    {A B : Type 0} (o : Outcome A)
    → ((a : A) × (o ≡ returned a)) ⊎ ((o' : Outcome B) × Unfinished o o')
Outcome-cases (returned a) = inl (a, refl)
Outcome-cases (panicked p) = inr (panicked p, by_panic p)
Outcome-cases exited = inr (exited, by_exit)
Outcome-cases (crashed p) = inr (crashed p, by_crash p)

-- ===== src/Suite/Cleanups.antt =====
-- pkg/util/test/suite.go: which of the functions that were given to `Cleanup` runs.
use maistra_test_tool.World.{
  World, Action, Outcome, returned, panicked, exited, crashed, for_each, pure, ◌>>=◌, ◌>>◌,
}
use maistra_test_tool.Helper.{allocate}
use maistra_test_tool.World.{continue}
use maistra_test_tool.Suite.{
  SetupFunc, set_up, set_cleanup, run_cleanup, run, new_setup_test_helper,
}
use maistra_test_tool.Prelude.{ℕ, ◌≡◌, refl, Option, none, some, List, [], ◌∷◌, map}
use maistra_test_tool.Prelude.Int.{ℤ}

-- A setup function that does its work and then gives a function to `Cleanup`.
pub record Step : Type 0 where
  pub work : ℕ → Action Unit
  pub cleanup : Action Unit

abbrev pub setup_of : Step → SetupFunc
setup_of p t = do p.work t; pure (some p.cleanup)

abbrev pub last_of : Option (Action Unit) → List Step → Option (Action Unit)
last_of cleanup [] = cleanup
last_of cleanup (p ∷ ps) = last_of (some p.cleanup) ps

abbrev pub works : ℕ → List Step → Action Unit
works h ps = for_each ps (λ p. p.work h)

set_up-last :
    (h : ℕ) (ps : List Step) (cleanup : Option (Action Unit)) (w : World)
    → set_up h (map setup_of ps) cleanup w ≡ (works h ps >> pure (last_of cleanup ps)) w
unfolding set_up for_each ◌>>=◌ set_cleanup
set_up-last h [] cleanup w = refl
set_up-last h (p ∷ ps) cleanup w = by_outcome (set_up-last h ps (some p.cleanup)) (p.work h w) refl
  where
    by_outcome :
        ((w' : World)
          → set_up h (map setup_of ps) (some p.cleanup) w'
            ≡ (works h ps >> pure (last_of (some p.cleanup) ps)) w')
        → (r : Outcome Unit × World) → p.work h w ≡ r
        → set_up h (map setup_of (p ∷ ps)) cleanup w
          ≡ (works h (p ∷ ps) >> pure (last_of cleanup (p ∷ ps))) w
    by_outcome ih (returned a, w') e = rw e (ih w')
    by_outcome ih (panicked x, w') e = rw e refl
    by_outcome ih (exited, w') e = rw e refl
    by_outcome ih (crashed x, w') e = rw e refl

rebind :
    {A B : Type 0} (a : Action A) (b : Action Unit) (x : A) (k : A → Action B) (w : World)
    → a w ≡ (b >> pure x) w
    → (a >>= k) w ≡ (b >> k x) w
unfolding ◌>>=◌
rebind a b x k w e = rw e (by_outcome (b w))
  where
    by_outcome :
        (r : Outcome Unit × World)
        → (let (o, w') = (let (o, w') = r in continue (λ _. pure x) o w') in continue k o w')
          ≡ (let (o, w') = r in continue (λ _. k x) o w')
    by_outcome (returned a, w') = refl
    by_outcome (panicked p, w') = refl
    by_outcome (exited, w') = refl
    by_outcome (crashed p, w') = refl

pub run-last :
    (m : Action ℤ) (ps : List Step) (t : ℕ) (w : World)
    → run (record { m = m; setup_fns = map setup_of ps }) t w
      ≡ (do
        h ← new_setup_test_helper t
        works h ps
        exit_code ← m
        run_cleanup (last_of none ps)
        pure exit_code)
          w
unfolding run ◌>>=◌ new_setup_test_helper allocate
run-last m ps t w =
    rebind (set_up _ (map setup_of ps) none) (works _ ps) (last_of none ps) _ _
      (set_up-last _ ps none _)

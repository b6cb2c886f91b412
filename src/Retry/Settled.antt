-- ===== src/Retry/Settled.antt =====
-- pkg/util/test/test_helper_retry.go and test_helper_flaky.go: how an attempt ends, by how its operation
-- ended.
use maistra_test_tool.World.{
  World, Action, Outcome, Helper, PanicValue, RetryTestHelper, FlakyTestHelper, plain, retry, flaky,
  setup, string, runtime_error, returned, panicked, exited, crashed, ◌>>=◌,
}
use maistra_test_tool.World.Panics.{recover, with_defer}
use maistra_test_tool.Helper.{fail, load, store, retry_panic_key, flaky_panic_key}
use maistra_test_tool.Helper.Isolation.{failures}
use maistra_test_tool.Retry.Attempt.{run_on, after_attempt, is_retry_panic}
use maistra_test_tool.Retry.Flaky.{flaky_attempt, after_flaky_attempt, is_flaky_panic}
use maistra_test_tool.Prelude.{
  ℕ, ◌≡◌, ◌≢◌, refl, Bool, true, false, Bool-cases, ◌⊎◌, inl, inr, arith, ap,
}
use maistra_test_tool.Text.{Text, teq, teq_iff}

abbrev pub own_failed : Helper → Bool
own_failed (plain o) = false
own_failed (retry o) = o.failed
own_failed (flaky o) = o.failed
own_failed (setup o) = false

-- The panic of FailNow, with the key, becomes a return with the helper marked as failed and no test marked;
-- every other end of the operation is that of the attempt, in the same world.
abbrev pub Settled : Text → ℕ → Outcome Unit → World → Outcome Unit × World → Type 0
Settled key h (returned a) w' r = r ≡ (returned a, w')
Settled key h exited w' r = r ≡ (exited, w')
Settled key h (crashed p) w' r = r ≡ (crashed p, w')
Settled key h (panicked p) w' r =
    ((p ≡ string key)
      × (r.0 ≡ returned tt)
      × (own_failed (r.1.helpers h) ≡ true)
      × (failures r.1 ≡ failures w'))
    ⊎ ((p ≢ string key) × (r ≡ (panicked p, w')))

abbrev message : PanicValue → Text
message (string s) = s
message (runtime_error s) = s

pub own_panic : (s key : Text) → teq s key ≡ true → string s ≡ string key
own_panic s key e = ap string ((teq_iff s key).0 e)

pub other_panic : (s key : Text) → teq s key ≡ false → string s ≢ string key
other_panic s key e same =
    let equal : teq s key ≡ true = (teq_iff s key).1 (ap message same) in cc (e, equal)

module _ (h : ℕ) (f : ℕ → Action Unit) (w w' : World) where
  -- An attempt of a retry, for an operation that ends with the helper of the attempt still in its place: the
  -- panic of FailNow is recovered, the helper is marked as failed, and no test is; a return, any other panic
  -- and the end of the goroutine stay what they are.
  pub run_on-Settled :
      (o : Outcome Unit) (object : RetryTestHelper)
      → f h w ≡ (o, w')
      → w'.helpers h ≡ retry object
      → Settled retry_panic_key h o w' (run_on h f w)
  unfolding run_on with_defer after_attempt recover fail load store ◌>>=◌ is_retry_panic
  run_on-Settled (returned a) object e stands = rw e refl
  run_on-Settled exited object e stands = rw e refl
  run_on-Settled (crashed p) object e stands = rw e refl
  run_on-Settled (panicked (runtime_error s)) object e stands = rw e (inr (ground arith, refl))
  run_on-Settled (panicked (string s)) object e stands = elim (Bool-cases (teq s retry_panic_key)) [
    | inl own ↦
        rw e (rw own (rw stands (inl (own_panic s retry_panic_key own, refl, ground arith, refl))))
    | inr other ↦ rw e (rw other (inr (other_panic s retry_panic_key other, refl)))
  ]

  -- An attempt on the helper of a flaky test, for an operation that ends with that helper still in its place:
  -- the panic of its FailNow is recovered, the helper is marked as failed, and no test is; a return, any
  -- other panic and the end of the goroutine stay what they are.
  pub flaky_attempt-Settled :
      (o : Outcome Unit) (object : FlakyTestHelper)
      → f h w ≡ (o, w')
      → w'.helpers h ≡ flaky object
      → Settled flaky_panic_key h o w' (flaky_attempt h f w)
  unfolding flaky_attempt with_defer after_flaky_attempt recover fail load store ◌>>=◌
      is_flaky_panic
  flaky_attempt-Settled (returned a) object e stands = rw e refl
  flaky_attempt-Settled exited object e stands = rw e refl
  flaky_attempt-Settled (crashed p) object e stands = rw e refl
  flaky_attempt-Settled (panicked (runtime_error s)) object e stands =
      rw e (inr (ground arith, refl))
  flaky_attempt-Settled (panicked (string s)) object e stands =
      elim (Bool-cases (teq s flaky_panic_key)) [
        | inl own ↦
            rw e
              (rw own (rw stands (inl (own_panic s flaky_panic_key own, refl, ground arith, refl))))
        | inr other ↦ rw e (rw other (inr (other_panic s flaky_panic_key other, refl)))
      ]

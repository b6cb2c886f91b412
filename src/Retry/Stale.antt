-- ===== src/Retry/Stale.antt =====
-- pkg/util/retry/retry.go: how the last attempt is judged, on the helper of a test.
use maistra_test_tool.World.{World, Action, TestHelper, plain, returned, exited, ◌>>=◌}
use maistra_test_tool.World.Testing.{t_failed}
use maistra_test_tool.Helper.{failed, load, failed_of, get_t, current_step, allocate, t_of, step_of}
use maistra_test_tool.Helper.Isolation.{failures}
use maistra_test_tool.Check.Leaves.{own_mark}
use maistra_test_tool.Retry.{until_success_with_options, rounds, round, run_attempt}
use maistra_test_tool.Retry.Options.{RetryOptions}
use maistra_test_tool.Retry.Attempt.{attempt_internal, run_on, after_attempt, new_retry_test_helper}
use maistra_test_tool.Retry.Runs.{give_up_lem, conclude-IsQuiet}
use maistra_test_tool.Shell.Healing.Judged.{failed_by_mark}
use maistra_test_tool.World.Panics.{with_defer, recover}
use maistra_test_tool.Prelude.{ℕ, suc, ◌≡◌, refl, ap, true, false, some, arith, ◌∙◌}
use maistra_test_tool.Prelude.Int.{pos, pos_part, eqb_ℤ, ◌-ℤ◌}

-- The world in which the operation is run for the first time, when another attempt may follow.
abbrev pub first_attempt : ℕ → RetryOptions → World → World
first_attempt h options w =
    (new_retry_test_helper (t_of (w.helpers h)) (step_of (w.helpers h)) (pos 0) options.max_attempts
      w).1

module _ (h : ℕ) (p : TestHelper) (options : RetryOptions) (f : ℕ → Action Unit) (w : World) where
  is_last : options.max_attempts ≡ pos 1 → eqb_ℤ (pos 0) (options.max_attempts -ℤ pos 1) ≡ true
  unfolding ◌-ℤ◌
  is_last one = rw one (ground arith)

  not_last :
      (m : ℕ)
      → options.max_attempts ≡ pos (suc (suc m))
      → eqb_ℤ (pos 0) (options.max_attempts -ℤ pos 1) ≡ false
  unfolding ◌-ℤ◌
  not_last m several = rw several (ground arith)

  only_attempt :
      (w' : World)
      → options.max_attempts ≡ pos 1
      → f h w ≡ (returned tt, w')
      → w'.helpers h ≡ plain p
      → (failures w' p.t ≡ true → (until_success_with_options h options f w).0 ≡ exited)
        × (failures w' p.t ≡ false → (until_success_with_options h options f w).0 ≡ returned tt)
  unfolding until_success_with_options rounds round run_attempt failed load failed_of t_failed ◌>>=◌
  only_attempt w' one ran stands =
      let count : pos_part options.max_attempts ≡ 1 = ap pos_part one in
      (
        (λ marked. rw count (
            rw (is_last one)
              (rw ran (rw stands (rw marked (rw ((give_up_lem h options 0 w').0) refl)))))),
        (λ clean. rw count (
            rw (is_last one) (
              rw ran (
                rw stands
                  (rw clean (rw ((conclude-IsQuiet h options w.clock h 0).returns w') refl)))))),
      )

  attempt_returns :
      (v : World)
      → f w.next_helper (first_attempt h options w) ≡ (returned tt, v)
      → attempt_internal h f (pos 0) options.max_attempts w ≡ (returned w.next_helper, v)
  unfolding attempt_internal ◌>>=◌ get_t current_step new_retry_test_helper allocate run_on
      with_defer after_attempt recover
  attempt_returns v ran = rw ran refl

  first_of_several :
      (m : ℕ) (v : World)
      → options.max_attempts ≡ pos (suc (suc m))
      → f w.next_helper (first_attempt h options w) ≡ (returned tt, v)
      → own_mark (v.helpers w.next_helper) ≡ some false
      → (until_success_with_options h options f w).0 ≡ returned tt
  unfolding until_success_with_options rounds round run_attempt ◌>>=◌
  first_of_several m v several ran clean =
      let count : pos_part options.max_attempts ≡ suc (suc m) = ap pos_part several in
      rw count (
        rw (not_last m several) (
          rw (attempt_returns v ran) (
            rw (failed_by_mark w.next_helper v false clean)
              (rw ((conclude-IsQuiet h options w.clock w.next_helper 0).returns v) refl))))

-- For an operation that returns and changes no mark, neither of a test nor of the helper that it is given: with one
-- attempt allowed, on the helper of a test, the retry ends the goroutine if the test was marked as failed before, and
-- returns if it was not; with more attempts allowed it returns in both cases.
pub until_success-stale :
    (h : ℕ) (p : TestHelper) (options : RetryOptions) (m : ℕ) (f : ℕ → Action Unit) (w w' v : World)
    → let one = record options { max_attempts = pos 1 } in
      let more = record options { max_attempts = pos (suc (suc m)) } in
      f h w ≡ (returned tt, w')
      → w'.helpers h ≡ plain p
      → failures w' ≡ failures w
      → f w.next_helper (first_attempt h more w) ≡ (returned tt, v)
      → own_mark (v.helpers w.next_helper) ≡ some false
      → (failures w p.t ≡ true → (until_success_with_options h one f w).0 ≡ exited)
        × (failures w p.t ≡ false → (until_success_with_options h one f w).0 ≡ returned tt)
        × ((until_success_with_options h more f w).0 ≡ returned tt)
until_success-stale h p options m f w w' v ran stands unmarked ran_first clean =
    let (ends, returns) =
      only_attempt h p (record options { max_attempts = pos 1 }) f w w' refl ran stands in
    let same : failures w' p.t ≡ failures w p.t = ap (λ g. g p.t) unmarked in
    (
      (λ marked. ends (same ∙ marked)),
      (λ free. returns (same ∙ free)),
      first_of_several h p (record options { max_attempts = pos (suc (suc m)) }) f w m v refl
          ran_first clean,
    )

-- ===== src/Retry.antt =====
-- pkg/util/retry: an operation is tried again until an attempt does not fail. All attempts but the last
-- run on a helper of their own; the last one runs on the helper of the caller.
pub mod Options
pub mod Attempt
pub mod Runs
pub mod Refinement
pub mod Flaky
pub mod Settled
pub mod Stale
pub mod Course
pub mod Isolation
pub mod Onward
pub mod Spending
use Attempt.{attempt_internal}
use maistra_test_tool.World.{
  World, Action, pure, gets, modify, when, returned, ◌>>=◌, ◌>>◌, retry, flaky,
}
use maistra_test_tool.World.Testing.{t_fail_now}
use maistra_test_tool.Env.{is_log_failed_retry_attempts}
use maistra_test_tool.Helper.{log, failed, get_t, flush_log_buffer}
use maistra_test_tool.Retry.Options.{RetryOptions, default_options}
use maistra_test_tool.Prelude.{
  ℕ, zero, suc, ◌+◌, ◌-◌, ◌*◌, ◌/◌, ◌%◌, ◌^◌, Bool, true, false, ◌&&◌, ◌++◌, ltb, if◌then◌else◌,
}
use maistra_test_tool.Text.{Text, lit, count}
use maistra_test_tool.Prelude.Int.{ℤ, pos_part, sub_ℕ, ◌-ℤ◌, ltb_ℤ, leb_ℤ, eqb_ℤ, pos}
use maistra_test_tool.Text.Decimal.{decimal, itoa}

-- time.Sleep
unfoldable pub sleep : ℤ → Action Unit
sleep d = modify λ w. record w { clock = w.clock + pos_part d }

-- `i * 100 / options.maxAttempts` in 64-bit arithmetic, for positive `max`
unfoldable pub percentage : ℕ → ℕ → ℤ
percentage i max =
    let p = (i * 100) % 2 ^ 64 in
    if ltb p (2 ^ 63) then pos (p / max) else sub_ℕ 0 ((2 ^ 64 - p) / max)

unfoldable pub certainly_flaky : Text
certainly_flaky =
    lit
      "WARNING: This test is is almost certainly flaky since it required more than 90% of the maximum retry count to succeed. Consider increasing the maximum retry count to prevent flakiness."

unfoldable pub may_be_flaky : Text
may_be_flaky =
    lit
      "WARNING: This test may be flaky since it required more than 75% of the maximum retry count to succeed. Consider increasing the maximum retry count to prevent flakiness."

-- `t.T().FailNow()`
unfoldable pub fail_test : ℕ → Action Unit
fail_test h = do t ← get_t h; t_fail_now t

fraction : ℕ → ℤ → Text
fraction i max = decimal (i + 1) ++ (lit "/" ++ itoa max)

module _ (h : ℕ) (options : RetryOptions) where
  abbrev logs_attempts : World → Bool
  logs_attempts w = options.log_attempts && is_log_failed_retry_attempts w.env

  -- The last attempt has failed.
  unfoldable pub give_up : ℕ → Action Unit
  unfolding fraction
  give_up i = do
    logged ← gets logs_attempts
    when logged
        (log h (lit "Last attempt (" ++ (fraction i options.max_attempts ++ lit ") failed.")))
    fail_test h

  -- Another attempt has failed.
  unfoldable pub prepare_retry : ℕ → Action Unit
  unfolding fraction sleep
  prepare_retry i = do
    logged ← gets logs_attempts
    shown ← gets λ w. w.outside.duration options.delay_between_attempts
    when logged (
        log h (
          lit "--- Attempt "
          ++ (fraction i options.max_attempts
              ++ (if eqb_ℤ options.delay_between_attempts default_options.delay_between_attempts
                  then lit " failed. Retrying..."
                  else lit " failed. Retrying in " ++ (shown ++ lit "...")))))
    sleep options.delay_between_attempts

  -- An attempt did not fail; `attempt_helper` is its helper.
  unfoldable pub conclude : ℕ → ℕ → ℕ → Action Unit
  unfolding fraction percentage
  conclude start attempt_helper i = do
    at_once ← gets λ w. is_log_failed_retry_attempts w.env
    total ← gets λ w. w.outside.seconds (w.clock - start)
    if at_once
        then when (ltb 0 i && options.log_attempts) (
            log h (
              lit "--- Attempt "
              ++ (fraction i options.max_attempts
                  ++ (lit " successful; total time: " ++ (total ++ lit "s")))))
        else flush_log_buffer attempt_helper
    when (ltb_ℤ (pos 1) options.max_attempts) (
        if leb_ℤ (pos 90) (percentage i (pos_part options.max_attempts))
        then log h certainly_flaky
        else if leb_ℤ (pos 75) (percentage i (pos_part options.max_attempts))
        then log h may_be_flaky
        else pure tt)

  module _ (f : ℕ → Action Unit) (start : ℕ) where
    -- Runs attempt `i`, and returns its helper.
    unfoldable pub run_attempt : ℕ → Action ℕ
    run_attempt i =
        if eqb_ℤ (pos i) (options.max_attempts -ℤ pos 1)
        then (do f h; pure h)
        else attempt_internal h f (pos i) options.max_attempts

    -- One round of the loop; the result says whether another one follows.
    unfoldable pub round : ℕ → Action Bool
    unfolding run_attempt
    round i = do
      attempt_helper ← run_attempt i
      has_failed ← failed attempt_helper
      if has_failed
          then if eqb_ℤ (pos i) (options.max_attempts -ℤ pos 1)
            then (do give_up i; pure false)
            else (do prepare_retry i; pure true)
          else (do conclude start attempt_helper i; pure false)

    -- The rounds that are left, and the number of the next one.
    unfoldable pub rounds : ℕ → ℕ → Action Unit
    rounds zero i = pure tt
    rounds (suc n) i = do again ← round i; if again then rounds n (i + 1) else pure tt

-- `UntilSuccessWithOptions`: the loop makes no round where `maxAttempts` is not positive.
unfoldable pub until_success_with_options : ℕ → RetryOptions → (ℕ → Action Unit) → Action Unit
until_success_with_options h options f = do
  start ← gets λ w. w.clock
  rounds h options f start (pos_part options.max_attempts) 0

unfoldable pub until_success : ℕ → (ℕ → Action Unit) → Action Unit
unfolding until_success_with_options
until_success h f = until_success_with_options h default_options f

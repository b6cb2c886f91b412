-- ===== src/Tests/Attempts.antt =====
-- Attempts at concrete inputs.
use maistra_test_tool.World.{
  World, Action, string, panic, panicked, flaky, ◌>>=◌, pure, exited, returned,
}
use maistra_test_tool.Helper.{retry_panic_key, flaky_panic_key}
use maistra_test_tool.Retry.{until_success_with_options}
use maistra_test_tool.Retry.Options.{RetryOptions, second}
use maistra_test_tool.Retry.Stale.{until_success-stale, first_attempt}
use maistra_test_tool.Retry.Attempt.{run_on, new_retry_test_helper}
use maistra_test_tool.Retry.Flaky.{flaky_attempt}
use maistra_test_tool.Retry.Settled.{Settled, run_on-Settled, flaky_attempt-Settled}
use maistra_test_tool.Helper.Isolation.{failures}
use maistra_test_tool.Tests.Data.{some_test, online, an_attempt, the_helper}
use maistra_test_tool.Prelude.{ℕ, refl, false, ◌≡◌, true}
use maistra_test_tool.Prelude.Int.{pos}

-- An operation that panics as FailNow of the helper of a retry does.
abbrev give_in : ℕ → Action Unit
give_in h = panic (string retry_panic_key)

run_on-Settled_example :
    Settled retry_panic_key 1 (panicked (string retry_panic_key)) online (run_on 1 give_in online)
unfolding ◌>>=◌
run_on-Settled_example =
    run_on-Settled 1 give_in online online (panicked (string retry_panic_key)) an_attempt refl refl

abbrev flaky_world : World
flaky_world = record online {
  helpers = λ h. flaky (record { helper = the_helper; failed = false });
}

flaky_attempt-Settled_example :
    Settled flaky_panic_key 0
      (panicked (string retry_panic_key))
      flaky_world
      (flaky_attempt 0 give_in flaky_world)
unfolding ◌>>=◌
flaky_attempt-Settled_example =
    flaky_attempt-Settled 0 give_in flaky_world flaky_world (panicked (string retry_panic_key))
      (record { helper = the_helper; failed = false }) refl refl

abbrev one_attempt : RetryOptions
one_attempt = record { max_attempts = pos 1; delay_between_attempts = second; log_attempts = true }

-- The test has failed before.
abbrev failed_before : World
failed_before = record online { ts = λ a. record some_test { failed = true } }

abbrev succeed : ℕ → Action Unit
succeed h = pure tt

until_success-stale_example :
    let options = record one_attempt { max_attempts = pos 1 } in
    let more = record one_attempt { max_attempts = pos 3 } in
    (failures failed_before 0 ≡ true
      → (until_success_with_options 0 options succeed failed_before).0 ≡ exited)
    × (failures failed_before 0 ≡ false
        → (until_success_with_options 0 options succeed failed_before).0 ≡ returned tt)
    × ((until_success_with_options 0 more succeed failed_before).0 ≡ returned tt)
unfolding ◌>>=◌ new_retry_test_helper
until_success-stale_example =
    until_success-stale 0 the_helper one_attempt 1 succeed failed_before failed_before
      (first_attempt 0 (record one_attempt { max_attempts = pos 3 }) failed_before) refl refl refl
      refl refl

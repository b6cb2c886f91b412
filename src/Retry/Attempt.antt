-- ===== src/Retry/Attempt.antt =====
-- `RetryTestHelper.Attempt`, and the two functions that make a helper for one attempt.
use maistra_test_tool.World.{
  Action, PanicValue, Outcome, string, runtime_error, retry, pure, panic, ◌>>=◌, ◌>>◌,
}
use maistra_test_tool.World.Panics.{recover, deferred, with_defer}
use maistra_test_tool.Helper.{allocate, get_t, current_step, fail, retry_panic_key}
use maistra_test_tool.Prelude.{ℕ, Bool, false, none, some, [], if◌then◌else◌}
use maistra_test_tool.Text.{teq}
use maistra_test_tool.Prelude.Int.{ℤ, pos}

unfoldable pub is_retry_panic : PanicValue → Bool
is_retry_panic (string s) = teq s retry_panic_key
is_retry_panic (runtime_error s) = false

-- `NewRetryTestHelper`
unfoldable pub new_retry_test_helper : ℕ → ℕ → ℤ → ℤ → Action ℕ
unfolding allocate
new_retry_test_helper t step attempt max = allocate (
    retry (record {
      helper = record { t = t; current_step = step };
      failed = false;
      attempt = attempt;
      max_attempts = max;
      log_buffer = [];
    }))

-- The deferred function of `Attempt`: the panic of FailNow ends the attempt, any other one goes on.
unfoldable pub after_attempt : ℕ → Outcome Unit → Action (Outcome Unit)
unfolding is_retry_panic recover
after_attempt h o =
    let (err, o') = recover deferred o in
    elim err [
      | none ↦ pure o'
      | some p ↦ if is_retry_panic p then (do fail h; pure o') else panic p
    ]

-- `RetryTestHelper.Attempt`
unfoldable pub run_on : ℕ → (ℕ → Action Unit) → Action Unit
unfolding after_attempt with_defer
run_on h f = with_defer (f h) (after_attempt h)

unfoldable pub attempt_internal : ℕ → (ℕ → Action Unit) → ℤ → ℤ → Action ℕ
unfolding new_retry_test_helper run_on
attempt_internal h f i max = do
  t ← get_t h
  step ← current_step h
  r ← new_retry_test_helper t step i max
  run_on r f
  pure r

-- `retry.Attempt`
unfoldable pub attempt : ℕ → (ℕ → Action Unit) → Action ℕ
unfolding attempt_internal
attempt h f = attempt_internal h f (pos 0) (pos 1)

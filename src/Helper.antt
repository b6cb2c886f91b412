-- ===== src/Helper.antt =====
-- pkg/util/test/test_helper*.go: the four implementations of the interface TestHelper. A helper is an
-- address `h`; a call looks the object up and runs the method of its type. A method that a type does
-- not declare is the one of the embedded `testHelper`, whose own calls stay within `testHelper`.
-- Arguments of `Log`, `Error`, `Fatal` and of their `f` forms come formatted, as one text.
pub mod Base
pub mod Isolation
pub mod Logging
pub mod Still
pub mod Onward
pub mod Returning
pub mod Setup
unfoldable pub use Base.{
  success_prefix, failure_prefix, fatal_prefix, retry_panic_key, flaky_panic_key, load, store,
  allocate, t_of, get_t, step_of, current_step, indent, base_log, log_or_append_to_buffer,
}
use Setup.{setup_log, not_applicable, setup_fail, setup_fail_now}
use maistra_test_tool.World.{
  World, Action, Helper, TestHelper, RetryTestHelper, FlakyTestHelper, SetupTestHelper, plain,
  retry, flaky, setup, string, pure, panic, gets, modify, update, when, for_each, ◌>>=◌, ◌>>◌,
  returned,
}
use maistra_test_tool.World.Testing.{
  t_log, t_fail, t_fail_now, t_failed, t_skip, t_skip_now, t_skipped,
}
use maistra_test_tool.Env.{is_log_failed_retry_attempts}
use maistra_test_tool.Prelude.{ℕ, ◌+◌, Bool, true, false, [], ◌∷◌, ◌++◌, ltb, if◌then◌else◌}
use maistra_test_tool.Text.{Text, lit}
use maistra_test_tool.Prelude.Int.{◌-ℤ◌, ltb_ℤ, pos}
use maistra_test_tool.Text.Decimal.{decimal}

log_of : ℕ → Helper → Text → Action Unit
log_of h (plain o) msg = base_log o msg
log_of h (retry o) msg = log_or_append_to_buffer h o msg
log_of h (flaky o) msg = base_log o.helper msg
log_of h (setup o) msg = setup_log msg

-- `Log` and `Logf`
unfoldable pub log : ℕ → Text → Action Unit
unfolding log_of load
log h msg = do o ← load h; log_of h o msg

fail_of : ℕ → Helper → Action Unit
fail_of h (plain o) = t_fail o.t
fail_of h (retry o) = store h (retry (record o { failed = true }))
fail_of h (flaky o) = store h (flaky (record o { failed = true }))
fail_of h (setup o) = setup_fail

-- `Fail`
unfoldable pub fail : ℕ → Action Unit
unfolding fail_of load store
fail h = do o ← load h; fail_of h o

unfoldable pub fail_now_of : ℕ → Helper → Action Unit
unfolding fail
fail_now_of h (plain o) = t_fail_now o.t
fail_now_of h (retry o) = do fail h; panic (string retry_panic_key)
fail_now_of h (flaky o) = do fail h; panic (string flaky_panic_key)
fail_now_of h (setup o) = setup_fail_now

-- `FailNow`
unfoldable pub fail_now : ℕ → Action Unit
unfolding fail_now_of load
fail_now h = do o ← load h; fail_now_of h o

unfoldable pub failed_of : Helper → Action Bool
failed_of (plain o) = t_failed o.t
failed_of (retry o) = pure o.failed
failed_of (flaky o) = pure o.failed
failed_of (setup o) = not_applicable

-- `Failed`
unfoldable pub failed : ℕ → Action Bool
unfolding failed_of load
failed h = do o ← load h; failed_of o

-- What stands before the message of `Error`, and of `Fatal`.
error_prefix : Helper → Text
error_prefix (plain o) = failure_prefix
error_prefix (retry o) = failure_prefix
error_prefix (flaky o) = lit "ERROR: "
error_prefix (setup o) = failure_prefix

fatal_prefix_of : Helper → Text
fatal_prefix_of (retry o) = failure_prefix
fatal_prefix_of (plain o) = fatal_prefix
fatal_prefix_of (flaky o) = fatal_prefix
fatal_prefix_of (setup o) = fatal_prefix

-- `Error` and `Errorf`
unfoldable pub error : ℕ → Text → Action Unit
unfolding error_prefix load log fail
error h msg = do o ← load h; log h (error_prefix o ++ msg); fail h

unfoldable pub before_fail_now : ℕ → Helper → Text → Action Unit
unfolding fatal_prefix_of error
before_fail_now h (retry o) msg = error h msg
before_fail_now h (plain o) msg = log h (fatal_prefix ++ msg)
before_fail_now h (flaky o) msg = log h (fatal_prefix ++ msg)
before_fail_now h (setup o) msg = log h (fatal_prefix ++ msg)

-- `Fatal` and `Fatalf`: the helper of a retry calls `Error` first, the others log.
unfoldable pub fatal : ℕ → Text → Action Unit
unfolding before_fail_now load fail_now
fatal h msg = do o ← load h; before_fail_now h o msg; fail_now h

skip_of : Helper → Text → Action Unit
skip_of (plain o) msg = t_skip o.t msg
skip_of (retry o) msg = t_skip o.helper.t msg
skip_of (flaky o) msg = t_skip o.helper.t msg
skip_of (setup o) msg = t_skip o.t msg

-- `Skip`
unfoldable pub skip : ℕ → Text → Action Unit
unfolding skip_of load
skip h msg = do o ← load h; skip_of o msg

skipf_of : Helper → Text → Action Unit
skipf_of (plain o) msg = t_skip o.t msg
skipf_of (retry o) msg = t_skip o.helper.t msg
skipf_of (flaky o) msg = t_skip o.helper.t msg
skipf_of (setup o) msg = not_applicable

-- `Skipf`
unfoldable pub skipf : ℕ → Text → Action Unit
unfolding skipf_of load
skipf h msg = do o ← load h; skipf_of o msg

skip_now_of : Helper → Action Unit
skip_now_of (plain o) = t_skip_now o.t
skip_now_of (retry o) = t_skip_now o.helper.t
skip_now_of (flaky o) = t_skip_now o.helper.t
skip_now_of (setup o) = not_applicable

-- `SkipNow`
unfoldable pub skip_now : ℕ → Action Unit
unfolding skip_now_of load
skip_now h = do o ← load h; skip_now_of o

skipped_of : Helper → Action Bool
skipped_of (plain o) = t_skipped o.t
skipped_of (retry o) = t_skipped o.helper.t
skipped_of (flaky o) = t_skipped o.helper.t
skipped_of (setup o) = not_applicable

-- `Skipped`
unfoldable pub skipped : ℕ → Action Bool
unfolding skipped_of load
skipped h = do o ← load h; skipped_of o

name_of : Helper → Action Text
name_of (plain o) = gets λ w. (w.ts o.t).name
name_of (retry o) = gets λ w. (w.ts o.helper.t).name
name_of (flaky o) = gets λ w. (w.ts o.helper.t).name
name_of (setup o) = not_applicable

-- `Name`
unfoldable pub name : ℕ → Action Text
unfolding name_of load
name h = do o ← load h; name_of o

next_step : TestHelper → TestHelper
next_step o = record o { current_step = o.current_step + 1 }

-- `testHelper.LogStep`, after the step was counted
base_log_step : TestHelper → Text → Action Unit
base_log_step o str = do
  base_log o []
  t_log o.t (lit "STEP " ++ (decimal o.current_step ++ (lit ": " ++ str)))

log_step_of : ℕ → Helper → Text → Action Unit
unfolding next_step base_log_step
log_step_of h (plain o) str = do store h (plain (next_step o)); base_log_step (next_step o) str
log_step_of h (retry o) str = do
  store h (retry (record o { helper = next_step o.helper }))
  base_log_step (next_step o.helper) str
log_step_of h (flaky o) str = do
  store h (flaky (record o { helper = next_step o.helper }))
  base_log_step (next_step o.helper) str
log_step_of h (setup o) str = setup_log (lit "SETUP: " ++ str)

-- `LogStep`
unfoldable pub log_step : ℕ → Text → Action Unit
unfolding log_step_of load store
log_step h str = do o ← load h; log_step_of h o str

log_success_of : ℕ → Helper → Text → Action Unit
log_success_of h (plain o) str = base_log o (success_prefix ++ str)
log_success_of h (retry o) str = log_or_append_to_buffer h o (success_prefix ++ str)
log_success_of h (flaky o) str = base_log o.helper (success_prefix ++ str)
log_success_of h (setup o) str = not_applicable

-- `LogSuccess`
unfoldable pub log_success : ℕ → Text → Action Unit
unfolding log_success_of load
log_success h str = do o ← load h; log_success_of h o str

log_successf_of : Helper → Text → Action Unit
log_successf_of (plain o) str = base_log o (success_prefix ++ str)
log_successf_of (retry o) str = base_log o.helper (success_prefix ++ str)
log_successf_of (flaky o) str = base_log o.helper (success_prefix ++ str)
log_successf_of (setup o) str = not_applicable

-- `LogSuccessf`: the helper of a retry has only the one of the embedded `testHelper`, which does not
-- know the buffer.
unfoldable pub log_successf : ℕ → Text → Action Unit
unfolding log_successf_of load
log_successf h str = do o ← load h; log_successf_of o str

will_retry_of : Helper → Action Bool
will_retry_of (plain o) = pure false
will_retry_of (retry o) = pure (ltb_ℤ o.attempt (o.max_attempts -ℤ pos 1))
will_retry_of (flaky o) = pure false
will_retry_of (setup o) = not_applicable

-- `WillRetry`
unfoldable pub will_retry : ℕ → Action Bool
unfolding will_retry_of load
will_retry h = do o ← load h; will_retry_of o

unfoldable pub flush_log_buffer_of : ℕ → Helper → Action Unit
flush_log_buffer_of h (retry o) = do
  at_once ← gets λ w. is_log_failed_retry_attempts w.env
  if at_once then pure tt else do
    for_each o.log_buffer (λ s. base_log o.helper s)
    store h (retry (record o { log_buffer = [] }))
flush_log_buffer_of h _ = pure tt

-- `FlushLogBuffer`, a method of the helper of a retry only
unfoldable pub flush_log_buffer : ℕ → Action Unit
unfolding flush_log_buffer_of load
flush_log_buffer h = do o ← load h; flush_log_buffer_of h o

-- ===== src/Helper/Base.antt =====
-- pkg/util/test/test_helper*.go: access to the objects, the parts that every implementation has, and
-- the two ways in which they log.
use maistra_test_tool.World.{
  Action, Helper, TestHelper, RetryTestHelper, plain, retry, flaky, setup, returned, gets, modify,
  update, ◌>>=◌,
}
use maistra_test_tool.World.Testing.{t_log}
use maistra_test_tool.Env.{is_log_failed_retry_attempts}
use maistra_test_tool.Prelude.{ℕ, ◌+◌, [], ◌∷◌, ◌++◌, ltb, if◌then◌else◌}
use maistra_test_tool.Text.{Text, lit}

abbrev pub success_prefix : Text
success_prefix = lit "SUCCESS: "

abbrev pub failure_prefix : Text
failure_prefix = lit "FAILURE: "

abbrev pub fatal_prefix : Text
fatal_prefix = lit "FATAL: "

-- The values that the panics of the two FailNow methods carry.
abbrev pub retry_panic_key : Text
retry_panic_key = lit "RetryTestHelper.FailNow"

abbrev pub flaky_panic_key : Text
flaky_panic_key = lit "flakyTestHelper.FailNow"

unfoldable pub load : ℕ → Action Helper
load h = gets λ w. w.helpers h

unfoldable pub store : ℕ → Helper → Action Unit
store h o = modify λ w. record w { helpers = update w.helpers h o }

-- A new object, at the next free address.
unfoldable pub allocate : Helper → Action ℕ
allocate o w = (
  returned w.next_helper,
  record w { helpers = update w.helpers w.next_helper o; next_helper = w.next_helper + 1 },
)

-- `T()`
unfoldable pub t_of : Helper → ℕ
t_of (plain o) = o.t
t_of (retry o) = o.helper.t
t_of (flaky o) = o.helper.t
t_of (setup o) = o.t

unfoldable pub get_t : ℕ → Action ℕ
unfolding t_of
get_t h = gets λ w. t_of (w.helpers h)

unfoldable pub step_of : Helper → ℕ
step_of (plain o) = o.current_step
step_of (retry o) = o.helper.current_step
step_of (flaky o) = o.helper.current_step
step_of (setup o) = 0

-- `CurrentStep()`
unfoldable pub current_step : ℕ → Action ℕ
unfolding step_of
current_step h = gets λ w. step_of (w.helpers h)

abbrev pub indent : TestHelper → Text
indent o = if ltb 0 o.current_step then lit "   " else []

-- `testHelper.Log` and `Logf`
unfoldable pub base_log : TestHelper → Text → Action Unit
base_log o msg = t_log o.t (indent o ++ msg)

-- `RetryTestHelper.logOrAppendToBuffer`
unfoldable pub log_or_append_to_buffer : ℕ → RetryTestHelper → Text → Action Unit
unfolding base_log store
log_or_append_to_buffer h o msg = do
  at_once ← gets λ w. is_log_failed_retry_attempts w.env
  if at_once
      then base_log o.helper msg
      else store h (retry (record o { log_buffer = o.log_buffer ++ msg ∷ [] }))

-- ===== src/Check/Common.antt =====
-- pkg/util/check/common, assert and require: the types that the checks share, and the two failure functions.
use maistra_test_tool.World.{Action, gets, ◌>>=◌, pure}
use maistra_test_tool.Helper.{error, fatal, will_retry}
use maistra_test_tool.Prelude.{ℕ, ◌++◌, if◌then◌else◌}
use maistra_test_tool.Text.{Text, lit, is_empty}

-- `FailureFunc` of common/http_response.go: the helper, the message and the detail
abbrev pub FailureFunc : Type 0
FailureFunc = ℕ → Text → Text → Action Unit

-- `CheckFunc` of common/output.go: the helper and the output
abbrev pub CheckFunc : Type 0
CheckFunc = ℕ → Text → Action Unit

-- `assertFailure`: the test goes on.
unfoldable pub assert_failure : FailureFunc
assert_failure h msg detail =
    if is_empty detail then error h msg else error h (msg ++ (lit "; " ++ detail))

-- `requireFailure`: the test, or the attempt, ends. A message with no detail is used as a format.
unfoldable pub require_failure : FailureFunc
require_failure h msg detail = do
  alone ← gets λ w. w.outside.format_alone msg
  if is_empty detail then fatal h alone else fatal h (msg ++ (lit "; " ++ detail))

-- `if !t.WillRetry() { msg += more }`
unfoldable pub detail_unless_retried : ℕ → Text → Text → Action Text
detail_unless_retried h msg more = do
  again ← will_retry h
  pure (if again then msg else msg ++ more)

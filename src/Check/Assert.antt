-- ===== src/Check/Assert.antt =====
-- pkg/util/check/assert: checks that mark the test as failed and go on.
use maistra_test_tool.World.{pure}
use maistra_test_tool.Check.Common.{CheckFunc, assert_failure}
use maistra_test_tool.Check.Output.{
  check_output_contains_any, check_output_does_not_contain, count_expected_string,
}
use maistra_test_tool.Check.Response.{
  ResponseCheck, RequestError, check_response_matches_file, check_response_status,
  check_response_contains, check_response_does_not_contain, check_duration_in_range,
  check_request_succeeds, check_request_fails, check_request_failure_messages_any,
}
use maistra_test_tool.Prelude.{Bool, false, Option, none, some, List, [], ◌∷◌, if◌then◌else◌}
use maistra_test_tool.Text.{Text, lit}
use maistra_test_tool.Prelude.Int.{ℤ}

unfoldable pub output_contains : Text → Text → Text → CheckFunc
output_contains str success_msg failure_msg h input =
    check_output_contains_any h input (str ∷ []) success_msg failure_msg assert_failure

unfoldable pub output_contains_any : List Text → Text → Text → CheckFunc
output_contains_any strs success_msg failure_msg h input =
    check_output_contains_any h input strs success_msg failure_msg assert_failure

unfoldable pub output_does_not_contain : Text → Text → Text → CheckFunc
output_does_not_contain str success_msg failure_msg h input =
    check_output_does_not_contain h input str success_msg failure_msg assert_failure

-- `CountExpectedString`
unfoldable pub count_expected : Text → ℤ → Text → Text → CheckFunc
count_expected str occurrences success_msg failure_msg h input =
    count_expected_string h input str occurrences success_msg failure_msg assert_failure

unfoldable pub response_matches_file : Text → Text → Text → List Text → ResponseCheck
response_matches_file file success_msg failure_msg others h resp body err duration =
    check_response_matches_file h resp body file success_msg failure_msg assert_failure others

unfoldable pub response_status : ℤ → ResponseCheck
response_status expected h resp body err duration =
    check_response_status h resp body expected assert_failure

unfoldable pub response_contains : Text → ResponseCheck
response_contains str h resp body err duration =
    check_response_contains h resp body str assert_failure

unfoldable pub response_does_not_contain : Text → ResponseCheck
response_does_not_contain str h resp body err duration =
    check_response_does_not_contain h resp body str assert_failure

unfoldable pub duration_in_range : ℤ → ℤ → ResponseCheck
duration_in_range min_duration max_duration h resp body err duration =
    check_duration_in_range h resp duration min_duration max_duration assert_failure

unfoldable pub request_succeeds : Text → Text → ResponseCheck
request_succeeds success_msg failure_msg h resp body err duration =
    check_request_succeeds h resp success_msg failure_msg assert_failure

canceled : Option RequestError → Bool
canceled none = false
canceled (some err) = err.is_canceled

-- `RequestSucceedsAndIgnoreContextCancelled`
unfoldable pub request_succeeds_and_ignore_context_cancelled : Text → ResponseCheck
unfolding canceled
request_succeeds_and_ignore_context_cancelled failure_msg h resp body err duration =
    if canceled err then pure tt else elim resp [
      | none ↦ assert_failure h failure_msg (lit "expected request to succeed, but it failed")
      | some _ ↦ pure tt
    ]

unfoldable pub request_fails : Text → Text → ResponseCheck
request_fails success_msg failure_msg h resp body err duration =
    check_request_fails h resp body success_msg failure_msg assert_failure

unfoldable pub request_fails_with_error_message : Text → Text → Text → ResponseCheck
request_fails_with_error_message expected success_msg failure_msg h resp body err duration =
    check_request_failure_messages_any h err (expected ∷ []) success_msg failure_msg assert_failure

unfoldable pub request_fails_with_any_error_messages : List Text → Text → Text → ResponseCheck
request_fails_with_any_error_messages expected success_msg failure_msg h resp body err duration =
    check_request_failure_messages_any h err expected success_msg failure_msg assert_failure

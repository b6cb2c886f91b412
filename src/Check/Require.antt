-- ===== src/Check/Require.antt =====
-- pkg/util/check/require: checks that end the test, or the attempt, when they fail.
use maistra_test_tool.Check.Common.{CheckFunc, require_failure}
use maistra_test_tool.Check.Output.{check_output_contains_any, check_output_does_not_contain}
use maistra_test_tool.Check.Response.{
  ResponseCheck, check_response_matches_file, check_response_status, check_response_contains,
  check_duration_in_range, check_request_succeeds, check_request_fails,
}
use maistra_test_tool.Prelude.{List, [], ◌∷◌}
use maistra_test_tool.Text.{Text}
use maistra_test_tool.Prelude.Int.{ℤ}

unfoldable pub output_contains : Text → Text → Text → CheckFunc
output_contains str success_msg failure_msg h input =
    check_output_contains_any h input (str ∷ []) success_msg failure_msg require_failure

unfoldable pub output_contains_any : List Text → Text → Text → CheckFunc
output_contains_any strs success_msg failure_msg h input =
    check_output_contains_any h input strs success_msg failure_msg require_failure

unfoldable pub output_does_not_contain : Text → Text → Text → CheckFunc
output_does_not_contain str success_msg failure_msg h input =
    check_output_does_not_contain h input str success_msg failure_msg require_failure

unfoldable pub response_matches_file : Text → Text → Text → List Text → ResponseCheck
response_matches_file file success_msg failure_msg others h resp body err duration =
    check_response_matches_file h resp body file success_msg failure_msg require_failure others

unfoldable pub response_status : ℤ → ResponseCheck
response_status expected h resp body err duration =
    check_response_status h resp body expected require_failure

unfoldable pub response_contains : Text → ResponseCheck
response_contains str h resp body err duration =
    check_response_contains h resp body str require_failure

unfoldable pub duration_in_range : ℤ → ℤ → ResponseCheck
duration_in_range min_duration max_duration h resp body err duration =
    check_duration_in_range h resp duration min_duration max_duration require_failure

unfoldable pub request_succeeds : Text → Text → ResponseCheck
request_succeeds success_msg failure_msg h resp body err duration =
    check_request_succeeds h resp success_msg failure_msg require_failure

unfoldable pub request_fails : Text → Text → ResponseCheck
request_fails success_msg failure_msg h resp body err duration =
    check_request_fails h resp body success_msg failure_msg require_failure

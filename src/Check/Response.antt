-- ===== src/Check/Response.antt =====
-- pkg/util/check/common/http_response.go
use maistra_test_tool.World.{World, Action, runtime_error, pure, panic, gets, ◌>>=◌, ◌>>◌}
use maistra_test_tool.Helper.{fatal, log_success}
use maistra_test_tool.Util.{compare_http_response}
use maistra_test_tool.Check.Common.{FailureFunc, detail_unless_retried}
use maistra_test_tool.Check.Output.{sprint_list}
use maistra_test_tool.Prelude.{
  ℕ, suc, ◌*◌, ◌/◌, String, Bool, false, ◌&&◌, ◌||◌, Option, none, some, List, [], ◌∷◌, ◌++◌,
  if◌then◌else◌,
}
use maistra_test_tool.Text.{Text, lit, is_empty, contains}
use maistra_test_tool.Prelude.Int.{ℤ, sub_ℕ, leb_ℤ, eqb_ℤ, pos, negsuc}
use maistra_test_tool.Text.Decimal.{itoa}

-- `http.Response`, as far as the checks read it
pub record Response : Type 0 where
  pub status_code : ℤ
  pub status : Text

-- An error of a request; `is_canceled` is what errors.Is says of context.Canceled.
pub record RequestError : Type 0 where
  pub message : Text
  pub is_canceled : Bool

-- `HTTPResponseCheckFunc` of pkg/util/curl: the helper, the response (nil if the request failed), the
-- body, the error and the duration
abbrev pub ResponseCheck : Type 0
ResponseCheck = ℕ → Option Response → Text → Option RequestError → ℤ → Action Unit

-- `requireNonNilResponse`, with the read of the response that follows it
unfoldable pub require_non_nil_response : ℕ → Option Response → Action Response
require_non_nil_response h (some resp) = pure resp
require_non_nil_response h none = do
  fatal h (lit "response is nil; the HTTP request must have failed")
  panic (runtime_error (lit "invalid memory address or nil pointer dereference"))

abbrev with_quoted : String → (World → Text) → String → Action Text
with_quoted before q after = gets λ w. lit before ++ (q w ++ lit after)

abbrev diff_note : Text → Text
diff_note err = lit "\ndiff between the expected (-) and actual response (+):\n" ++ err

-- `findMatchingFile`; the result is empty if no file matches.
unfoldable pub find_matching_file : Text → List Text → Action Text
find_matching_file body [] = pure []
find_matching_file body (file ∷ rest) = do
  err ← compare_http_response body file
  elim err [ none ↦ pure file | some _ ↦ find_matching_file body rest ]

expected_to_match : Text → String → World → Text
expected_to_match file after w =
    lit "expected the response to match file " ++ (w.outside.quote file ++ lit after)

mismatch_detail : ℕ → Text → Text → Text → List Text → Action Text
unfolding find_matching_file expected_to_match
mismatch_detail h body file err [] = do
  detail ← gets (expected_to_match file ", but it didn't")
  detail_unless_retried h detail (diff_note err)
mismatch_detail h body file err (other ∷ others) = do
  matched_file ← find_matching_file body (other ∷ others)
  if is_empty matched_file
      then (do
        detail ← gets (expected_to_match file ", but it didn't match that or any other file")
        detail_unless_retried h detail (diff_note err))
      else gets λ w. expected_to_match file ", but it matched " w ++ w.outside.quote matched_file

matches_file : ℕ → Text → Text → Text → Text → FailureFunc → List Text → Option Text → Action Unit
unfolding mismatch_detail
matches_file h body file success_msg failure_msg failure others none =
    log_success h
      (if is_empty success_msg then lit "response matches file " ++ file else success_msg)
matches_file h body file success_msg failure_msg failure others (some err) = do
  detail ← mismatch_detail h body file err others
  failure h failure_msg detail

-- `CheckResponseMatchesFile`
unfoldable pub check_response_matches_file :
    ℕ → Option Response → Text → Text → Text → Text → FailureFunc → List Text → Action Unit
unfolding matches_file
check_response_matches_file h resp body file success_msg failure_msg failure others = do
  require_non_nil_response h resp
  err ← compare_http_response body file
  matches_file h body file success_msg failure_msg failure others err

status_mismatch : ℤ → Response → Text
status_mismatch expected resp =
    lit "expected status code " ++ (itoa expected ++ (lit " but got " ++ resp.status))

-- `CheckResponseStatus`
unfoldable pub check_response_status : ℕ → Option Response → Text → ℤ → FailureFunc → Action Unit
unfolding status_mismatch require_non_nil_response
check_response_status h resp body expected failure = do
  r ← require_non_nil_response h resp
  if eqb_ℤ r.status_code expected
      then log_success h (lit "received expected status code " ++ itoa expected)
      else do
        msg ← detail_unless_retried h (status_mismatch expected r) (lit " and response: " ++ body)
        failure h msg []

abbrev full_response : Text → Text
full_response body = lit "\nfull response:\n" ++ body

abbrev quoting : String → Text → String → Text
quoting before str after = lit before ++ (str ++ lit after)

-- `CheckResponseContains`
unfoldable pub check_response_contains :
    ℕ → Option Response → Text → Text → FailureFunc → Action Unit
unfolding require_non_nil_response
check_response_contains h resp body str failure = do
  require_non_nil_response h resp
  if contains body str then log_success h (quoting "string '" str "' found in response") else do
    detail ←
        detail_unless_retried h
          (quoting "expected to find the string '" str "' in the response, but it wasn't found")
          (full_response body)
    failure h detail []

-- `CheckResponseDoesNotContain`
unfoldable pub check_response_does_not_contain :
    ℕ → Option Response → Text → Text → FailureFunc → Action Unit
unfolding require_non_nil_response
check_response_does_not_contain h resp body str failure = do
  require_non_nil_response h resp
  if contains body str
      then (do
        detail ←
            detail_unless_retried h
              (quoting "expected the string '" str
                "' to be absent from the response, but it was present")
              (full_response body)
        failure h detail [])
      else log_success h (quoting "string '" str "' not found in response")

-- `Duration.Truncate(time.Millisecond)`
truncate_ms : ℤ → ℤ
truncate_ms (pos n) = pos (n / 1_000_000 * 1_000_000)
truncate_ms (negsuc n) = sub_ℕ 0 (suc n / 1_000_000 * 1_000_000)

-- `CheckDurationInRange`
unfoldable pub check_duration_in_range : ℕ → Option Response → ℤ → ℤ → ℤ → FailureFunc → Action Unit
unfolding truncate_ms require_non_nil_response
check_duration_in_range h resp duration min_duration max_duration failure = do
  require_non_nil_response h resp
  show ← gets λ w. w.outside.duration
  if leb_ℤ min_duration duration && leb_ℤ duration max_duration
      then log_success h (
          lit "request completed in "
          ++ (show (truncate_ms duration)
              ++ (lit ", which is within the expected range "
                  ++ (show min_duration ++ (lit " - " ++ show max_duration)))))
      else failure h
          (lit "expected request duration to be between "
            ++ (show min_duration
                ++ (lit " and "
                    ++ (show max_duration ++ (lit ", but was " ++ show (truncate_ms duration))))))
          []

log_if_given : ℕ → Text → Action Unit
log_if_given h msg = if is_empty msg then pure tt else log_success h msg

-- `CheckRequestSucceeds`
unfoldable pub check_request_succeeds :
    ℕ → Option Response → Text → Text → FailureFunc → Action Unit
unfolding log_if_given
check_request_succeeds h none success_msg failure_msg failure =
    failure h failure_msg (lit "expected request to succeed, but it failed")
check_request_succeeds h (some resp) success_msg failure_msg failure = log_if_given h success_msg

-- `CheckRequestFails`
unfoldable pub check_request_fails :
    ℕ → Option Response → Text → Text → Text → FailureFunc → Action Unit
unfolding log_if_given
check_request_fails h none body success_msg failure_msg failure = log_if_given h success_msg
check_request_fails h (some resp) body success_msg failure_msg failure = do
  detail ←
      detail_unless_retried h
        (lit "expected request to fail, but it succeeded with the following status: "
          ++ resp.status)
        (full_response body)
  failure h failure_msg detail

-- Whether one of the expected messages stands in the error.
unfoldable pub any_message : Text → List Text → Bool
any_message err [] = false
any_message err (str ∷ rest) = contains err str || any_message err rest

-- `CheckRequestFailureMessagesAny`
unfoldable pub check_request_failure_messages_any :
    ℕ → Option RequestError → List Text → Text → Text → FailureFunc → Action Unit
unfolding log_if_given any_message
check_request_failure_messages_any h none expected success_msg failure_msg failure =
    failure h (lit "expected request error, but it is nil") []
check_request_failure_messages_any h (some err) expected success_msg failure_msg failure =
    if any_message err.message expected
    then log_if_given h success_msg
    else failure h failure_msg (
        lit "\nexpected any of error messages:'"
        ++ (sprint_list expected ++ (lit "'\nactual error message:'" ++ (err.message ++ lit "'"))))

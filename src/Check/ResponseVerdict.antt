-- ===== src/Check/ResponseVerdict.antt =====
-- pkg/util/check/common/http_response.go on the helper of a retry: what each check says of the response,
-- and what becomes of it if there is none.
use maistra_test_tool.World.{World, Outcome, returned, ◌>>=◌, Action}
use maistra_test_tool.Check.Common.{FailureFunc, assert_failure, require_failure}
use maistra_test_tool.Check.Response.{
  Response, RequestError, require_non_nil_response, check_response_contains, check_response_status,
  check_response_does_not_contain, check_duration_in_range,
}
use maistra_test_tool.Check.Leaves.{
  own_mark, Leaves-detail, log_success-Leaves, assert_failure-Leaves, require_failure-Leaves,
  fatal-Leaves,
}
use maistra_test_tool.Check.Verdict.{Verdict, FailsWith, attempt_over, passed, refused, absent}
use maistra_test_tool.Check.Assert
use maistra_test_tool.Check.Require
use maistra_test_tool.Prelude.{
  ℕ, ◌≡◌, Bool, Bool-cases, inl, inr, Option, some, [], arith, refl, true, none,
}
use maistra_test_tool.Prelude.Int.{ℤ, eqb_ℤ, eq_of_parts}
use maistra_test_tool.Text.{Text, contains, lit}
use maistra_test_tool.Text.Search.{Occurs, contains_iff}

module _ (r : ℕ) (w : World) (b : Bool) (h : own_mark (w.helpers r) ≡ some b) where
  module _ (failure : FailureFunc) {o : Outcome Unit} (fails : FailsWith failure o)
      (resp : Response) (body : Text) where
    contains-Verdict :
        (str : Text)
        → Verdict r w o (Occurs str body) (check_response_contains r (some resp) body str failure)
    unfolding check_response_contains require_non_nil_response ◌>>=◌
    contains-Verdict str = elim (Bool-cases (contains body str)) [
      | inl here ↦ rw here (passed r w b h ((contains_iff body str).0 here) (log_success-Leaves _))
      | inr gone ↦ rw gone (
          refused r w b h (absent body str gone)
            (Leaves-detail _ _ _ (λ detail. fails r detail [])))
    ]

    status-Verdict :
        (expected : ℤ)
        → Verdict r w o
            (resp.status_code ≡ expected)
            (check_response_status r (some resp) body expected failure)
    unfolding check_response_status require_non_nil_response ◌>>=◌
    status-Verdict expected = elim (Bool-cases (eqb_ℤ resp.status_code expected)) [
      | inl equal ↦ rw equal (
          passed r w b h (eq_of_parts resp.status_code expected (ground arith))
            (log_success-Leaves _))
      | inr other ↦
          rw other
            (refused r w b h (ground arith) (Leaves-detail _ _ _ (λ detail. fails r detail [])))
    ]

  -- On the helper of a retry and for a request that was answered: `ResponseContains` of assert and of
  -- require passes, leaving the mark of the helper as it was, exactly if the text stands in the body, and
  -- `ResponseStatus` exactly if the status is the expected one; otherwise the check marks the helper as
  -- failed, and the assertion returns while the requirement ends the attempt.
  pub response-Verdict :
      (resp : Response) (body str : Text) (expected : ℤ) (err : Option RequestError) (duration : ℤ)
      → Verdict r w
          (returned tt)
          (Occurs str body)
          (Assert.response_contains str r (some resp) body err duration)
        × Verdict r w attempt_over
            (Occurs str body)
            (Require.response_contains str r (some resp) body err duration)
        × Verdict r w
            (returned tt)
            (resp.status_code ≡ expected)
            (Assert.response_status expected r (some resp) body err duration)
        × Verdict r w attempt_over
            (resp.status_code ≡ expected)
            (Require.response_status expected r (some resp) body err duration)
  unfolding Assert.response_contains Require.response_contains Assert.response_status
      Require.response_status
  response-Verdict resp body str expected err duration = (
    contains-Verdict assert_failure (λ r'. assert_failure-Leaves {r = r'}) resp body str,
    contains-Verdict require_failure (λ r'. require_failure-Leaves {r = r'}) resp body str,
    status-Verdict assert_failure (λ r'. assert_failure-Leaves {r = r'}) resp body expected,
    status-Verdict require_failure (λ r'. require_failure-Leaves {r = r'}) resp body expected,
  )

  no_response :
      (k : Response → Action Unit)
      → (((require_non_nil_response r none >>= k) w).0 ≡ attempt_over)
        × (own_mark (((require_non_nil_response r none >>= k) w).1.helpers r) ≡ some true)
  unfolding require_non_nil_response ◌>>=◌
  no_response k =
      let (ends, marked) =
        (fatal-Leaves (lit "response is nil; the HTTP request must have failed")).at w b h in
      rw ends (refl, marked)

  -- The attempt is over, and its helper is marked as failed.
  abbrev pub IsLost : Action Unit → Type 0
  IsLost m = ((m w).0 ≡ attempt_over) × (own_mark ((m w).1.helpers r) ≡ some true)

  -- On the helper of a retry and for a request that got no response: the assertions on the contents, the
  -- status and the duration of the response end the attempt and mark its helper as failed, as a
  -- requirement does.
  pub no_response-IsLost :
      (body str : Text) (expected low high : ℤ) (err : Option RequestError) (duration : ℤ)
      → IsLost (Assert.response_contains str r none body err duration)
        × IsLost (Assert.response_does_not_contain str r none body err duration)
        × IsLost (Assert.response_status expected r none body err duration)
        × IsLost (Assert.duration_in_range low high r none body err duration)
  unfolding Assert.response_contains Assert.response_does_not_contain Assert.response_status
      Assert.duration_in_range check_response_contains check_response_does_not_contain
      check_response_status check_duration_in_range
  no_response-IsLost body str expected low high err duration =
      (no_response _, no_response _, no_response _, no_response _)

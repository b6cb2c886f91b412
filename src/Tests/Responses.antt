-- ===== src/Tests/Responses.antt =====
-- Checks of responses at concrete inputs.
use maistra_test_tool.World.{returned}
use maistra_test_tool.Check.Response.{Response}
use maistra_test_tool.Check.Assert
use maistra_test_tool.Check.Require
use maistra_test_tool.Check.Verdict.{Verdict, attempt_over}
use maistra_test_tool.Check.ResponseVerdict.{response-Verdict, no_response-IsLost, IsLost}
use maistra_test_tool.Tests.Data.{online}
use maistra_test_tool.Prelude.{◌≡◌, refl, false, none, some, []}
use maistra_test_tool.Prelude.Int.{pos}
use maistra_test_tool.Text.{lit}
use maistra_test_tool.Text.Search.{Occurs}

abbrev forbidden : Response
forbidden = record { status_code = pos 403; status = lit "403 Forbidden" }

response-Verdict_example :
    Verdict 1 online (returned tt) (Occurs (lit "RBAC") (lit "RBAC: access denied")) (
      Assert.response_contains
        (lit "RBAC")
        1
        (some forbidden)
        (lit "RBAC: access denied")
        none
        (pos 9))
    × Verdict 1 online attempt_over (Occurs (lit "RBAC") (lit "RBAC: access denied")) (
        Require.response_contains
          (lit "RBAC")
          1
          (some forbidden)
          (lit "RBAC: access denied")
          none
          (pos 9))
    × Verdict 1 online (returned tt) (pos 403 ≡ pos 200) (
        Assert.response_status
          (pos 200)
          1
          (some forbidden)
          (lit "RBAC: access denied")
          none
          (pos 9))
    × Verdict 1 online attempt_over (pos 403 ≡ pos 200) (
        Require.response_status
          (pos 200)
          1
          (some forbidden)
          (lit "RBAC: access denied")
          none
          (pos 9))
response-Verdict_example =
    response-Verdict 1 online false refl forbidden (lit "RBAC: access denied") (lit "RBAC")
      (pos 200) none (pos 9)

no_response-IsLost_example :
    IsLost 1 online false refl (Assert.response_contains (lit "a") 1 none [] none (pos 9))
    × IsLost 1 online false refl (Assert.response_does_not_contain (lit "a") 1 none [] none (pos 9))
    × IsLost 1 online false refl (Assert.response_status (pos 200) 1 none [] none (pos 9))
    × IsLost 1 online false refl (Assert.duration_in_range (pos 1) (pos 2) 1 none [] none (pos 9))
no_response-IsLost_example =
    no_response-IsLost 1 online false refl [] (lit "a") (pos 200) (pos 1) (pos 2) none (pos 9)

-- ===== src/Tests/Commands.antt =====
-- Commands and their answers at concrete inputs.
use maistra_test_tool.World.{World, returned}
use maistra_test_tool.Helper.Isolation.{failures}
use maistra_test_tool.Retry.{until_success_with_options}
use maistra_test_tool.Retry.Options.{RetryOptions, second}
use maistra_test_tool.Retry.Runs.{Failing}
use maistra_test_tool.Check.Assert
use maistra_test_tool.Check.Require
use maistra_test_tool.Check.Common.{CheckFunc}
use maistra_test_tool.Check.Isolation.{output_contains_any-Isolated, require_contains_any-Isolated}
use maistra_test_tool.Shell.{after_command}
use maistra_test_tool.Shell.Isolation.{command, retried_command-failures}
use maistra_test_tool.Oc.Kubeconfig.{default_oc}
use maistra_test_tool.Oc.Queries.{get_ocp_version}
use maistra_test_tool.Oc.Queries.ServerVersion.{get_ocp_version-found}
use maistra_test_tool.Tests.Data.{online, world}
use maistra_test_tool.Prelude.{◌≡◌, ◌⊎◌, refl, true, none, List, [], ◌∷◌, arith}
use maistra_test_tool.Prelude.Int.{pos}
use maistra_test_tool.Text.{lit, join, trim_space, contains}

abbrev four_attempts : RetryOptions
four_attempts = record {
  max_attempts = pos 4;
  delay_between_attempts = second;
  log_attempts = true;
}

abbrev two_checks : List CheckFunc
two_checks =
    Assert.output_contains_any (lit "ok" ∷ []) [] []
    ∷ Require.output_contains_any (lit "fine" ∷ []) [] []
    ∷ []

retried_command-failures_example :
    (failures
        (until_success_with_options 0 four_attempts (command (lit "true") two_checks) online).1
      ≡ failures online)
    ⊎ ((w1 : World) × Failing 0 four_attempts
          (command (lit "true") two_checks)
          online.clock
          online
          3
          w1)
retried_command-failures_example =
    retried_command-failures 0 four_attempts (lit "true") two_checks 3 online refl (
      output_contains_any-Isolated (lit "ok" ∷ []) [] [],
      (require_contains_any-Isolated (lit "fine" ∷ []) [] [], tt),
    )

abbrev answered : World
answered = world (lit "Client: 1\nServer Version: 4.10\nK: 2") none

get_ocp_version-found_example :
    get_ocp_version default_oc 0 answered
    ≡ (returned (trim_space (b' ' ∷ lit "4.10")), after_command (lit "oc version") none [] answered)
unfolding lit contains
get_ocp_version-found_example =
    get_ocp_version-found 0 (lit "Client: 1" ∷ []) (lit "4.10") (lit "K: 2" ∷ []) answered refl
      (unfold join in refl) (ground arith) (refl, tt) (ground arith)

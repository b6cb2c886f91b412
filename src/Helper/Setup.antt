-- ===== src/Helper/Setup.antt =====
-- pkg/util/test/test_helper_setup.go: the helper of the setup functions of a suite. It logs through
-- logrus, and most of its methods panic.
use maistra_test_tool.World.{Action, string, panic, modify}
use maistra_test_tool.Prelude.{[], ◌∷◌, ◌++◌}
use maistra_test_tool.Text.{Text, lit}

-- `log.Info`: the formatting of the line is the logger's.
unfoldable pub setup_log : Text → Action Unit
setup_log msg = modify λ w. record w { setup_log = w.setup_log ++ msg ∷ [] }

unfoldable pub not_applicable : {A : Type 0} → Action A
not_applicable = panic (string (lit "not applicable"))

-- `setupTestHelper.Fail` and `FailNow`
unfoldable pub setup_fail : Action Unit
setup_fail = panic (string (lit "Fail"))

unfoldable pub setup_fail_now : Action Unit
setup_fail_now = panic (string (lit "FailNow"))

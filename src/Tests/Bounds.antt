-- ===== src/Tests/Bounds.antt =====
-- The time and the commands of retries and waits at concrete inputs.
use maistra_test_tool.World.{Action, ◌>>=◌}
use maistra_test_tool.Retry.{until_success_with_options}
use maistra_test_tool.Retry.Options.{second}
use maistra_test_tool.Retry.Spending.{until_success-bounds}
use maistra_test_tool.Oc.Kubeconfig.{default_oc}
use maistra_test_tool.Oc.Waiting.{wait_for}
use maistra_test_tool.Oc.Waiting.Bounds.{RanWaiting, wait_for-bounds}
use maistra_test_tool.Retry.{sleep}
use maistra_test_tool.Tests.Data.{online, offline}
use maistra_test_tool.Tests.Healing.{five_attempts}
use maistra_test_tool.Prelude.{ℕ, ◌+◌, ◌*◌, ◌≤◌, refl, arith, length}
use maistra_test_tool.Text.{lit}
use maistra_test_tool.Prelude.Int.{pos_part, pos}

-- An operation that only waits.
abbrev wait_a_little : ℕ → Action Unit
wait_a_little h = sleep (pos 3)

until_success-bounds_example :
    let w' = (until_success_with_options 0 five_attempts wait_a_little online).1 in
    (w'.clock ≤ online.clock + (5 * 3 + 4 * pos_part second))
    × (length w'.trace ≤ length online.trace + 5 * 0)
unfolding sleep ◌>>=◌
until_success-bounds_example =
    until_success-bounds 0 five_attempts wait_a_little 4 3 0 refl (λ t w. omega arith)
      (λ t w. omega arith) online

wait_for-bounds_example :
    RanWaiting default_oc 0
      (lit "bookinfo")
      (lit "pod")
      (lit "ratings")
      (lit "condition=Ready")
      offline
      (wait_for default_oc 0
        (lit "bookinfo")
        (lit "pod")
        (lit "ratings")
        (lit "condition=Ready")
        offline).1
wait_for-bounds_example =
    wait_for-bounds default_oc 0 (lit "bookinfo") (lit "pod") (lit "ratings")
      (lit "condition=Ready") offline

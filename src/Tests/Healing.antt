-- ===== src/Tests/Healing.antt =====
-- A command that fails twice and then succeeds, retried.
use maistra_test_tool.World.{World, Reply, Invocation, returned}
use maistra_test_tool.Helper.Isolation.{failures}
use maistra_test_tool.Retry.{until_success_with_options}
use maistra_test_tool.Retry.Options.{RetryOptions, second}
use maistra_test_tool.Shell.Isolation.{command}
use maistra_test_tool.Shell.Healing.Asked.{Asked}
use maistra_test_tool.Shell.Healing.Heals.{HealsAfter, retried_command-heals}
use maistra_test_tool.Tests.Data.{online}
use maistra_test_tool.Prelude.{
  ℕ, ◌≤◌, ◌≡◌, refl, arith, true, none, some, List, length, ltb, if◌then◌else◌, [], append-nil,
}
use maistra_test_tool.Prelude.Int.{pos}
use maistra_test_tool.Text.{lit}

abbrev third_time : List Invocation → Reply
third_time asked = record {
  output = lit "ready";
  error = if ltb (length asked) 3 then some (lit "exit status 1") else none;
  took = 4;
}

abbrev starting : World
starting = record online { outside = record online.outside { shell = third_time } }

abbrev pub five_attempts : RetryOptions
five_attempts = record {
  max_attempts = pos 5;
  delay_between_attempts = second;
  log_attempts = true;
}

starting-HealsAfter : HealsAfter 2 (lit "oc get pods") starting
starting-HealsAfter newer e = ground (arith, append-nil newer, e)

retried_command-heals_example :
    let (o, w') =
      until_success_with_options 0 five_attempts (command (lit "oc get pods") []) starting in
    (o ≡ returned tt)
    × (failures w' ≡ failures starting)
    × ((n : ℕ) × (n ≤ 3) × Asked starting n w')
retried_command-heals_example =
    retried_command-heals 0 five_attempts (lit "oc get pods") 4 2 starting refl (omega arith)
      starting-HealsAfter

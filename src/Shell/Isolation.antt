-- ===== src/Shell/Isolation.antt =====
-- pkg/util/shell/shell_helper.go: commands with checks, as the operations of a retry.
use maistra_test_tool.World.{World, Action, pure, ◌>>◌, for_each}
use maistra_test_tool.World.Keeps.{Keeps, Keeps-pure, Keeps-bind}
use maistra_test_tool.Helper.Isolation.{failures, Isolated, isolated_rules}
use maistra_test_tool.Check.Common.{CheckFunc}
use maistra_test_tool.Check.Isolation.{IsIsolatedCheck}
use maistra_test_tool.Retry.{until_success_with_options}
use maistra_test_tool.Retry.Options.{RetryOptions}
use maistra_test_tool.Retry.Runs.{Failing}
use maistra_test_tool.Retry.Isolation.{until_success-failures}
use maistra_test_tool.Shell.{
  execute, execute_with_env, execute_with_env_and_input, exec_shell_command, check_error,
}
use maistra_test_tool.Prelude.{ℕ, suc, ◌≡◌, ◌⊎◌, Bool, Option, none, some, List, [], ◌∷◌, All}
use maistra_test_tool.Prelude.Int.{pos}
use maistra_test_tool.Text.{Text}

module _ {r : ℕ} {marks : ℕ → Bool} where
  command-Isolated :
      (cmd : Text) (env : Option (List Text)) (input : Text)
      → Keeps (Isolated r marks) (exec_shell_command cmd env input)
  unfolding exec_shell_command
  command-Isolated cmd env input = record {
    at = λ w h. record { object = h.object; stands = h.stands; same = h.same };
  }

  check_error-Isolated :
      (cmd output : Text) (err : Option Text)
      → Keeps (Isolated r marks) (check_error r cmd output err)
  unfolding check_error
  check_error-Isolated cmd output none = search isolated_rules
  check_error-Isolated cmd output (some err) = search isolated_rules

  checks-Isolated :
      (checks : List CheckFunc) (output : Text)
      → All IsIsolatedCheck checks
      → Keeps (Isolated r marks) (for_each checks (λ check. check r output))
  unfolding for_each
  checks-Isolated [] output h = search isolated_rules
  checks-Isolated (check ∷ checks) output h =
      Keeps-bind _ _ (h.0 r marks output) (λ _. checks-Isolated checks output h.1)

  execute-Isolated :
      (cmd : Text) (checks : List CheckFunc)
      → All IsIsolatedCheck checks
      → Keeps (Isolated r marks) (execute r cmd checks)
  unfolding execute execute_with_env execute_with_env_and_input
  execute-Isolated cmd checks h = Keeps-bind _ _ (command-Isolated _ _ _) (λ reply.
      Keeps-bind _ _ (check_error-Isolated _ _ _)
        (λ _. Keeps-bind _ _ (checks-Isolated checks _ h) (λ _. Keeps-pure _)))

abbrev pub command : Text → List CheckFunc → ℕ → Action Unit
command cmd checks t = do execute t cmd checks; pure tt

-- A command whose checks report only through the helper that they are given, retried with `m + 1` attempts: the
-- failure mark of every test is as before, however the retry ends, unless its first `m` attempts all failed.
pub retried_command-failures :
    (h : ℕ) (options : RetryOptions) (cmd : Text) (checks : List CheckFunc) (m : ℕ) (w : World)
    → options.max_attempts ≡ pos (suc m)
    → All IsIsolatedCheck checks
    → (failures (until_success_with_options h options (command cmd checks) w).1 ≡ failures w)
      ⊎ ((w1 : World) × Failing h options (command cmd checks) w.clock w m w1)
retried_command-failures h options cmd checks m w positive isolated =
    until_success-failures h options (command cmd checks) m w positive
      (λ r marks. Keeps-bind _ _ (execute-Isolated cmd checks isolated) (λ _. Keeps-pure tt))

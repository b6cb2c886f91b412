-- ===== src/Shell/Onward.antt =====
-- pkg/util/shell/shell_helper.go: a command adds itself to those that were run, and its time to the clock.
use maistra_test_tool.World.{World, for_each}
use maistra_test_tool.World.Keeps.{Keeps, Keeps-bind, Keeps-pure}
use maistra_test_tool.World.Onward.{After}
use maistra_test_tool.Helper.Onward.{onward_rules}
use maistra_test_tool.Check.Common.{CheckFunc}
use maistra_test_tool.Check.Onward.{IsOnwardCheck}
use maistra_test_tool.Shell.{
  execute, executef, execute_with_input, execute_with_env, execute_with_env_and_input,
  exec_shell_command, check_error, invocation, after_command,
}
use maistra_test_tool.Prelude.{ℕ, ap, Option, none, some, List, [], ◌∷◌, All, arith}
use maistra_test_tool.Text.{Text, lit}

module _ {w0 : World} where
  after_command-After :
      (cmd : Text) (env : Option (List Text)) (input : Text) (w : World)
      → After w0 w
      → After w0 (after_command cmd env input w)
  unfolding after_command invocation
  after_command-After cmd env input w a = record {
    outside = a.outside;
    env = a.env;
    clock = let c = a.clock in omega arith;
    newer = invocation cmd env input w ∷ a.newer;
    trace = ap (λ t. invocation cmd env input w ∷ t) a.trace;
    under = (ap (λ e. e (lit "KUBECONFIG")) a.env, a.under);
  }

  command-Onward :
      (cmd : Text) (env : Option (List Text)) (input : Text)
      → Keeps (After w0) (exec_shell_command cmd env input)
  unfolding exec_shell_command
  command-Onward cmd env input = record { at = λ w a. after_command-After cmd env input w a }

  check_error-Onward :
      (h : ℕ) (cmd output : Text) (err : Option Text)
      → Keeps (After w0) (check_error h cmd output err)
  unfolding check_error
  check_error-Onward h cmd output none = search onward_rules
  check_error-Onward h cmd output (some err) = search onward_rules

  checks-Onward :
      (h : ℕ) (checks : List CheckFunc) (output : Text)
      → All (IsOnwardCheck w0) checks
      → Keeps (After w0) (for_each checks (λ check. check h output))
  unfolding for_each
  checks-Onward h [] output k = search onward_rules
  checks-Onward h (check ∷ checks) output k =
      Keeps-bind _ _ (k.0 h output) (λ _. checks-Onward h checks output k.1)

  pub full_command-Onward :
      (h : ℕ) (env : Option (List Text)) (cmd input : Text) (checks : List CheckFunc)
      → All (IsOnwardCheck w0) checks
      → Keeps (After w0) (execute_with_env_and_input h env cmd input checks)
  unfolding execute_with_env_and_input
  full_command-Onward h env cmd input checks k = Keeps-bind _ _ (command-Onward _ _ _) (λ reply.
      Keeps-bind _ _ (check_error-Onward _ _ _ _)
        (λ _. Keeps-bind _ _ (checks-Onward h checks _ k) (λ _. Keeps-pure _)))

  pub execute-Onward :
      (h : ℕ) (cmd : Text) (checks : List CheckFunc)
      → All (IsOnwardCheck w0) checks
      → Keeps (After w0) (execute h cmd checks)
  unfolding execute execute_with_env
  execute-Onward h cmd checks k = full_command-Onward h none cmd [] checks k

  pub executef-Onward : (h : ℕ) (cmd : Text) → Keeps (After w0) (executef h cmd)
  unfolding executef
  executef-Onward h cmd = execute-Onward h cmd [] tt

  pub execute_with_input-Onward :
      (h : ℕ) (cmd input : Text) (checks : List CheckFunc)
      → All (IsOnwardCheck w0) checks
      → Keeps (After w0) (execute_with_input h cmd input checks)
  unfolding execute_with_input
  execute_with_input-Onward h cmd input checks k = full_command-Onward h none cmd input checks k

-- ===== src/Shell/Spending.antt =====
-- pkg/util/shell/shell_helper.go: a command is one command, whatever its checks report.
use maistra_test_tool.World.{World, for_each}
use maistra_test_tool.World.Keeps.{Keeps, Keeps-bind, keeps_rules}
use maistra_test_tool.World.Onward.{Same}
use maistra_test_tool.World.Spending.{
  commands, Spends, Spends-bind, Spends-more, Spends-pure, Still-Spends,
}
use maistra_test_tool.Check.Common.{CheckFunc}
use maistra_test_tool.Shell.{
  execute, executef, execute_with_env, execute_with_env_and_input, exec_shell_command, check_error,
  after_command,
}
use maistra_test_tool.Prelude.{ℕ, Option, none, some, List, [], ◌∷◌, All, arith}
use maistra_test_tool.Text.{Text}
use maistra_test_tool.Helper.Still.{still_rules}

-- Whatever the output, the check runs no command.
abbrev pub IsStillCheck : CheckFunc → Type 0
IsStillCheck check = (w : World) (h : ℕ) (output : Text) → Keeps (Same w) (check h output)

pub check_error-Still :
    {w0 : World} (h : ℕ) (cmd output : Text) (err : Option Text)
    → Keeps (Same w0) (check_error h cmd output err)
unfolding check_error
check_error-Still h cmd output none = search keeps_rules
check_error-Still h cmd output (some err) = search still_rules

pub checks-Still :
    {w0 : World} (h : ℕ) (checks : List CheckFunc) (output : Text)
    → All IsStillCheck checks
    → Keeps (Same w0) (for_each checks (λ check. check h output))
unfolding for_each
checks-Still h [] output k = search keeps_rules
checks-Still {w0} h (check ∷ checks) output k =
    Keeps-bind _ _ (k.0 w0 h output) (λ _. checks-Still h checks output k.1)

command-Spends :
    (cmd : Text) (env : Option (List Text)) (input : Text)
    → Spends commands 1 (exec_shell_command cmd env input)
unfolding exec_shell_command after_command
command-Spends cmd env input = record { at = λ w. omega arith }

full_command-Spends :
    (h : ℕ) (env : Option (List Text)) (cmd input : Text) (checks : List CheckFunc)
    → All IsStillCheck checks
    → Spends commands 1 (execute_with_env_and_input h env cmd input checks)
unfolding execute_with_env_and_input
full_command-Spends h env cmd input checks k = Spends-more _ (omega arith) (
    Spends-bind _ _ (command-Spends cmd env input) (λ reply.
      Spends-bind _ _ (Still-Spends _ λ w. check_error-Still h cmd _ _) (λ _.
        Spends-bind _ _ (Still-Spends _ λ w. checks-Still h checks _ k) (λ _. Spends-pure _))))

pub execute-Spends :
    (h : ℕ) (cmd : Text) (checks : List CheckFunc)
    → All IsStillCheck checks
    → Spends commands 1 (execute h cmd checks)
unfolding execute execute_with_env
execute-Spends h cmd checks k = full_command-Spends h none cmd [] checks k

pub executef-Spends : (h : ℕ) (cmd : Text) → Spends commands 1 (executef h cmd)
unfolding executef
executef-Spends h cmd = execute-Spends h cmd [] tt

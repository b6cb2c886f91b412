-- ===== src/Shell.antt =====
-- pkg/util/shell: commands are run by `sh -c`, and a command that fails is fatal.
pub mod Outcomes
pub mod Isolation
pub mod Onward
pub mod Spending
pub mod Healing
use maistra_test_tool.World.{
  World, Action, Invocation, Reply, returned, pure, for_each, ◌>>=◌, ◌>>◌,
}
use maistra_test_tool.Helper.{fatal}
use maistra_test_tool.Util.{append_new_line}
use maistra_test_tool.Check.Common.{CheckFunc}
use maistra_test_tool.Prelude.{ℕ, ◌+◌, Option, none, some, List, [], ◌∷◌, ◌++◌}
use maistra_test_tool.Text.{Text, lit}

-- What `sh` is given.
unfoldable pub invocation : Text → Option (List Text) → Text → World → Invocation
invocation command env input w = record {
  command = command;
  input = input;
  env = env;
  kubeconfig = w.env (lit "KUBECONFIG");
}

-- The shell answers by all invocations so far.
unfoldable pub reply_to : Text → Option (List Text) → Text → World → Reply
unfolding invocation
reply_to command env input w = w.outside.shell (invocation command env input w ∷ w.trace)

unfoldable pub after_command : Text → Option (List Text) → Text → World → World
unfolding reply_to
after_command command env input w = record w {
  trace = invocation command env input w ∷ w.trace;
  clock = w.clock + (reply_to command env input w).took;
}

-- `execShellCommand`
unfoldable pub exec_shell_command : Text → Option (List Text) → Text → Action Reply
unfolding after_command
exec_shell_command command env input w =
    (returned (reply_to command env input w), after_command command env input w)

unfoldable pub command_failed : Text → Text → Text → Text
command_failed cmd output err =
    lit "Command failed: "
    ++ (cmd ++ (lit "\n" ++ (append_new_line output ++ (lit "error: " ++ err))))

unfoldable pub check_error : ℕ → Text → Text → Option Text → Action Unit
unfolding command_failed
check_error h cmd output none = pure tt
check_error h cmd output (some err) = fatal h (command_failed cmd output err)

-- `ExecuteWithEnvAndInput`
unfoldable pub execute_with_env_and_input :
    ℕ → Option (List Text) → Text → Text → List CheckFunc → Action Text
unfolding check_error
execute_with_env_and_input h env cmd input checks = do
  reply ← exec_shell_command cmd env input
  check_error h cmd reply.output reply.error
  for_each checks (λ check. check h reply.output)
  pure reply.output

unfoldable pub execute_with_env : ℕ → Option (List Text) → Text → List CheckFunc → Action Text
execute_with_env h env cmd checks = execute_with_env_and_input h env cmd [] checks

unfoldable pub execute_with_input : ℕ → Text → Text → List CheckFunc → Action Text
execute_with_input h cmd input checks = execute_with_env_and_input h none cmd input checks

unfoldable pub execute : ℕ → Text → List CheckFunc → Action Text
unfolding execute_with_env
execute h cmd checks = execute_with_env h none cmd checks

-- `Executef`, with the command formatted
unfoldable pub executef : ℕ → Text → Action Text
unfolding execute
executef h cmd = execute h cmd []

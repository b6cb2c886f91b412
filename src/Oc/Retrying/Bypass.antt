-- ===== src/Oc/Retrying/Bypass.antt =====
-- pkg/util/oc/oc_struct.go: `ApplyString` called with the helper of a test while every command fails.
use maistra_test_tool.World.{World, Action, Outcome, Invocation, TestHelper, plain, exited, ◌>>=◌}
use maistra_test_tool.World.Panics.{with_defer, recover}
use maistra_test_tool.World.Testing.{t_log, t_fail_now}
use maistra_test_tool.Helper.{
  fatal, log, fail_now, base_log, allocate, get_t, current_step, t_of, step_of,
}
use maistra_test_tool.Helper.Isolation.{failures}
use maistra_test_tool.Retry.Attempt.{
  attempt, attempt_internal, new_retry_test_helper, run_on, after_attempt,
}
use maistra_test_tool.Shell.{
  execute_with_input, execute_with_env_and_input, exec_shell_command, reply_to, check_error,
  after_command, invocation, command_failed,
}
use maistra_test_tool.Oc.Kubeconfig.{Oc, with_kubeconfig, is_valid_value, set_env, set_var}
use maistra_test_tool.Oc.Retrying.{apply_string, retry_function, retry_rounds, one_attempt}
use maistra_test_tool.Prelude.{
  ℕ, ◌+◌, ◌≡◌, refl, true, some, List, [], length, none, ◌∷◌, arith, ◌∙◌, Option, ◌<◌, inl, inr,
  Bool-cases, sym,
}
use maistra_test_tool.Text.{Text, is_empty, count, lit}
use maistra_test_tool.Prelude.Int.{pos}

-- The goroutine is over, `n` commands have been run, and the test is marked as failed.
abbrev pub IsOver : {A : Type 0} → TestHelper → ℕ → Outcome A × World → Type 0
IsOver p n (o, w') = (o ≡ exited) × (length w'.trace ≡ n) × (failures w' p.t ≡ true)

-- The cluster cannot be reached: every command fails.
abbrev pub IsDown : World → Type 0
IsDown w = (t : List Invocation) → (err : Text) × ((w.outside.shell t).error ≡ some err)

module _ (h : ℕ) (p : TestHelper) where
  IsOver-bind :
      {A B : Type 0} (m : Action A) (k : A → Action B) (n : ℕ) (w : World)
      → IsOver p n (m w)
      → IsOver p n ((m >>= k) w)
  unfolding ◌>>=◌
  IsOver-bind m k n w over = rw over.0 (refl, over.1, over.2)

  fatal-IsOver :
      (msg : Text) (w : World) → w.helpers h ≡ plain p → IsOver p (length w.trace) (fatal h msg w)
  unfolding fatal ◌>>=◌ log fail_now base_log t_log t_fail_now
  fatal-IsOver msg w e = ground arith

  check_error-IsOver :
      (cmd output err : Text) (k : Unit → Action Text) (n : ℕ) (w : World)
      → w.helpers h ≡ plain p
      → length w.trace ≡ n
      → IsOver p n ((check_error h cmd output (some err) >>= k) w)
  unfolding check_error
  check_error-IsOver cmd output err k n w e count =
      IsOver-bind (fatal h (command_failed cmd output err)) k n w (
        let over = fatal-IsOver (command_failed cmd output err) w e in
        (over.0, over.1 ∙ count, over.2))

  execute-IsOver :
      (cmd input : Text) (w : World)
      → w.helpers h ≡ plain p
      → IsDown w
      → IsOver p (length w.trace + 1) (execute_with_input h cmd input [] w)
  unfolding execute_with_input execute_with_env_and_input exec_shell_command after_command ◌>>=◌
      reply_to
  execute-IsOver cmd input w e down =
      let (err, failure) = down (invocation cmd none input w ∷ w.trace) in
      rw failure (
        check_error-IsOver cmd _ err _ (length w.trace + 1) (after_command cmd none input w) e
          (omega arith))

  -- The same under the kubeconfig of the `Oc`.
  under_kubeconfig :
      {A : Type 0} (o : Oc) (t : ℕ) (m : Action A) (n : ℕ) (w : World)
      → is_valid_value o.kubeconfig ≡ true
      → ((env : Text → Option Text) → IsOver p n (m (record w { env = env })))
      → IsOver p n (with_kubeconfig o t m w)
  unfolding with_kubeconfig set_env ◌>>=◌
  under_kubeconfig o t m n w valid over = elim (Bool-cases (is_empty o.kubeconfig)) [
    | inl e ↦ rw e (over w.env)
    | inr e ↦
        rw e (rw valid (IsOver-bind m _ n _ (over (set_var w.env (lit "KUBECONFIG") o.kubeconfig))))
  ]

  attempt-IsOver :
      (f : ℕ → Action Unit) (n : ℕ) (w : World)
      → ((w' : World) (t : ℕ)
          → w'.outside ≡ w.outside
          → w'.trace ≡ w.trace
          → w'.helpers h ≡ w.helpers h
          → IsOver p n (f t w'))
      → h < w.next_helper
      → IsOver p n (attempt h f w)
  unfolding attempt attempt_internal ◌>>=◌ get_t current_step new_retry_test_helper allocate run_on
      with_defer after_attempt recover
  attempt-IsOver f n w over old =
      let w1 =
        (new_retry_test_helper (t_of (w.helpers h)) (step_of (w.helpers h)) (pos 0) (pos 1) w).1 in
      let ended = over w1 w.next_helper refl refl (ground arith) in
      rw ended.0 (refl, ended.1, ended.2)

-- `ApplyString` from the helper of a test, when the cluster cannot be reached and the kubeconfig is a
-- valid value: the command is run exactly once, whatever the number of attempts, and then the
-- goroutine of the test is over and the test is marked as failed.
pub apply_string-not_retried :
    (o : Oc) (h : ℕ) (p : TestHelper) (ns : Text) (yamls : List Text) (w : World)
    → w.helpers h ≡ plain p
    → h < w.next_helper
    → is_valid_value o.kubeconfig ≡ true
    → IsDown w
    → IsOver p (length w.trace + 1) (apply_string o h ns yamls w)
unfolding apply_string retry_function retry_rounds one_attempt
apply_string-not_retried o h p ns yamls w e old valid down = IsOver-bind h p _ _ _ w (
    attempt-IsOver h p _ _ w
      (λ w' t same_outside same_trace same_helper. under_kubeconfig h p o t _ _ w' valid (λ env.
        IsOver-bind h p _ _ _ _ (
          rw (sym same_trace) (
            execute-IsOver h p _ _ (record w' { env = env }) (same_helper ∙ e)
              (rw same_outside down)))))
      old)

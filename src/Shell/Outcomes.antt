-- ===== src/Shell/Outcomes.antt =====
-- pkg/util/shell/shell_helper.go: how a call of `Execute` ends, and what a fatal message does to its
-- caller.
use maistra_test_tool.World.{
  World, Action, Outcome, Helper, plain, retry, flaky, setup, returned, ◌>>=◌, continue, for_each,
  panicked, exited, crashed,
}
use maistra_test_tool.World.Testing.{t_fail_now}
use maistra_test_tool.Helper.{fatal, fail_now, load, fail_now_of, fail}
use maistra_test_tool.Helper.Setup.{setup_fail_now}
use maistra_test_tool.Shell.{
  execute, execute_with_env, execute_with_env_and_input, exec_shell_command, invocation, reply_to,
  after_command, check_error, CheckFunc,
}
use maistra_test_tool.Prelude.{ℕ, ◌≡◌, refl, none, some, [], ◌∷◌, ◌+◌, List}
use maistra_test_tool.Text.{Text}

-- The call does not go on after this.
abbrev pub IsGone : {A : Type 0} → Outcome A → Type 0
IsGone (returned a) = ⊥
IsGone (panicked p) = Unit
IsGone exited = Unit
IsGone (crashed p) = Unit

abbrev pub NeverReturns : {A : Type 0} → Action A → Type 0
NeverReturns m = (w : World) → IsGone (m w).0

module _ {A B : Type 0} (k : A → Action B) where
  continue-Gone : (o : Outcome A) → ((a : A) → NeverReturns (k a)) → NeverReturns (continue k o)
  continue-Gone (returned a) never w = never a w
  continue-Gone (panicked p) never w = tt
  continue-Gone exited never w = tt
  continue-Gone (crashed p) never w = tt

  continue-stays : (o : Outcome A) (w : World) → IsGone o → IsGone (continue k o w).0
  continue-stays (returned a) w gone = elim gone [ ]
  continue-stays (panicked p) w gone = tt
  continue-stays exited w gone = tt
  continue-stays (crashed p) w gone = tt

  -- A sequence never returns if its second part never does.
  pub bind-NeverReturns : (m : Action A) → ((a : A) → NeverReturns (k a)) → NeverReturns (m >>= k)
  unfolding ◌>>=◌
  bind-NeverReturns m never w = let (o, w') = m w in continue-Gone o never w'

  -- A sequence does not return where its first part does not.
  pub bind-stays : (m : Action A) (w : World) → IsGone (m w).0 → IsGone ((m >>= k) w).0
  unfolding ◌>>=◌
  bind-stays m w gone = let (o, w') = m w in continue-stays o w' gone

fail_now_of-NeverReturns : (h : ℕ) (o : Helper) → NeverReturns (fail_now_of h o)
unfolding fail_now_of t_fail_now setup_fail_now ◌>>=◌
fail_now_of-NeverReturns h (plain o) w = tt
fail_now_of-NeverReturns h (retry o) w = bind-NeverReturns _ (fail h) (λ _ w'. tt) w
fail_now_of-NeverReturns h (flaky o) w = bind-NeverReturns _ (fail h) (λ _ w'. tt) w
fail_now_of-NeverReturns h (setup o) w = tt

fail_now-NeverReturns : (h : ℕ) → NeverReturns (fail_now h)
unfolding fail_now load
fail_now-NeverReturns h = bind-NeverReturns _ _ (fail_now_of-NeverReturns h)

-- `Fatal` does not return to its caller, on any of the four helpers and in any state.
pub fatal-NeverReturns : (h : ℕ) (msg : Text) → NeverReturns (fatal h msg)
unfolding fatal load
fatal-NeverReturns h msg =
    bind-NeverReturns _ _ (λ o. bind-NeverReturns _ _ (λ _. fail_now-NeverReturns h))

-- On any helper: the command is given to the shell, after those before it; if it succeeds and there are no
-- checks, `Execute` returns its output, with nothing changed but the commands run and the clock; if
-- it fails, `Execute` does not return, whatever the checks.
pub execute-Outcome :
    (h : ℕ) (cmd : Text) (checks : List CheckFunc) (w : World)
    → let reply = w.outside.shell (invocation cmd none [] w ∷ w.trace) in
      (reply.error ≡ none
        → execute h cmd [] w ≡ (
          returned reply.output,
          record w { trace = invocation cmd none [] w ∷ w.trace; clock = w.clock + reply.took },
        ))
      × ((err : Text) → reply.error ≡ some err → IsGone (execute h cmd checks w).0)
unfolding execute execute_with_env execute_with_env_and_input exec_shell_command after_command
    reply_to check_error for_each ◌>>=◌
execute-Outcome h cmd checks w =
    (λ e. rw e refl, λ err e. rw e (bind-stays _ (fatal h _) _ (fatal-NeverReturns h _ _)))

-- ===== src/Shell/Healing/Judged.antt =====
-- pkg/util/retry/retry.go: one attempt of a command with no checks, on a helper of its own.
use maistra_test_tool.World.{
  World, Action, Outcome, returned, panicked, exited, crashed, string, ◌>>=◌, for_each, pure,
}
use maistra_test_tool.World.Onward.{Same}
use maistra_test_tool.World.Keeps.{Keeps, keeps_rules}
use maistra_test_tool.World.Panics.{with_defer, recover}
use maistra_test_tool.Helper.{
  failed, load, get_t, current_step, allocate, t_of, step_of, retry_panic_key, fail, fatal,
}
use maistra_test_tool.Helper.Still.{fatal-Still, still_rules}
use maistra_test_tool.Check.Leaves.{own_mark, mark_retry, fail-Leaves, fatal-Leaves}
use maistra_test_tool.Retry.Attempt.{
  attempt_internal, new_retry_test_helper, run_on, after_attempt, is_retry_panic,
}
use maistra_test_tool.Shell.{
  execute, execute_with_env, execute_with_env_and_input, exec_shell_command, check_error,
  after_command, reply_to, command_failed, invocation,
}
use maistra_test_tool.Shell.Isolation.{command}
use maistra_test_tool.Shell.Healing.Asked.{
  Asked, Still-Asked, command-Asked, bind_then, Asked-Same, defer_then,
}
use maistra_test_tool.Prelude.{
  ℕ, suc, ◌≡◌, refl, Bool, true, false, Option, none, some, [], arith, ◌∙◌,
}
use maistra_test_tool.Prelude.Int.{ℤ}
use maistra_test_tool.Text.{Text, teq_refl}

-- The attempt returned its helper, which has the mark.
abbrev pub JudgedBy : Bool → Outcome ℕ → World → Type 0
JudgedBy b (returned a) w = own_mark (w.helpers a) ≡ some b
JudgedBy b (panicked p) w = ⊥
JudgedBy b exited w = ⊥
JudgedBy b (crashed p) w = ⊥

abbrev pub Judged : Bool → Outcome ℕ × World → Type 0
Judged b (o, w) = JudgedBy b o w

pub failed_by_mark :
    (a : ℕ) (w : World) (b : Bool) → own_mark (w.helpers a) ≡ some b → failed a w ≡ (returned b, w)
unfolding failed load ◌>>=◌
failed_by_mark a w b e = let (o, stands) = mark_retry (w.helpers a) e in ground (arith, stands, e)

module _ (cmd : Text) where
  abbrev asks : ℕ → Action Unit
  asks = command cmd []

  abbrev pub error_of : World → Option Text
  error_of w = (reply_to cmd none [] w).error

  module _ (r : ℕ) (w : World) where
    good_command : error_of w ≡ none → asks r w ≡ (returned tt, after_command cmd none [] w)
    unfolding execute execute_with_env execute_with_env_and_input exec_shell_command check_error
        ◌>>=◌ for_each
    good_command e = rw e refl

    abbrev message : Text → Text
    message err = command_failed cmd (reply_to cmd none [] w).output err

    bad_command :
        (err : Text)
        → error_of w ≡ some err
        → (fatal r (message err) (after_command cmd none [] w)).0
          ≡ panicked (string retry_panic_key)
        → asks r w ≡ (
          panicked (string retry_panic_key),
          (fatal r (message err) (after_command cmd none [] w)).1,
        )
    unfolding execute execute_with_env execute_with_env_and_input exec_shell_command check_error
        ◌>>=◌
    bad_command err e ends = rw e (rw ends refl)

    check_error-Asked :
        {w0 : World} {n : ℕ} (output : Text) (err : Option Text)
        → Keeps (Asked w0 n) (check_error r cmd output err)
    unfolding check_error
    check_error-Asked output none = search keeps_rules
    check_error-Asked output (some err) =
        Still-Asked _ λ w'. fatal-Still r (command_failed cmd output err)

    asks-Asked : {w0 : World} {n : ℕ} → Asked w0 n w → Asked w0 (suc n) (asks r w).1
    unfolding execute execute_with_env execute_with_env_and_input exec_shell_command for_each
    asks-Asked {w0} {n} a =
        bind_then {P = Asked w0 (suc n)} (execute r cmd []) _ w
          (bind_then {P = Asked w0 (suc n)} (exec_shell_command cmd none []) _ w
            (command-Asked cmd w a) (λ reply. search (keeps_rules, check_error-Asked)))
          (λ _. search keeps_rules)

  module _ (h : ℕ) (i max : ℤ) (w : World) where
    -- The world in which the command is run, with the helper of the attempt in place.
    abbrev begun : World
    begun = (new_retry_test_helper (t_of (w.helpers h)) (step_of (w.helpers h)) i max w).1

    abbrev result : Outcome ℕ × World
    result = attempt_internal h asks i max w

    good_attempt : error_of begun ≡ none → Judged false result
    unfolding attempt_internal ◌>>=◌ get_t current_step new_retry_test_helper allocate run_on
        with_defer after_attempt recover after_command
    good_attempt e = rw (good_command w.next_helper begun e) (ground arith)

    -- The helper of the attempt after the command.
    asked_mark : own_mark ((after_command cmd none [] begun).helpers w.next_helper) ≡ some false
    unfolding after_command new_retry_test_helper allocate
    asked_mark = ground arith

    module _ (err : Text) where
      abbrev fatal_at : Outcome Unit × World
      fatal_at =
          fatal w.next_helper (message w.next_helper begun err) (after_command cmd none [] begun)

      fatal_lem :
          (fatal_at.0 ≡ panicked (string retry_panic_key))
          × (own_mark (fatal_at.1.helpers w.next_helper) ≡ some true)
      fatal_lem = (fatal-Leaves _).at (after_command cmd none [] begun) false asked_mark

      recovered :
          ((fail w.next_helper fatal_at.1).0 ≡ returned tt)
          × (own_mark ((fail w.next_helper fatal_at.1).1.helpers w.next_helper) ≡ some true)
      recovered = fail-Leaves.at fatal_at.1 true fatal_lem.1

      bad_attempt : error_of begun ≡ some err → Judged true result
      unfolding attempt_internal ◌>>=◌ get_t current_step run_on with_defer after_attempt recover
          is_retry_panic
      bad_attempt e =
          rw (bad_command w.next_helper begun err e fatal_lem.0)
            (rw (teq_refl retry_panic_key) (rw recovered.0 recovered.1))

    -- Whatever the shell answers, the attempt returns.
    pub attempt-Judged : (err : Option Text) → error_of begun ≡ err → (b : Bool) × Judged b result
    attempt-Judged none e = (false, good_attempt e)
    attempt-Judged (some err) e = (true, bad_attempt err e)

    begun-error : error_of begun ≡ error_of w
    unfolding reply_to invocation new_retry_test_helper allocate
    begun-error = refl

    -- An attempt whose command succeeds does not fail.
    pub attempt-good : error_of w ≡ none → Judged false result
    attempt-good e = good_attempt (begun-error ∙ e)

    after_attempt-Still :
        (r : ℕ) (o : Outcome Unit) {w0 : World} → Keeps (Same w0) (after_attempt r o)
    unfolding after_attempt
    after_attempt-Still r (returned a) = search still_rules
    after_attempt-Still r (panicked p) = search still_rules
    after_attempt-Still r exited = search still_rules
    after_attempt-Still r (crashed p) = search still_rules

    begun-Asked : {w0 : World} {n : ℕ} → Asked w0 n w → Asked w0 n begun
    unfolding new_retry_test_helper allocate
    begun-Asked a =
        Asked-Same
          (record {
            outside = refl;
            env = refl;
            clock = refl;
            trace = refl;
            pool = refl;
            tempo = refl;
            otel = refl;
          })
          a

    -- An attempt runs its command once.
    pub attempt-Asked : {w0 : World} {n : ℕ} → Asked w0 n w → Asked w0 (suc n) result.1
    unfolding attempt_internal ◌>>=◌ get_t current_step
    attempt-Asked {w0} {n} a =
        bind_then {P = Asked w0 (suc n)} (run_on w.next_helper asks) (λ _. pure w.next_helper) begun
          (unfold run_on in
            defer_then {P = Asked w0 (suc n)} (asks w.next_helper) (after_attempt w.next_helper)
              begun (asks-Asked w.next_helper begun (begun-Asked a))
              (λ o. Still-Asked _ λ w'. after_attempt-Still w.next_helper o))
          (λ _. search keeps_rules)

-- ===== src/Oc/Waiting/Bounds.antt =====
-- pkg/util/oc/pod_commands.go: what `WaitFor` runs.
use maistra_test_tool.World.{
  World, Action, returned, pure, ◌>>=◌, Outcome, continue, panicked, exited, crashed,
}
use maistra_test_tool.World.Keeps.{Keeps, Keeps-bind, Keeps-pure}
use maistra_test_tool.World.Onward.{Same, Same-refl}
use maistra_test_tool.Check.Common.{CheckFunc}
use maistra_test_tool.Check.Still.{require_contains-Still}
use maistra_test_tool.Retry.Attempt.{
  attempt, attempt_internal, run_on, after_attempt, new_retry_test_helper,
}
use maistra_test_tool.Retry.Spending.{after_attempt-Still}
use maistra_test_tool.Shell.{
  execute, executef, execute_with_env, execute_with_env_and_input, exec_shell_command,
  after_command, invocation,
}
use maistra_test_tool.Shell.Healing.Asked.{bind_then, defer_then}
use maistra_test_tool.Shell.Spending.{IsStillCheck, check_error-Still, checks-Still}
use maistra_test_tool.Oc.Kubeconfig.{Oc}
use maistra_test_tool.Oc.Retrying.{ns_flag}
use maistra_test_tool.Oc.Waiting.{wait_attempt, wait_rounds, wait_for}
use maistra_test_tool.Prelude.{
  ℕ, zero, suc, ◌+◌, ◌≤◌, ◌≡◌, refl, ap, ◌∙◌, none, List, [], ◌∷◌, ◌++◌, All, arith, ◌⊎◌, inl, inr,
  map, Bool, true, false, if◌then◌else◌,
}
use maistra_test_tool.Text.{Text, lit}
use maistra_test_tool.Text.Format.{sprintf}
use maistra_test_tool.Helper.{
  failed, get_t, current_step, t_of, step_of, flush_log_buffer, allocate, log,
}
use maistra_test_tool.Prelude.Int.{pos, ℤ}
use maistra_test_tool.Helper.Still.{log-Still, fail_now-Still, failed-Still, flush_log_buffer-Still}

-- The command a number of times.
abbrev pub times : ℕ → Text → List Text
times zero cmd = []
times (suc n) cmd = cmd ∷ times n cmd

-- From `w` to `w'` just the commands were run, the last one first, each of them without input and under the KUBECONFIG
-- of `w`.
pub record Just (w : World) (cs : List Text) (w' : World) : Type 0 where
  pub env : w'.env ≡ w.env
  pub trace : w'.trace ≡ map (λ c. invocation c none [] w) cs ++ w.trace

Just-refl : (w : World) → Just w [] w
Just-refl w = record { env = refl; trace = refl }

module _ {w0 : World} {cs : List Text} where
  Just-Same : {w w' : World} → Same w w' → Just w0 cs w → Just w0 cs w'
  Just-Same s j = record { env = s.env ∙ j.env; trace = s.trace ∙ j.trace }

  Still-Just : {A : Type 0} (m : Action A) → ((w : World) → Keeps (Same w) m) → Keeps (Just w0 cs) m
  Still-Just m k = record { at = λ w j. Just-Same ((k w).at w (Same-refl w)) j }

  command-Just :
      (cmd : Text) (w : World) → Just w0 cs w → Just w0 (cmd ∷ cs) (after_command cmd none [] w)
  unfolding after_command invocation
  command-Just cmd w j = record {
    env = j.env;
    trace = rw j.env (ap (λ x. invocation cmd none [] w0 ∷ x) j.trace);
  }

module _ {w0 : World} {cs : List Text} where
  execute-Just :
      (h : ℕ) (cmd : Text) (checks : List CheckFunc)
      → All IsStillCheck checks
      → (w : World) → Just w0 cs w
      → Just w0 (cmd ∷ cs) (execute h cmd checks w).1
  unfolding execute execute_with_env execute_with_env_and_input exec_shell_command
  execute-Just h cmd checks k w j =
      bind_then {P = Just w0 (cmd ∷ cs)} _ _ w (command-Just cmd w j) (λ reply.
        Keeps-bind _ _ (Still-Just _ λ w'. check_error-Still h cmd _ _)
          (λ _. Keeps-bind _ _ (Still-Just _ λ w'. checks-Still h checks _ k) (λ _. Keeps-pure _)))

-- What holds after the first part is enough where this does not return, and leads to the same by the rest.
stage :
    {A B : Type 0} {Q R : World → Type 0} (m : Action A) (k : A → Action B) (w : World)
    → Q (m w).1
    → ((w' : World) → Q w' → R w')
    → ((a : A) (w' : World) → Q w' → R (k a w').1)
    → R ((m >>= k) w).1
unfolding ◌>>=◌
stage {Q = Q} {R = R} m k w q enough goes_on = let (o, w') = m w in onward o w' q
  where
    onward : (o : Outcome _) (w' : World) → Q w' → R (continue k o w').1
    onward (returned a) w' q = goes_on a w' q
    onward (panicked x) w' q = enough w' q
    onward exited w' q = enough w' q
    onward (crashed x) w' q = enough w' q

module _ (o : Oc) (h : ℕ) (ns kind name for_condition : Text) where
  -- `oc wait` for ten seconds, and `oc describe`.
  abbrev pub wait_command : Text
  wait_command =
      sprintf "oc wait %s %s/%s --for %s --timeout %s"
        (ns_flag ns ∷ kind ∷ name ∷ for_condition ∷ lit "10s" ∷ [])

  abbrev pub describe_command : Text
  describe_command = sprintf "oc describe -n %s %s/%s" (ns ∷ kind ∷ name ∷ [])

  module _ {w0 : World} where
    attempt_once :
        (t : ℕ) (cs : List Text) (w : World)
        → Just w0 cs w
        → Just w0 (wait_command ∷ cs) (wait_attempt o h ns kind name for_condition t w).1
    unfolding wait_attempt
    attempt_once t cs w j =
        bind_then {P = Just w0 (wait_command ∷ cs)} _ _ w
          (execute-Just t wait_command _ ((λ w'. require_contains-Still _ _ _), tt) w j)
          (λ output. Keeps-pure tt)

    begun-Just :
        (t step : ℕ) (i max : ℤ) (cs : List Text) (w : World)
        → Just w0 cs w
        → Just w0 cs (new_retry_test_helper t step i max w).1
    unfolding new_retry_test_helper allocate
    begun-Just t step i max cs w j = record { env = j.env; trace = j.trace }

    attempt-Just :
        (cs : List Text) (w : World)
        → Just w0 cs w
        → Just w0 (wait_command ∷ cs) (attempt h (wait_attempt o h ns kind name for_condition) w).1
    unfolding attempt attempt_internal ◌>>=◌ get_t current_step
    attempt-Just cs w j =
        let f = wait_attempt o h ns kind name for_condition in
        let begun =
          (new_retry_test_helper (t_of (w.helpers h)) (step_of (w.helpers h)) (pos 0) (pos 1)
            w).1 in
        let begun_Just =
          begun-Just (t_of (w.helpers h)) (step_of (w.helpers h)) (pos 0) (pos 1) cs w j in
        bind_then {P = Just w0 (wait_command ∷ cs)} (run_on w.next_helper f)
          (λ _. pure w.next_helper) begun
          (unfold run_on in
            defer_then {P = Just w0 (wait_command ∷ cs)} (f w.next_helper)
              (after_attempt w.next_helper) begun (attempt_once w.next_helper cs begun begun_Just)
              (λ o. Still-Just _ λ w'. after_attempt-Still w.next_helper o))
          (λ _. Keeps-pure w.next_helper)

  -- From `w` to `w'` up to thirty times `oc wait`, or thirty times and then `oc describe`.
  abbrev pub RanWaiting : World → World → Type 0
  RanWaiting w w' =
      ((k : ℕ) × (k ≤ 30) × Just w (times k wait_command) w')
      ⊎ Just w (describe_command ∷ times 30 wait_command) w'

  module _ {w0 : World} where
    judged :
        (k t : ℕ) (rest : Action Unit) (w : World) (has_failed : Bool)
        → k ≤ 30
        → Just w0 (times k wait_command) w
        → RanWaiting w0 (rest w).1
        → RanWaiting w0 ((if has_failed then rest else flush_log_buffer t) w).1
    judged k t rest w true le j r = r
    judged k t rest w false le j r =
        inl (k, le, (Still-Just _ λ w'. flush_log_buffer-Still t).at w j)

    described :
        (a : ℕ) (w : World)
        → Just w0 (times 30 wait_command) w
        → RanWaiting w0 (wait_rounds o h ns kind name for_condition zero a w).1
    unfolding wait_rounds executef
    described a w j =
        stage {Q = Just w0 (times 30 wait_command)} {R = RanWaiting w0} (flush_log_buffer a) _ w
          ((Still-Just _ λ w'. flush_log_buffer-Still a).at w j)
          (λ w' j'. inl (30, omega arith, j'))
          (λ flushed w1 j1.
            stage {Q = Just w0 (describe_command ∷ times 30 wait_command)} {R = RanWaiting w0}
              (execute h describe_command []) _ w1 (execute-Just h describe_command [] tt w1 j1)
              (λ w' j'. inr j')
              (λ description w2 j2. inr (
                (Keeps-bind _ _ (Still-Just _ λ w'. log-Still h _)
                    (λ logged. Still-Just _ λ w'. fail_now-Still h)).at
                  w2 j2)))

    rounds_once :
        (n k a : ℕ) (w : World)
        → n + k ≡ 30
        → Just w0 (times k wait_command) w
        → RanWaiting w0 (wait_rounds o h ns kind name for_condition n a w).1
    unfolding wait_rounds
    rounds_once zero k a w all j =
        let thirty : k ≡ 30 = omega (arith, all) in described a w (rw thirty at j)
    rounds_once (suc n) k a w all j =
        let msg =
          sprintf "Wait for condition %s on %s %s/%s..." (for_condition ∷ kind ∷ ns ∷ name ∷ []) in
        stage {Q = Just w0 (times k wait_command)} {R = RanWaiting w0} (log h msg) _ w
          ((Still-Just (log h msg) λ w'. log-Still h msg).at w j)
          (λ w' j'. inl (k, omega arith, j'))
          (λ logged w1 j1.
            stage {Q = Just w0 (times (suc k) wait_command)} {R = RanWaiting w0} (attempt h _) _ w1
              (attempt-Just (times k wait_command) w1 j1) (λ w' j'. inl (suc k, omega arith, j'))
              (λ t w2 j2.
                stage {Q = Just w0 (times (suc k) wait_command)} {R = RanWaiting w0} (failed t) _ w2
                  ((Still-Just _ λ w'. failed-Still t).at w2 j2)
                  (λ w' j'. inl (suc k, omega arith, j'))
                  (λ has_failed w3 j3.
                    judged (suc k) t (wait_rounds o h ns kind name for_condition n t) w3 has_failed
                      (omega arith) j3 (rounds_once n (suc k) t w3 (omega arith) j3))))

  -- What `WaitFor` runs, whatever the cluster answers and however it ends: `oc wait` for ten seconds up to thirty times,
  -- or thirty times and then `oc describe` once, and no other command; each without input, and under the KUBECONFIG of the
  -- world before.
  pub wait_for-bounds : (w : World) → RanWaiting w (wait_for o h ns kind name for_condition w).1
  unfolding wait_for
  wait_for-bounds w = rounds_once 30 0 0 w refl (Just-refl w)

-- ===== src/Retry/Course/Told.antt =====
-- pkg/util/retry/retry.go: `UntilSuccessWithOptions` takes one of the courses of Retry/Course.
use maistra_test_tool.World.{
  World, Action, Outcome, PanicValue, returned, panicked, exited, crashed, string, runtime_error,
  pure, when, ◌>>=◌, ◌>>◌,
}
use maistra_test_tool.World.Binds.{by_panic, by_exit, by_crash, gets_bind}
use maistra_test_tool.World.Onward.{Same-refl}
use maistra_test_tool.World.Panics.{with_defer, recover}
use maistra_test_tool.Helper.{log, fail, retry_panic_key, get_t, current_step, allocate, t_of}
use maistra_test_tool.Helper.Isolation.{failures}
use maistra_test_tool.Helper.Logging.{log-IsQuiet}
use maistra_test_tool.Helper.Returning.{log-returned}
use maistra_test_tool.Helper.Still.{log-Still}
use maistra_test_tool.Retry.{
  sleep, prepare_retry, conclude, give_up, run_attempt, until_success_with_options,
}
use maistra_test_tool.Retry.Attempt.{
  attempt_internal, new_retry_test_helper, run_on, after_attempt, is_retry_panic,
}
use maistra_test_tool.Retry.Course.{
  on_return, on_loss, Pause, with_own_helper, Attempted, completed, given_up, lost, last, Tries,
  no_tries, one_more_try, Course, succeeds, gives_up, is_cut_short, is_not_judged,
}
use maistra_test_tool.Retry.Options.{RetryOptions}
use maistra_test_tool.Retry.Refinement.{until_success-Run}
use maistra_test_tool.Retry.Runs.{
  Failing, none_yet, one_more, Run, succeeded, exhausted, cut_short, no_verdict, conclude-IsQuiet,
  give_up_lem,
}
use maistra_test_tool.Retry.Settled.{own_panic, other_panic}
use maistra_test_tool.Retry.Spending.{conclude-Still, give_up-Still}
use maistra_test_tool.Prelude.{
  ℕ, suc, ◌+◌, ◌≤◌, ◌<◌, ◌≡◌, ◌⊎◌, refl, ap, ◌∙◌, Bool, true, false, Bool-cases, arith, inl, inr,
}
use mathlib.Core.Path.{subst}
use maistra_test_tool.Prelude.Int.{ℤ, pos, pos_part, ◌-ℤ◌, eqb_ℤ}
use maistra_test_tool.Text.{Text, teq, teq_refl}

abbrev value_of : PanicValue → Outcome Unit → PanicValue
value_of p (returned a) = p
value_of p (panicked q) = q
value_of p exited = p
value_of p (crashed q) = p

-- What is shown of a step holds of the world that an equation of the step names.
named :
    {A : Type 0} (Q : Outcome A × World → Type 0) {r r' : Outcome A × World} → r ≡ r' → Q r → Q r'
named Q e q = subst Q e q

logged_sleep :
    (h : ℕ) (b : Bool) (msg : Text) (d : ℤ) (w : World)
    → Pause (pos_part d) w ((when b (log h msg) >> sleep d) w).1
unfolding ◌>>=◌ sleep
logged_sleep h false msg d w = record {
  clock = refl;
  outside = refl;
  env = refl;
  trace = refl;
  marks = refl;
}
logged_sleep h true msg d w =
    let same = (log-Still h msg).at w (Same-refl w) in
    rw (log-returned h msg w) (record {
      clock = ap (λ c. c + pos_part d) same.clock;
      outside = same.outside;
      env = same.env;
      trace = same.trace;
      marks = (log-IsQuiet h msg).marks w;
    })

module _ (h : ℕ) (options : RetryOptions) (f : ℕ → Action Unit) (start m : ℕ)
    (positive : options.max_attempts ≡ pos (suc m)) where
  prepare_retry-Pause :
      (i : ℕ) (w : World)
      → Pause (pos_part options.delay_between_attempts) w (prepare_retry h options i w).1
  unfolding prepare_retry
  prepare_retry-Pause i w =
      rw gets_bind (rw gets_bind (logged_sleep h _ _ options.delay_between_attempts w))

  conclude-Pause : (a i : ℕ) (w : World) → Pause 0 w (conclude h options start a i w).1
  conclude-Pause a i w =
      let same = (conclude-Still h options start a i).at w (Same-refl w) in
      record {
        clock = let c = same.clock in omega (arith, c);
        outside = same.outside;
        env = same.env;
        trace = same.trace;
        marks = (conclude-IsQuiet h options start a i).marks w;
      }

  abbrev AttemptedAs : ℕ → World → Outcome ℕ × World → Type 0
  AttemptedAs i w (o, w') = Attempted h options f m i w o w'

  failed_own :
      (i : ℕ) (w v : World)
      → i < m
      → f w.next_helper (with_own_helper h options f m i w) ≡ (panicked (string retry_panic_key), v)
      → (x : Outcome Unit × World) → fail w.next_helper v ≡ x
      → AttemptedAs i w (attempt_internal h f (pos i) options.max_attempts w)
  unfolding attempt_internal ◌>>=◌ get_t current_step new_retry_test_helper allocate run_on
      with_defer after_attempt recover is_retry_panic
  failed_own i w v lt ran (returned u, w') e =
      rw ran (rw (teq_refl retry_panic_key) (rw e (given_up lt ran e (on_return u))))
  failed_own i w v lt ran (panicked p, w') e =
      rw ran (rw (teq_refl retry_panic_key) (rw e (given_up lt ran e (on_loss (by_panic p)))))
  failed_own i w v lt ran (exited, w') e =
      rw ran (rw (teq_refl retry_panic_key) (rw e (given_up lt ran e (on_loss by_exit))))
  failed_own i w v lt ran (crashed p, w') e =
      rw ran (rw (teq_refl retry_panic_key) (rw e (given_up lt ran e (on_loss (by_crash p)))))

  own_attempt :
      (i : ℕ) (w : World)
      → i < m
      → (x : Outcome Unit × World) → f w.next_helper (with_own_helper h options f m i w) ≡ x
      → AttemptedAs i w (attempt_internal h f (pos i) options.max_attempts w)
  unfolding attempt_internal ◌>>=◌ get_t current_step new_retry_test_helper allocate run_on
      with_defer after_attempt recover is_retry_panic
  own_attempt i w lt (returned u, w') e = rw e (completed lt e)
  own_attempt i w lt (exited, w') e = rw e (lost lt e (ground arith) by_exit)
  own_attempt i w lt (crashed p, w') e = rw e (lost lt e (ground arith) (by_crash p))
  own_attempt i w lt (panicked (runtime_error s), w') e =
      rw e (lost lt e (ground arith) (by_panic (runtime_error s)))
  own_attempt i w lt (panicked (string s), w') e = elim (Bool-cases (teq s retry_panic_key)) [
    | inl own ↦
        failed_own i w w' lt (e ∙ ap (λ p. (panicked p, w')) (own_panic s retry_panic_key own)) _
          refl
    | inr other ↦ rw e (
        rw other (
          lost lt e (λ same. other_panic s retry_panic_key other (ap (value_of (string s)) same))
            (by_panic (string s))))
  ]

  caller_attempt :
      (i : ℕ) (w : World)
      → i ≡ m
      → (x : Outcome Unit × World) → f h w ≡ x
      → AttemptedAs i w ((f h >>= λ u. pure h) w)
  unfolding ◌>>=◌
  caller_attempt i w e (returned u, w') ran = rw ran (last e ran (on_return u))
  caller_attempt i w e (panicked p, w') ran = rw ran (last e ran (on_loss (by_panic p)))
  caller_attempt i w e (exited, w') ran = rw ran (last e ran (on_loss by_exit))
  caller_attempt i w e (crashed p, w') ran = rw ran (last e ran (on_loss (by_crash p)))

  last_cases :
      (i : ℕ)
      → i ≤ m
      → ((eqb_ℤ (pos i) (options.max_attempts -ℤ pos 1) ≡ true) × (i ≡ m))
        ⊎ ((eqb_ℤ (pos i) (options.max_attempts -ℤ pos 1) ≡ false) × (i < m))
  unfolding ◌-ℤ◌
  last_cases i le = rw positive (ground arith)

  run_attempt-Attempted :
      (i : ℕ) (w : World) → i ≤ m → AttemptedAs i w (run_attempt h options f start i w)
  unfolding run_attempt
  run_attempt-Attempted i w le = elim (last_cases i le) [
    | inl (yes_last, e) ↦ rw yes_last (caller_attempt i w e _ refl)
    | inr (not_last, lt) ↦ rw not_last (own_attempt i w lt _ refl)
  ]

  attempted :
      (i : ℕ) (w : World) {r : Outcome ℕ × World}
      → i ≤ m
      → run_attempt h options f start i w ≡ r
      → AttemptedAs i w r
  attempted i w le e = named (AttemptedAs i w) e (run_attempt-Attempted i w le)

  waited :
      (i : ℕ) (w : World) {r : Outcome Unit × World}
      → prepare_retry h options i w ≡ r
      → Pause (pos_part options.delay_between_attempts) w r.1
  waited i w e =
      named (λ r. Pause (pos_part options.delay_between_attempts) w r.1) e (prepare_retry-Pause i w)

  Failing-Tries :
      {w w1 : World} {k : ℕ}
      → k ≤ suc m
      → Failing h options f start w k w1
      → Tries h options f m w k w1
  Failing-Tries le none_yet = no_tries
  Failing-Tries le (one_more {k} {a} {w1} {w2} {w3} failing ran asked done) =
      one_more_try (Failing-Tries (omega arith) failing) (attempted k w1 (omega arith) ran) asked
        (waited k w3 done)

  after_giving_up :
      (w : World) {r : Outcome Unit × World}
      → give_up h options m w ≡ r
      → (failures r.1 (t_of (w.helpers h)) ≡ true) × (r.1.trace ≡ w.trace) × (r.1.clock ≡ w.clock)
  after_giving_up w e =
      named
        (λ r.
          (failures r.1 (t_of (w.helpers h)) ≡ true)
          × (r.1.trace ≡ w.trace)
          × (r.1.clock ≡ w.clock))
        e
        (let same = (give_up-Still h options m).at w (Same-refl w) in
          ((give_up_lem h options m w).1, same.trace, same.clock))

  Run-Course :
      {w : World} {o : Outcome Unit} {w' : World}
      → Run h options f start m w o w'
      → Course h options f m w o w'
  Run-Course (succeeded {k} {a} {w1} {w2} {w3} le failing ran asked done) =
      succeeds le (Failing-Tries (omega arith) failing) (attempted k w1 le ran) asked
        (named (λ r. Pause 0 w3 r.1) done (conclude-Pause a k w3))
  Run-Course (exhausted {a} {w1} {w2} {w3} failing ran asked done) =
      let (marked, trace, clock) = after_giving_up w3 done in
      gives_up (Failing-Tries (omega arith) failing) (attempted m w1 (omega arith) ran) asked marked
        trace clock
  Run-Course (cut_short {k} {w1} le failing ran u) =
      is_cut_short le (Failing-Tries (omega arith) failing) (attempted k w1 le ran) u
  Run-Course (no_verdict {k} {a} {w1} le failing ran asked u) =
      is_not_judged le (Failing-Tries (omega arith) failing) (attempted k w1 le ran) asked u

-- A retry with `m + 1` attempts allowed takes one of the courses of the relation Course. Each attempt but the last runs
-- the operation on a new helper, on which Fail is called if the operation panics with the key of FailNow, and any
-- other end without a return is that of the attempt; the last attempt runs it on the helper of the caller. After each
-- attempt that failed, and before the next one, the delay passes, no command runs and no test is marked. The first
-- attempt that does not fail makes the retry return, with no command run, no time passed and no test marked after it; if
-- all fail, the goroutine ends, with the test of the helper marked as failed; an attempt that does not return, or a
-- helper that cannot say whether it failed, ends the retry in the same way.
pub until_success-Course :
    (h : ℕ) (options : RetryOptions) (f : ℕ → Action Unit) (m : ℕ) (w : World)
    → options.max_attempts ≡ pos (suc m)
    → let (o, w') = until_success_with_options h options f w in Course h options f m w o w'
until_success-Course h options f m w positive =
    Run-Course h options f w.clock m positive (until_success-Run h options f m w positive)

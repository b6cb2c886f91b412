-- ===== src/Shell/Healing/Heals.antt =====
-- pkg/util/retry/retry.go: a command that succeeds once it has been run often enough.
use maistra_test_tool.World.{World, Action, Outcome, Invocation, returned}
use maistra_test_tool.World.Binds.{Unfinished, by_panic, by_exit, by_crash}
use maistra_test_tool.Helper.Isolation.{failures}
use maistra_test_tool.Retry.Refinement.{until_success-Run}
use maistra_test_tool.Helper.{failed, log, flush_log_buffer}
use maistra_test_tool.Retry.{
  prepare_retry, conclude, run_attempt, sleep, until_success_with_options,
}
use maistra_test_tool.Retry.Options.{RetryOptions}
use maistra_test_tool.Retry.Runs.{
  Failing, none_yet, one_more, Run, succeeded, exhausted, cut_short, no_verdict,
}
use maistra_test_tool.Retry.Isolation.{before_last, failed-world}
use maistra_test_tool.Retry.Attempt.{attempt_internal}
use maistra_test_tool.Shell.{invocation, reply_to}
use maistra_test_tool.Shell.Isolation.{command, retried_command-failures}
use maistra_test_tool.Shell.Healing.Asked.{Asked, Asked-refl, Still-Asked}
use maistra_test_tool.Shell.Healing.Judged.{
  Judged, JudgedBy, error_of, attempt-Judged, attempt-good, attempt-Asked, failed_by_mark,
}
use maistra_test_tool.Prelude.{
  ℕ, suc, ◌<◌, ◌≤◌, ◌≡◌, refl, ap, sym, ◌∙◌, Bool, true, false, none, List, [], ◌∷◌, ◌++◌, length,
  arith, inl, inr,
}
use maistra_test_tool.Prelude.Int.{pos, ℤ}
use maistra_test_tool.Text.{Text}
use mathlib.Core.Path.{subst}
use native.Mathlib.Decide.{dec_lt}
use maistra_test_tool.World.Keeps.{Keeps, Keeps-modify, keeps_rules}
use maistra_test_tool.Helper.Still.{log-Still, flush_log_buffer-Still}

-- Run under the KUBECONFIG of `w` after any `k` further commands, the command succeeds.
abbrev pub HealsAfter : ℕ → Text → World → Type 0
HealsAfter k cmd w =
    (newer : List Invocation)
    → length newer ≡ k
    → (w.outside.shell (invocation cmd none [] w ∷ newer ++ w.trace)).error ≡ none

healed :
    (k : ℕ) (cmd : Text) (w w1 : World) → HealsAfter k cmd w → Asked w k w1 → error_of cmd w1 ≡ none
unfolding reply_to invocation
healed k cmd w w1 heals a = rw a.outside (rw a.env (rw a.trace (heals a.newer a.count)))

module _ (h : ℕ) (options : RetryOptions) (cmd : Text) (m : ℕ) (w : World)
    (positive : options.max_attempts ≡ pos (suc m)) where
  abbrev asking : ℕ → Action Unit
  asking = command cmd []

  -- All attempts but the last are made on a helper of their own.
  own_attempt :
      (i : ℕ) (w1 : World)
      → i < m
      → run_attempt h options asking w.clock i w1
        ≡ attempt_internal h asking (pos i) options.max_attempts w1
  unfolding run_attempt
  own_attempt i w1 lt = rw (before_last options m i positive lt) refl

  -- What holds of such an attempt holds of what the run says of it.
  by_run :
      (Q : Outcome ℕ × World → Type 0) (i : ℕ) (w1 : World) {r : Outcome ℕ × World}
      → i < m
      → run_attempt h options asking w.clock i w1 ≡ r
      → Q (attempt_internal h asking (pos i) options.max_attempts w1)
      → Q r
  by_run Q i w1 lt ran q = subst Q (sym (own_attempt i w1 lt) ∙ ran) q

  log-Asked : {n : ℕ} (msg : Text) → Keeps (Asked w n) (log h msg)
  log-Asked msg = Still-Asked _ λ w'. log-Still h msg

  sleep-Asked : {n : ℕ} (d : ℤ) → Keeps (Asked w n) (sleep d)
  unfolding sleep
  sleep-Asked d = Keeps-modify _ (λ w' a. record {
    outside = a.outside;
    env = a.env;
    newer = a.newer;
    count = a.count;
    trace = a.trace;
  })

  prepare_retry-Asked : {n : ℕ} (i : ℕ) → Keeps (Asked w n) (prepare_retry h options i)
  unfolding prepare_retry
  prepare_retry-Asked i = search (keeps_rules, log-Asked, sleep-Asked)

  flush-Asked : {n : ℕ} (a : ℕ) → Keeps (Asked w n) (flush_log_buffer a)
  flush-Asked a = Still-Asked _ λ w'. flush_log_buffer-Still a

  conclude-Asked : {n : ℕ} (start a i : ℕ) → Keeps (Asked w n) (conclude h options start a i)
  unfolding conclude
  conclude-Asked start a i = search (keeps_rules, log-Asked, flush-Asked) depth 20

  -- The world after a step, from the equation of the step.
  stepped :
      {A : Type 0} {n : ℕ} (s : Action A) {o : Outcome A} {w1 w2 : World}
      → s w1 ≡ (o, w2)
      → Keeps (Asked w n) s
      → Asked w n w1
      → Asked w n w2
  stepped {n = n} s {o} {w1} e k a = subst (λ (r : Outcome _ × World). Asked w n r.1) e (k.at w1 a)

  same_world : (a : ℕ) {o : Outcome Bool} {w2 w3 : World} → failed a w2 ≡ (o, w3) → w3 ≡ w2
  same_world a {o} {w2} asked =
      sym (ap (λ (r : Outcome Bool × World). r.1) asked) ∙ failed-world a w2

  -- A failed attempt has run its command once.
  Failing-Asked :
      {j : ℕ} {w1 : World} → j ≤ m → Failing h options asking w.clock w j w1 → Asked w j w1
  Failing-Asked le none_yet = Asked-refl w
  Failing-Asked le (one_more {k} {a} {w1} {w2} {w3} failing ran asked done) =
      let before = Failing-Asked (omega arith) failing in
      let after =
        by_run (λ r. Asked w (suc k) r.1) k w1 (omega arith) ran
          (attempt-Asked cmd h (pos k) options.max_attempts w1 before) in
      stepped _ done (prepare_retry-Asked k)
        (subst (Asked w (suc k)) (sym (same_world a asked)) after)

  -- What the shell answers, as a decision.
  judged :
      (i : ℕ) (w1 : World)
      → (b : Bool) × Judged b (attempt_internal h asking (pos i) options.max_attempts w1)
  judged i w1 = attempt-Judged cmd h (pos i) options.max_attempts w1 _ refl

  -- The mark of a helper, against what `Failed` says.
  mark_says :
      (a : ℕ) (w2 : World) {o : Outcome Bool} {w3 : World} (b : Bool)
      → JudgedBy b (returned a) w2
      → failed a w2 ≡ (o, w3)
      → o ≡ returned b
  mark_says a w2 b j asked =
      sym (ap (λ (r : Outcome Bool × World). r.0) asked)
      ∙ ap (λ (r : Outcome Bool × World). r.0) (failed_by_mark a w2 b j)

  module _ (k : ℕ) (lt : k < m) (heals : HealsAfter k cmd w) where
    -- Attempt `k` succeeds if it is made, so that no more than `k` fail.
    no_more : {j : ℕ} {w1 : World} → j ≤ m → k < j → Failing h options asking w.clock w j w1 → ⊥
    no_more le more none_yet = omega arith
    no_more le more (one_more {k = j} {a = a} {w1 = w1} {w2 = w2} failing ran asked done) =
        elim (dec_lt k j) [
          | yes before ↦ no_more (omega arith) before failing
          | no ge ↦
              let e : j ≡ k = omega arith in
              let here = subst (λ x. Asked w x w1) e (Failing-Asked (omega arith) failing) in
              let good = by_run (Judged false) j w1 (omega arith) ran (
                attempt-good cmd h (pos j) options.max_attempts w1
                  (healed k cmd w w1 heals here)) in
              let bad : returned true ≡ returned false = mark_says a w2 false good asked in cc bad
        ]

    module _ {j : ℕ} {w1 : World} (le : j ≤ m)
        (failing : Failing h options asking w.clock w j w1) where
      -- The attempt that follows is made on a helper of its own.
      own : j < m
      own = elim (dec_lt k j) [
        | yes before ↦ elim (no_more le before failing) [ ]
        | no ge ↦ omega arith
      ]

      returns :
          {o : Outcome ℕ} {o' : Outcome Unit} {w2 : World}
          → run_attempt h options asking w.clock j w1 ≡ (o, w2)
          → Unfinished o o'
          → ⊥
      returns {o} {o'} {w2} ran u =
          ends o w2 u (judged j w1).0 (by_run (Judged (judged j w1).0) j w1 own ran (judged j w1).1)
        where
          ends :
              (o : Outcome ℕ) (w2 : World) {o' : Outcome Unit}
              → Unfinished o o'
              → (b : Bool) → JudgedBy b o w2
              → ⊥
          ends o w2 (by_panic p) b j = j
          ends o w2 by_exit b j = j
          ends o w2 (by_crash p) b j = j

      verdict :
          {a : ℕ} {o : Outcome Bool} {o' : Outcome Unit} {w2 w3 : World}
          → run_attempt h options asking w.clock j w1 ≡ (returned a, w2)
          → failed a w2 ≡ (o, w3)
          → Unfinished o o'
          → ⊥
      verdict {a} {o} {o'} {w2} ran asked u =
          let (b, mine) = judged j w1 in
          never o u b (mark_says a w2 b (by_run (Judged b) j w1 own ran mine) asked)
        where
          never :
              (o : Outcome Bool) {o' : Outcome Unit}
              → Unfinished o o'
              → (b : Bool) → o ≡ returned b
              → ⊥
          never o (by_panic p) b e = cc e
          never o by_exit b e = cc e
          never o (by_crash p) b e = cc e

      at_most : j ≤ k
      at_most = elim (dec_lt k j) [
        | yes before ↦ elim (no_more le before failing) [ ]
        | no ge ↦ omega arith
      ]

    abbrev Healed : Outcome Unit → World → Type 0
    Healed o w' = (o ≡ returned tt) × ((n : ℕ) × (n ≤ suc k) × Asked w n w')

    Run-heals :
        {o : Outcome Unit} {w' : World} → Run h options asking w.clock m w o w' → Healed o w'
    Run-heals (succeeded {k = j} {a = a} {w1 = w1} {w2 = w2} {w3 = w3} le failing ran asked done) =
        let after =
          by_run (λ r. Asked w (suc j) r.1) j w1 (own le failing) ran
            (attempt-Asked cmd h (pos j) options.max_attempts w1 (Failing-Asked le failing)) in
        let here = subst (Asked w (suc j)) (sym (same_world a asked)) after in
        let most = at_most le failing in
        (refl, (suc j, omega arith, stepped _ done (conclude-Asked w.clock a j) here))
    Run-heals (exhausted failing ran asked done) = elim (no_more (omega arith) lt failing) [ ]
    Run-heals (cut_short le failing ran u) = elim (returns le failing ran u) [ ]
    Run-heals (no_verdict le failing ran asked u) = elim (verdict le failing ran asked u) [ ]

-- A command with no checks that succeeds, under the KUBECONFIG at the start, once `k` further commands have been run,
-- retried with `m + 1` attempts where `k < m`: the retry returns, no test that was not marked as failed is, no test
-- loses its mark, and at most `k + 1` commands have been run, with the environment as before.
pub retried_command-heals :
    (h : ℕ) (options : RetryOptions) (cmd : Text) (m k : ℕ) (w : World)
    → options.max_attempts ≡ pos (suc m)
    → k < m
    → HealsAfter k cmd w
    → let (o, w') = until_success_with_options h options (command cmd []) w in
      (o ≡ returned tt) × (failures w' ≡ failures w) × ((n : ℕ) × (n ≤ suc k) × Asked w n w')
retried_command-heals h options cmd m k w positive lt heals =
    let healed_run =
      Run-heals h options cmd m w positive k lt heals
        (until_success-Run h options (command cmd []) m w positive) in
    (healed_run.0, marks, healed_run.1)
  where
    marks : failures (until_success_with_options h options (command cmd []) w).1 ≡ failures w
    marks = elim (retried_command-failures h options cmd [] m w positive tt) [
      | inl same ↦ same
      | inr last ↦ elim (no_more h options cmd m w positive k lt heals (omega arith) lt last.1) [ ]
    ]

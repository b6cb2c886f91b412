-- ===== src/Retry/Isolation.antt =====
-- pkg/util/retry/retry.go: the failure marks of the tests during a retry, for an operation that reports
-- through the helper that it is given.
use maistra_test_tool.World.{
  World, Action, Outcome, returned, panicked, exited, crashed, ◌>>=◌, ◌>>◌, pure,
}
use maistra_test_tool.World.Keeps.{Keeps, Keeps-with_defer}
use native.Mathlib.Decide.{dec_lt}
use maistra_test_tool.Helper.Setup.{not_applicable}
use maistra_test_tool.Helper.{failed, t_of, step_of, get_t, current_step}
use maistra_test_tool.Helper.Isolation.{failures, Isolated, isolated_rules}
use maistra_test_tool.Retry.Attempt.{after_attempt, run_on, new_retry_test_helper, attempt_internal}
use maistra_test_tool.Retry.{prepare_retry, run_attempt, until_success_with_options, conclude}
use maistra_test_tool.Retry.Options.{RetryOptions}
use maistra_test_tool.Retry.Runs.{
  Failing, none_yet, one_more, Run, succeeded, conclude-IsQuiet, exhausted, cut_short, no_verdict,
}
use maistra_test_tool.Retry.Refinement.{prepare_retry-IsQuiet, until_success-Run}
use maistra_test_tool.Prelude.{
  ℕ, ◌≡◌, Bool, suc, ◌<◌, refl, arith, ◌≤◌, sym, ◌∙◌, false, [], ap, ◌⊎◌, inl, inr,
}
use maistra_test_tool.Prelude.Int.{ℤ, pos, ◌-ℤ◌, eqb_ℤ}
use maistra_test_tool.World.Testing.{t_failed}

-- On the helper of a retry, the operation marks no test as failed and leaves the helper in its place.
abbrev pub IsIsolated : (ℕ → Action Unit) → Type 0
IsIsolated f = (r : ℕ) (marks : ℕ → Bool) → Keeps (Isolated r marks) (f r)

after_attempt-Isolated :
    (r : ℕ) (marks : ℕ → Bool) (o : Outcome Unit) → Keeps (Isolated r marks) (after_attempt r o)
unfolding after_attempt
after_attempt-Isolated r marks (returned a) = search isolated_rules
after_attempt-Isolated r marks (panicked p) = search isolated_rules
after_attempt-Isolated r marks exited = search isolated_rules
after_attempt-Isolated r marks (crashed p) = search isolated_rules

pub failed-world : (a : ℕ) (w : World) → (failed a w).1 ≡ w
unfolding failed ◌>>=◌ t_failed not_applicable
failed-world a w = ground arith

pub before_last :
    (options : RetryOptions) (m i : ℕ)
    → options.max_attempts ≡ pos (suc m)
    → i < m
    → eqb_ℤ (pos i) (options.max_attempts -ℤ pos 1) ≡ false
unfolding ◌-ℤ◌
before_last options m i positive lt = rw positive (ground arith)

-- An equation of an action that keeps the marks, and what it says of them.
marks_after :
    {A : Type 0} (m : Action A) {o : Outcome A} (w : World) {w' : World}
    → m w ≡ (o, w')
    → failures (m w).1 ≡ failures w
    → failures w' ≡ failures w
marks_after m w e h = ap (λ (p : Outcome _ × World). failures p.1) (sym e) ∙ h

module _ (f : ℕ → Action Unit) (isolated : IsIsolated f) where
  run_on-Isolated : (r : ℕ) (marks : ℕ → Bool) → Keeps (Isolated r marks) (run_on r f)
  unfolding run_on
  run_on-Isolated r marks =
      Keeps-with_defer (f r) (after_attempt r) (isolated r marks) (after_attempt-Isolated r marks)

  -- An attempt on a helper of its own marks no test as failed.
  pub attempt_internal-failures :
      (h : ℕ) (i max : ℤ) (w : World) → failures (attempt_internal h f i max w).1 ≡ failures w
  unfolding attempt_internal new_retry_test_helper ◌>>=◌ get_t current_step
  attempt_internal-failures h i max w =
      let r = w.next_helper in
      let k : Keeps (Isolated r (failures w)) (run_on r f >> pure r) =
        search (isolated_rules, run_on-Isolated) in
      (k.at _ (record {
        object = record {
          helper = record { t = t_of (w.helpers h); current_step = step_of (w.helpers h) };
          failed = false;
          attempt = i;
          max_attempts = max;
          log_buffer = [];
        };
        stands = ground arith;
        same = refl;
      })).same

  module _ (h : ℕ) (options : RetryOptions) (start m : ℕ) (w : World)
      (positive : options.max_attempts ≡ pos (suc m)) where
    run_attempt-failures :
        (i : ℕ) (w1 : World) → i < m → failures (run_attempt h options f start i w1).1 ≡ failures w1
    unfolding run_attempt
    run_attempt-failures i w1 lt =
        rw (before_last options m i positive lt)
          (attempt_internal-failures h (pos i) options.max_attempts w1)

    attempt_marks :
        (i : ℕ) (w1 : World) {o : Outcome ℕ} {w2 : World}
        → i < m
        → run_attempt h options f start i w1 ≡ (o, w2)
        → failures w2 ≡ failures w1
    attempt_marks i w1 lt ran =
        marks_after (run_attempt h options f start i) w1 ran (run_attempt-failures i w1 lt)

    -- As many failed attempts as come before the last one mark no test.
    pub Failing-failures :
        {k : ℕ} {w' : World} → k ≤ m → Failing h options f start w k w' → failures w' ≡ failures w
    Failing-failures le none_yet = refl
    Failing-failures le (one_more {k} {a} {w1} {w2} {w3} failing ran asked done) =
        marks_after (prepare_retry h options k) w3 done
          ((prepare_retry-IsQuiet h options k).marks w3)
        ∙ (marks_after (failed a) w2 asked (ap failures (failed-world a w2))
            ∙ (attempt_marks k w1 (omega arith) ran ∙ Failing-failures (omega arith) failing))

    abbrev LastReached : Type 0
    LastReached = (w1 : World) × Failing h options f start w m w1

    reached :
        (k : ℕ) (w1 : World) → k ≤ m → Failing h options f start w k w1 → (k < m) ⊎ LastReached
    reached k w1 le failing = elim (dec_lt k m) [
      | yes lt ↦ inl lt
      | no ge ↦ let e : k ≡ m = omega arith in inr (w1, rw e at failing)
    ]

    -- A run changes the marks only if the last attempt is reached.
    Run-failures :
        {o : Outcome Unit} {w' : World}
        → Run h options f start m w o w'
        → (failures w' ≡ failures w) ⊎ LastReached
    Run-failures (succeeded {k} {a} {w1} {w2} {w3} le failing ran asked done) =
        elim (reached k w1 le failing) [
          | inl lt ↦ inl (
              marks_after (conclude h options start a k) w3 done
                ((conclude-IsQuiet h options start a k).marks w3)
              ∙ (marks_after (failed a) w2 asked (ap failures (failed-world a w2))
                  ∙ (attempt_marks k w1 lt ran ∙ Failing-failures le failing)))
          | inr last ↦ inr last
        ]
    Run-failures (exhausted {w1 = w1} failing ran asked done) = inr (w1, failing)
    Run-failures (cut_short {k} {w1} le failing ran u) = elim (reached k w1 le failing) [
      | inl lt ↦ inl (attempt_marks k w1 lt ran ∙ Failing-failures le failing)
      | inr last ↦ inr last
    ]
    Run-failures (no_verdict {k} {a} {w1} {w2} le failing ran asked u) =
        elim (reached k w1 le failing) [
          | inl lt ↦ inl (
              marks_after (failed a) w2 asked (ap failures (failed-world a w2))
              ∙ (attempt_marks k w1 lt ran ∙ Failing-failures le failing))
          | inr last ↦ inr last
        ]

-- If the operation reports its failures only through the helper that it is given, a retry with `m + 1`
-- attempts, however it ends, leaves the failure mark of every test as it was, unless its first `m` attempts all
-- failed.
pub until_success-failures :
    (h : ℕ) (options : RetryOptions) (f : ℕ → Action Unit) (m : ℕ) (w : World)
    → options.max_attempts ≡ pos (suc m)
    → IsIsolated f
    → (failures (until_success_with_options h options f w).1 ≡ failures w)
      ⊎ ((w1 : World) × Failing h options f w.clock w m w1)
until_success-failures h options f m w positive isolated =
    Run-failures f isolated h options w.clock m w positive
      (until_success-Run h options f m w positive)

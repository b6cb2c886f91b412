-- ===== src/Retry/Refinement.antt =====
-- pkg/util/retry/retry.go: `UntilSuccessWithOptions` and the runs of Retry/Runs.
use maistra_test_tool.World.{World, Action, Outcome, returned, panicked, exited, crashed, ◌>>=◌}
use maistra_test_tool.World.Binds.{
  Unfinished, by_panic, by_exit, by_crash, Unfinished-bind, gets_bind,
}
use native.Mathlib.Numerals.{add-one}
use maistra_test_tool.Helper.{failed}
use maistra_test_tool.Helper.Logging.{IsQuiet, quiet_rules}
use maistra_test_tool.Retry.{
  prepare_retry, give_up, conclude, run_attempt, round, rounds, until_success_with_options, sleep,
}
use maistra_test_tool.Retry.Options.{RetryOptions}
use maistra_test_tool.Retry.Runs.{
  Failing, none_yet, one_more, Run, succeeded, exhausted, cut_short, no_verdict, conclude-IsQuiet,
  give_up_lem, Unfinished-attempt, Unfinished-verdict, good_attempt, last_attempt, bad_attempt,
}
use maistra_test_tool.Prelude.{
  ℕ, suc, ◌+◌, ◌≤◌, ◌<◌, ◌≡◌, refl, ◌⊎◌, Bool, true, false, arith, inl, inr, zero, ap,
}
use maistra_test_tool.Prelude.Int.{ℤ, ◌-ℤ◌, eqb_ℤ, pos, pos_part}

sleep-IsQuiet : (d : ℤ) → IsQuiet (sleep d)
unfolding sleep ◌>>=◌
sleep-IsQuiet d = record { returns = λ w. refl; marks = λ w. refl }

pub prepare_retry-IsQuiet :
    (h : ℕ) (options : RetryOptions) (i : ℕ) → IsQuiet (prepare_retry h options i)
unfolding prepare_retry
prepare_retry-IsQuiet h options i = search (quiet_rules, sleep-IsQuiet) depth 12

pair : {A : Type 0} (m : Action A) {o : Outcome A} (w : World) → (m w).0 ≡ o → m w ≡ (o, (m w).1)
pair m w e = λ k. (e k, (m w).1)

module _ (h : ℕ) (options : RetryOptions) (f : ℕ → Action Unit) (start n i : ℕ) (w1 : World) where
  round_stops :
      {w2 : World}
      → round h options f start i w1 ≡ (returned false, w2)
      → rounds h options f start (suc n) i w1 ≡ (returned tt, w2)
  unfolding rounds ◌>>=◌
  round_stops e = rw e

  round_goes_on :
      {w2 : World}
      → round h options f start i w1 ≡ (returned true, w2)
      → rounds h options f start (suc n) i w1 ≡ rounds h options f start n (i + 1) w2
  unfolding rounds ◌>>=◌
  round_goes_on e = rw e

  round-Unfinished :
      {o : Outcome Bool} {o' : Outcome Unit} {w2 : World}
      → round h options f start i w1 ≡ (o, w2)
      → Unfinished o o'
      → rounds h options f start (suc n) i w1 ≡ (o', w2)
  unfolding rounds
  round-Unfinished e u = Unfinished-bind _ _ e u

module _ (h : ℕ) (options : RetryOptions) (f : ℕ → Action Unit) (start m : ℕ) (w : World)
    (positive : options.max_attempts ≡ pos (suc m)) where
  abbrev RunTo : Outcome Unit × World → Type 0
  RunTo (o, w') = Run h options f start m w o w'

  abbrev runs : ℕ → ℕ → World → Outcome Unit × World
  runs = rounds h options f start

  abbrev is_last : ℕ → Bool
  is_last i = eqb_ℤ (pos i) (options.max_attempts -ℤ pos 1)

  is_last_cases : (i : ℕ) → i ≤ m → ((is_last i ≡ true) × (i ≡ m)) ⊎ ((is_last i ≡ false) × (i < m))
  unfolding ◌-ℤ◌
  is_last_cases i le = rw positive (ground arith)

  exhausted_at :
      (i a : ℕ) (w1 w3 : World) {w2 w4 : World}
      → i ≡ m
      → Failing h options f start w i w1
      → run_attempt h options f start i w1 ≡ (returned a, w2)
      → failed a w2 ≡ (returned true, w3)
      → give_up h options i w3 ≡ (exited, w4)
      → RunTo (exited, w4)
  exhausted_at i a w1 w3 e failing ran asked done =
      exhausted (rw e at failing) (rw e at ran) asked (rw e at done)

  judged :
      (n i a : ℕ) (w1 w2 w3 : World) (o : Outcome Bool)
      → i ≤ m
      → Failing h options f start w i w1
      → run_attempt h options f start i w1 ≡ (returned a, w2)
      → failed a w2 ≡ (o, w3)
      → ((w4 : World) → i < m → Failing h options f start w (suc i) w4 → RunTo (runs n (i + 1) w4))
      → RunTo (runs (suc n) i w1)
  judged n i a w1 w2 w3 (returned false) le failing ran asked go_on =
      let done =
        pair (conclude h options start a i) w3
          ((conclude-IsQuiet h options start a i).returns w3) in
      rw (round_stops h options f start n i w1 (good_attempt h options f start i w1 ran asked done))
        (succeeded le failing ran asked done)
  judged n i a w1 w2 w3 (returned true) le failing ran asked go_on = elim (is_last_cases i le) [
    | inl (last, e) ↦
        let done = pair (give_up h options i) w3 (give_up_lem h options i w3).0 in
        rw
          (round-Unfinished h options f start n i w1
            (last_attempt h options f start i w1 last ran asked done) by_exit)
          (exhausted_at i a w1 w3 e failing ran asked done)
    | inr (other, lt) ↦
        let done =
          pair (prepare_retry h options i) w3 ((prepare_retry-IsQuiet h options i).returns w3) in
        rw
          (round_goes_on h options f start n i w1
            (bad_attempt h options f start i w1 other ran asked done))
          (go_on _ lt (one_more failing ran asked done))
  ]
  judged n i a w1 w2 w3 (panicked p) le failing ran asked go_on =
      rw
        (round-Unfinished h options f start n i w1
          (Unfinished-verdict h options f start i w1 ran asked (by_panic p)) (by_panic p))
        (no_verdict le failing ran asked (by_panic p))
  judged n i a w1 w2 w3 exited le failing ran asked go_on =
      rw
        (round-Unfinished h options f start n i w1
          (Unfinished-verdict h options f start i w1 ran asked by_exit) by_exit)
        (no_verdict le failing ran asked by_exit)
  judged n i a w1 w2 w3 (crashed p) le failing ran asked go_on =
      rw
        (round-Unfinished h options f start n i w1
          (Unfinished-verdict h options f start i w1 ran asked (by_crash p)) (by_crash p))
        (no_verdict le failing ran asked (by_crash p))

  attempted :
      (n i : ℕ) (w1 w2 : World) (o : Outcome ℕ)
      → i ≤ m
      → Failing h options f start w i w1
      → run_attempt h options f start i w1 ≡ (o, w2)
      → ((w4 : World) → i < m → Failing h options f start w (suc i) w4 → RunTo (runs n (i + 1) w4))
      → RunTo (runs (suc n) i w1)
  attempted n i w1 w2 (returned a) le failing ran go_on =
      judged n i a w1 w2 (failed a w2).1 (failed a w2).0 le failing ran refl go_on
  attempted n i w1 w2 (panicked p) le failing ran go_on =
      rw
        (round-Unfinished h options f start n i w1
          (Unfinished-attempt h options f start i w1 ran (by_panic p)) (by_panic p))
        (cut_short le failing ran (by_panic p))
  attempted n i w1 w2 exited le failing ran go_on =
      rw
        (round-Unfinished h options f start n i w1
          (Unfinished-attempt h options f start i w1 ran by_exit) by_exit)
        (cut_short le failing ran by_exit)
  attempted n i w1 w2 (crashed p) le failing ran go_on =
      rw
        (round-Unfinished h options f start n i w1
          (Unfinished-attempt h options f start i w1 ran (by_crash p)) (by_crash p))
        (cut_short le failing ran (by_crash p))

  rounds-Run :
      (n i : ℕ) (w1 : World)
      → i ≤ m
      → i + n ≡ suc m
      → Failing h options f start w i w1
      → RunTo (runs n i w1)
  rounds-Run zero i w1 le sum failing = absurd (omega arith)
  rounds-Run (suc n) i w1 le sum failing =
      attempted n i w1 (run_attempt h options f start i w1).1 (run_attempt h options f start i w1).0
        le failing refl
        (λ w4 lt failing'.
          rounds-Run n (i + 1) w4 (omega arith) (omega arith) (rw (← add-one) at failing'))

-- With `m + 1` attempts allowed, `UntilSuccessWithOptions` ends in one of four ways, and in no other: the
-- first attempt that does not fail, after attempts that all failed and were each prepared to be retried, makes it
-- return; if all `m + 1` attempts fail, the last one on the helper of the caller, it gives up; an attempt
-- that neither returns nor is recovered ends it in the same way; and so does a helper that cannot say whether it
-- failed.
pub until_success-Run :
    (h : ℕ) (options : RetryOptions) (f : ℕ → Action Unit) (m : ℕ) (w : World)
    → options.max_attempts ≡ pos (suc m)
    → let (o, w') = until_success_with_options h options f w in Run h options f w.clock m w o w'
unfolding until_success_with_options
until_success-Run h options f m w positive =
    let count : pos_part options.max_attempts ≡ suc m = ap pos_part positive in
    rw (gets_bind, count)
      (rounds-Run h options f w.clock m w positive (suc m) 0 w (omega arith) (omega arith) none_yet)

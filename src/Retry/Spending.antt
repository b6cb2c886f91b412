-- ===== src/Retry/Spending.antt =====
-- pkg/util/retry/retry.go: the time of a retry, and the commands that it runs.
use maistra_test_tool.World.{
  World, Action, Outcome, returned, panicked, exited, crashed, pure, ◌>>=◌, ◌>>◌,
}
use maistra_test_tool.World.Keeps.{Keeps, keeps_rules}
use maistra_test_tool.World.Onward.{Same}
use maistra_test_tool.World.Spending.{
  Meter, time, commands, Spends, Spends-pure, Still-Spends, Spends-more, Spends-if, Spends-bind,
  Spends-with_defer,
}
use maistra_test_tool.Retry.{
  sleep, fail_test, give_up, prepare_retry, conclude, run_attempt, round, rounds,
  until_success_with_options,
}
use maistra_test_tool.Retry.Attempt.{
  new_retry_test_helper, after_attempt, run_on, attempt_internal, attempt,
}
use maistra_test_tool.Retry.Options.{RetryOptions}
use maistra_test_tool.Prelude.{ℕ, zero, suc, ◌+◌, ◌*◌, ◌≤◌, ◌≡◌, arith, true, false, ap, length}
use maistra_test_tool.Prelude.Int.{ℤ, pos, pos_part, eqb_ℤ, ◌-ℤ◌}
use maistra_test_tool.Helper.Still.{
  still_rules, allocate-Still, failed-Still, get_t-Still, current_step-Still,
}

pub after_attempt-Still :
    {w0 : World} (h : ℕ) (o : Outcome Unit) → Keeps (Same w0) (after_attempt h o)
unfolding after_attempt
after_attempt-Still h (returned a) = search still_rules
after_attempt-Still h (panicked p) = search still_rules
after_attempt-Still h exited = search still_rules
after_attempt-Still h (crashed p) = search still_rules

fail_test-Still : {w0 : World} (h : ℕ) → Keeps (Same w0) (fail_test h)
unfolding fail_test
fail_test-Still h = search still_rules

pub give_up-Still :
    {w0 : World} (h : ℕ) (options : RetryOptions) (i : ℕ) → Keeps (Same w0) (give_up h options i)
unfolding give_up
give_up-Still h options i = search (still_rules, fail_test-Still)

pub conclude-Still :
    {w0 : World} (h : ℕ) (options : RetryOptions) (start a i : ℕ)
    → Keeps (Same w0) (conclude h options start a i)
unfolding conclude
conclude-Still h options start a i = search still_rules depth 20

-- What waiting between two attempts spends.
pub record SleepSpends (μ : Meter) (d : ℕ) (delay : ℤ) : Type 0 where
  pub spends : Spends μ d (sleep delay)

pub time-Sleep : (delay : ℤ) → SleepSpends time (pos_part delay) delay
unfolding sleep ◌>>=◌
time-Sleep delay = record { spends = record { at = λ w. omega arith } }

pub commands-Sleep : (delay : ℤ) → SleepSpends commands 0 delay
unfolding sleep ◌>>=◌
commands-Sleep delay = record { spends = record { at = λ w. omega arith } }

module _ {μ : Meter} where
  -- Where the whole is a sequence of parts that spend nothing but one.
  prepare_retry-Spends :
      (h : ℕ) (options : RetryOptions) (i : ℕ) {d : ℕ}
      → SleepSpends μ d options.delay_between_attempts
      → Spends μ d (prepare_retry h options i)
  unfolding prepare_retry
  prepare_retry-Spends h options i s = Spends-more _ (omega arith) (
      Spends-bind _ _ (Still-Spends _ λ w. search keeps_rules) (λ logged.
        Spends-bind _ _ (Still-Spends _ λ w. search keeps_rules)
          (λ shown. Spends-bind _ _ (Still-Spends _ λ w. search still_rules) (λ _. s.spends))))

  module _ (f : ℕ → Action Unit) (c : ℕ) (sf : (t : ℕ) → Spends μ c (f t)) where
    attempt_internal-Spends : (h : ℕ) (i max : ℤ) → Spends μ c (attempt_internal h f i max)
    unfolding attempt_internal new_retry_test_helper run_on
    attempt_internal-Spends h i max = Spends-more _ (omega arith) (
        Spends-bind _ _ (Still-Spends _ λ w. get_t-Still h) (λ t.
          Spends-bind _ _ (Still-Spends _ λ w. current_step-Still h) (λ step.
            Spends-bind _ _ (Still-Spends _ λ w. allocate-Still _) (λ r.
              Spends-bind _ _
                (Spends-with_defer (f r) (after_attempt r) (sf r)
                  (λ o. Still-Spends _ λ w. after_attempt-Still r o))
                (λ _. Spends-pure r)))))

    pub attempt-Spends : (h : ℕ) → Spends μ c (attempt h f)
    unfolding attempt
    attempt-Spends h = attempt_internal-Spends h _ _

    module _ (h : ℕ) (options : RetryOptions) (start : ℕ) {d : ℕ}
        (s : SleepSpends μ d options.delay_between_attempts) where
      run_attempt-Spends : (i : ℕ) → Spends μ c (run_attempt h options f start i)
      unfolding run_attempt
      run_attempt-Spends i =
          Spends-if _ _ _
            (Spends-more _ (omega arith) (Spends-bind _ _ (sf h) (λ _. Spends-pure h)))
            (attempt_internal-Spends h (pos i) options.max_attempts)

      again-Spends : (i : ℕ) (a : ℕ) → Spends μ 0 (do conclude h options start a i; pure false)
      again-Spends i a = Still-Spends _ λ w. search (keeps_rules, conclude-Still)

      giving_up-Spends : (i : ℕ) → Spends μ 0 (do give_up h options i; pure false)
      giving_up-Spends i = Still-Spends _ λ w. search (keeps_rules, give_up-Still)

      waiting-Spends : (i : ℕ) → Spends μ d (do prepare_retry h options i; pure true)
      waiting-Spends i =
          Spends-more _ (omega arith)
            (Spends-bind _ _ (prepare_retry-Spends h options i s) (λ _. Spends-pure true))

      last_round-Spends :
          (i : ℕ)
          → eqb_ℤ (pos i) (options.max_attempts -ℤ pos 1) ≡ true
          → Spends μ c (round h options f start i)
      unfolding round
      last_round-Spends i last = Spends-more _ (omega arith) (
          Spends-bind _ _ (run_attempt-Spends i) (λ a.
            Spends-bind _ _ (Still-Spends _ λ w. failed-Still a) (λ has_failed.
              Spends-if has_failed _ _
                (rw last (Still-Spends _ λ w. search (keeps_rules, give_up-Still)))
                (again-Spends i a))))

      round-Spends : (i : ℕ) → Spends μ (c + d) (round h options f start i)
      unfolding round
      round-Spends i = Spends-more _ (omega arith) (
          Spends-bind _ _ (run_attempt-Spends i) (λ a.
            Spends-bind _ _ (Still-Spends _ λ w. failed-Still a) (λ has_failed.
              Spends-if {c = d} has_failed _ _
                (Spends-if {c = d} (eqb_ℤ (pos i) (options.max_attempts -ℤ pos 1)) _ _
                  (Spends-more _ (omega arith) (giving_up-Spends i)) (waiting-Spends i))
                (Spends-more _ (omega arith) (again-Spends i a)))))

      module _ (m : ℕ) (positive : options.max_attempts ≡ pos (suc m)) where
        -- Of the rounds that are left, all but the last one may wait.
        budget : ℕ → ℕ
        budget zero = 0
        budget (suc zero) = c
        budget (suc (suc n)) = c + d + budget (suc n)

        is_last : (i : ℕ) → i ≡ m → eqb_ℤ (pos i) (options.max_attempts -ℤ pos 1) ≡ true
        unfolding ◌-ℤ◌
        is_last i e = rw positive (ground arith)

        rounds-Spends :
            (n i : ℕ) → n + i ≡ suc m → Spends μ (budget n) (rounds h options f start n i)
        unfolding rounds budget
        rounds-Spends zero i e = Spends-pure tt
        rounds-Spends (suc zero) i e = Spends-more _ (omega arith) (
            Spends-bind _ _ (last_round-Spends i (is_last i (omega arith))) (λ again.
              Spends-if {c = 0} again _ _ (rounds-Spends zero (i + 1) (omega arith))
                (Spends-pure tt)))
        rounds-Spends (suc (suc n)) i e = Spends-bind _ _ (round-Spends i) (λ again.
            Spends-if {c = budget (suc n)} again _ _ (rounds-Spends (suc n) (i + 1) (omega arith))
              (Spends-more _ (omega arith) (Spends-pure tt)))

        budget_lem : (n : ℕ) → budget (suc n) ≡ suc n * c + n * d
        unfolding budget
        budget_lem zero = grind arith
        budget_lem (suc n) = let ih = budget_lem n in grind (arith, ih)

module _ {μ : Meter} (f : ℕ → Action Unit) (c : ℕ) (sf : (t : ℕ) → Spends μ c (f t)) where
  pub until_success-Spends :
      (h : ℕ) (options : RetryOptions) (m : ℕ) {d : ℕ}
      → SleepSpends μ d options.delay_between_attempts
      → options.max_attempts ≡ pos (suc m)
      → Spends μ (suc m * c + m * d) (until_success_with_options h options f)
  unfolding until_success_with_options
  until_success-Spends h options m {d} s positive =
      let count : pos_part options.max_attempts ≡ suc m = ap pos_part positive in
      rw count (
        Spends-more _ (omega arith) (
          Spends-bind {d = suc m * c + m * d} _ _ (Still-Spends _ λ w. search keeps_rules) (λ start.
            let whole = budget_lem f c sf h options start s m positive m in
            Spends-more _ (omega (arith, whole))
              (rounds-Spends f c sf h options start s m positive (suc m) 0 (omega arith)))))

-- An operation that takes at most the time `c` and runs at most `n` commands, on whatever helper and however it ends:
-- a retry of it with `m + 1` attempts, however it ends, takes at most `m + 1` times `c` and `m` times the delay
-- between attempts, and runs at most `m + 1` times `n` commands.
pub until_success-bounds :
    (h : ℕ) (options : RetryOptions) (f : ℕ → Action Unit) (m c n : ℕ)
    → options.max_attempts ≡ pos (suc m)
    → ((t : ℕ) (w : World) → (f t w).1.clock ≤ w.clock + c)
    → ((t : ℕ) (w : World) → length (f t w).1.trace ≤ length w.trace + n)
    → (w : World)
    → let w' = (until_success_with_options h options f w).1 in
      (w'.clock ≤ w.clock + (suc m * c + m * pos_part options.delay_between_attempts))
      × (length w'.trace ≤ length w.trace + suc m * n)
until_success-bounds h options f m c n positive takes runs w =
    let bound =
      (until_success-Spends {μ = commands} f n (λ t. record { at = runs t }) h options m
          (commands-Sleep options.delay_between_attempts) positive).at
        w in
    (
      (until_success-Spends {μ = time} f c (λ t. record { at = takes t }) h options m
            (time-Sleep options.delay_between_attempts) positive).at
          w,
      grind (arith, bound),
    )

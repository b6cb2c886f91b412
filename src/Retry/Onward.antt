-- ===== src/Retry/Onward.antt =====
-- pkg/util/retry/retry.go: a retry only goes on in time, apart from what its operation does.
use maistra_test_tool.World.{World, Action, Outcome, returned, panicked, exited, crashed}
use maistra_test_tool.World.Keeps.{
  Keeps-if, Keeps-pure, Keeps, Keeps-bind, Keeps-modify, Keeps-with_defer, keeps_rules,
}
use maistra_test_tool.World.Onward.{After}
use maistra_test_tool.Helper.Onward.{onward_rules}
use maistra_test_tool.Retry.{
  sleep, fail_test, give_up, prepare_retry, conclude, run_attempt, round, rounds,
  until_success_with_options, until_success,
}
use maistra_test_tool.Retry.Attempt.{
  new_retry_test_helper, after_attempt, run_on, attempt_internal, attempt,
}
use maistra_test_tool.Retry.Options.{RetryOptions}
use maistra_test_tool.Prelude.{ℕ, zero, suc, ◌+◌, arith}
use maistra_test_tool.Prelude.Int.{ℤ}

module _ {w0 : World} where
  pub sleep-Onward : (d : ℤ) → Keeps (After w0) (sleep d)
  unfolding sleep
  sleep-Onward d = Keeps-modify _ (λ w a. record {
    outside = a.outside;
    env = a.env;
    clock = let c = a.clock in omega arith;
    newer = a.newer;
    trace = a.trace;
    under = a.under;
  })

  fail_test-Onward : (h : ℕ) → Keeps (After w0) (fail_test h)
  unfolding fail_test
  fail_test-Onward h = search onward_rules

  after_attempt-Onward : (h : ℕ) (o : Outcome Unit) → Keeps (After w0) (after_attempt h o)
  unfolding after_attempt
  after_attempt-Onward h (returned a) = search onward_rules
  after_attempt-Onward h (panicked p) = search onward_rules
  after_attempt-Onward h exited = search onward_rules
  after_attempt-Onward h (crashed p) = search onward_rules

  module _ (h : ℕ) (options : RetryOptions) where
    give_up-Onward : (i : ℕ) → Keeps (After w0) (give_up h options i)
    unfolding give_up
    give_up-Onward i = search (onward_rules, fail_test-Onward)

    prepare_retry-Onward : (i : ℕ) → Keeps (After w0) (prepare_retry h options i)
    unfolding prepare_retry
    prepare_retry-Onward i = search (onward_rules, sleep-Onward)

    conclude-Onward : (start a i : ℕ) → Keeps (After w0) (conclude h options start a i)
    unfolding conclude
    conclude-Onward start a i = search onward_rules depth 20

  module _ (f : ℕ → Action Unit) (k : (t : ℕ) → Keeps (After w0) (f t)) where
    run_on-Onward : (r : ℕ) → Keeps (After w0) (run_on r f)
    unfolding run_on
    run_on-Onward r = Keeps-with_defer (f r) (after_attempt r) (k r) (after_attempt-Onward r)

    attempt_internal-Onward : (h : ℕ) (i max : ℤ) → Keeps (After w0) (attempt_internal h f i max)
    unfolding attempt_internal new_retry_test_helper
    attempt_internal-Onward h i max = search (onward_rules, run_on-Onward)

    pub attempt-Onward : (h : ℕ) → Keeps (After w0) (attempt h f)
    unfolding attempt
    attempt-Onward h = attempt_internal-Onward h _ _

    module _ (h : ℕ) (options : RetryOptions) (start : ℕ) where
      round-Onward : (i : ℕ) → Keeps (After w0) (round h options f start i)
      unfolding round run_attempt
      round-Onward i =
          search
            (
              onward_rules, k, attempt_internal-Onward, give_up-Onward, prepare_retry-Onward,
              conclude-Onward,
            )
            depth 20

      rounds-Onward : (n i : ℕ) → Keeps (After w0) (rounds h options f start n i)
      unfolding rounds
      rounds-Onward zero i = search keeps_rules
      rounds-Onward (suc n) i =
          Keeps-bind _ _ (round-Onward i)
            (λ again. Keeps-if again _ _ (rounds-Onward n (i + 1)) (Keeps-pure tt))

    pub until_success_with_options-Onward :
        (h : ℕ) (options : RetryOptions) → Keeps (After w0) (until_success_with_options h options f)
    unfolding until_success_with_options
    until_success_with_options-Onward h options = search (keeps_rules, rounds-Onward)

    pub until_success-Onward : (h : ℕ) → Keeps (After w0) (until_success h f)
    unfolding until_success
    until_success-Onward h = until_success_with_options-Onward h _

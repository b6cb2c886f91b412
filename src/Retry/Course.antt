-- ===== src/Retry/Course.antt =====
-- pkg/util/retry/retry.go: what a retry does, told without the functions of the package: on which helper the operation
-- runs, what becomes of the way it ends, and what stands between two attempts.
pub mod Told
use maistra_test_tool.World.{World, Outcome, panicked, returned, exited, string, retry, update}
use maistra_test_tool.World.Binds.{Unfinished}
use maistra_test_tool.World.{Action}
use maistra_test_tool.Helper.{failed, fail, retry_panic_key, t_of, step_of}
use maistra_test_tool.Helper.Isolation.{failures}
use maistra_test_tool.Retry.Options.{RetryOptions}
use maistra_test_tool.Prelude.{ℕ, suc, ◌+◌, ◌≤◌, ◌<◌, ◌≡◌, ◌≢◌, true, false, [], Bool}
use maistra_test_tool.Prelude.Int.{pos, pos_part}
use maistra_test_tool.World.Spending.{time}

-- A call that goes on with `g` of what another returns, and ends as the other does if this does not return.
pub data Passed {A B : Type 0} (g : A → B) : Outcome A → Outcome B → Type 0 where
  on_return : (a : A) → Passed g (returned a) (returned (g a))
  on_loss : {o : Outcome A} {o' : Outcome B} → Unfinished o o' → Passed g o o'

-- Nothing but helpers and logs differs and the clock, by the time; the same tests are marked as failed.
pub record Pause (time : ℕ) (w w' : World) : Type 0 where
  pub clock : w'.clock ≡ w.clock + time
  pub outside : w'.outside ≡ w.outside
  pub env : w'.env ≡ w.env
  pub trace : w'.trace ≡ w.trace
  pub marks : failures w' ≡ failures w

module _ (h : ℕ) (options : RetryOptions) (f : ℕ → Action Unit) (m : ℕ) where
  -- The world with a new helper for attempt `i`: one for the test and the step of `h`, with no failure and an empty
  -- buffer.
  abbrev pub with_own_helper : ℕ → World → World
  with_own_helper i w = record w {
    helpers = update w.helpers w.next_helper (
        retry (record {
          helper = record { t = t_of (w.helpers h); current_step = step_of (w.helpers h) };
          failed = false;
          attempt = pos i;
          max_attempts = options.max_attempts;
          log_buffer = [];
        }));
    next_helper = w.next_helper + 1;
  }

  -- Attempt `i`, by how it ends: it gives the helper that it was made on, or does not return.
  pub data Attempted (i : ℕ) (w : World) : Outcome ℕ → World → Type 0 where
    -- Before the last attempt, the operation runs on a new helper, and returns.
    completed :
        {w' : World}
        → i < m
        → f w.next_helper (with_own_helper i w) ≡ (returned tt, w')
        → Attempted i w (returned w.next_helper) w'
    -- It panics with the key of FailNow: then Fail is called on that helper.
    given_up :
        {v w' : World} {o : Outcome Unit} {o' : Outcome ℕ}
        → i < m
        → f w.next_helper (with_own_helper i w) ≡ (panicked (string retry_panic_key), v)
        → fail w.next_helper v ≡ (o, w')
        → Passed (λ u. w.next_helper) o o'
        → Attempted i w o' w'
    -- It does not return in any other way.
    lost :
        {w' : World} {o : Outcome Unit} {o' : Outcome ℕ}
        → i < m
        → f w.next_helper (with_own_helper i w) ≡ (o, w')
        → o ≢ panicked (string retry_panic_key)
        → Unfinished o o'
        → Attempted i w o' w'
    -- The last attempt is the operation on the helper of the caller.
    last :
        {w' : World} {o : Outcome Unit} {o' : Outcome ℕ}
        → i ≡ m
        → f h w ≡ (o, w')
        → Passed (λ u. h) o o'
        → Attempted i w o' w'

  -- `k` attempts, counted from 0, have failed, and the delay was waited after each.
  pub data Tries (w : World) : ℕ → World → Type 0 where
    no_tries : Tries w 0 w
    one_more_try :
        {k a : ℕ} {w1 w2 w3 w4 : World}
        → Tries w k w1
        → Attempted k w1 (returned a) w2
        → failed a w2 ≡ (returned true, w3)
        → Pause (pos_part options.delay_between_attempts) w3 w4
        → Tries w (suc k) w4

  -- A retry with at most `m + 1` attempts from `w`, by how it ends and in which world.
  pub data Course (w : World) : Outcome Unit → World → Type 0 where
    -- Attempt `k` is the first that does not fail.
    succeeds :
        {k a : ℕ} {w1 w2 w3 w4 : World}
        → k ≤ m
        → Tries w k w1
        → Attempted k w1 (returned a) w2
        → failed a w2 ≡ (returned false, w3)
        → Pause 0 w3 w4
        → Course w (returned tt) w4
    -- All attempts failed, the last one too: the goroutine ends with the test of the helper marked as failed, and with
    -- no command run.
    gives_up :
        {a : ℕ} {w1 w2 w3 w4 : World}
        → Tries w m w1
        → Attempted m w1 (returned a) w2
        → failed a w2 ≡ (returned true, w3)
        → failures w4 (t_of (w3.helpers h)) ≡ true
        → w4.trace ≡ w3.trace
        → w4.clock ≡ w3.clock
        → Course w exited w4
    -- Attempt `k` did not return.
    is_cut_short :
        {k : ℕ} {w1 w2 : World} {o : Outcome ℕ} {o' : Outcome Unit}
        → k ≤ m
        → Tries w k w1
        → Attempted k w1 o w2
        → Unfinished o o'
        → Course w o' w2
    -- The helper does not tell whether it failed, as that of a setup does not.
    is_not_judged :
        {k a : ℕ} {w1 w2 w3 : World} {o : Outcome Bool} {o' : Outcome Unit}
        → k ≤ m
        → Tries w k w1
        → Attempted k w1 (returned a) w2
        → failed a w2 ≡ (o, w3)
        → Unfinished o o'
        → Course w o' w3

-- ===== src/Retry/Runs.antt =====
-- pkg/util/retry/retry.go: what a run of `UntilSuccessWithOptions` is, failed attempts and then one of
-- the ways in which the loop ends.
use maistra_test_tool.World.{World, Action, Outcome, returned, exited, ◌>>=◌, ◌>>◌, when}
use maistra_test_tool.World.Testing.{t_fail_now}
use maistra_test_tool.Helper.{log, failed, get_t, t_of}
use maistra_test_tool.Helper.Isolation.{failures}
use maistra_test_tool.Helper.Logging.{IsQuiet, quiet_rules, log-IsQuiet, bind_returned, t_of-log}
use maistra_test_tool.Retry.{prepare_retry, give_up, conclude, run_attempt, round, fail_test}
use maistra_test_tool.Retry.Options.{RetryOptions}
use maistra_test_tool.Prelude.{ℕ, ◌≡◌, true, refl, Bool, false, arith, suc, ◌≤◌, ◌∙◌}
use maistra_test_tool.Text.{Text}
use maistra_test_tool.Prelude.Int.{pos, ◌-ℤ◌, eqb_ℤ}
use maistra_test_tool.World.Binds.{Unfinished, returned_bind, Unfinished-bind, gets_bind}

-- The test of the helper `h`.
abbrev pub test_of : ℕ → World → ℕ
test_of h w = t_of (w.helpers h)

module _ (h : ℕ) (options : RetryOptions) where
  -- Concluding an attempt that did not fail returns, and marks no test.
  pub conclude-IsQuiet : (start a i : ℕ) → IsQuiet (conclude h options start a i)
  unfolding conclude
  conclude-IsQuiet start a i = search quiet_rules depth 12

  fail_test_lem :
      (w : World) → ((fail_test h w).0 ≡ exited) × (failures (fail_test h w).1 (test_of h w) ≡ true)
  unfolding fail_test ◌>>=◌ get_t t_fail_now
  fail_test_lem w = (refl, ground arith)

  logged_fail_test :
      (b : Bool) (msg : Text) (w : World)
      → let (o, w') = (when b (log h msg) >> fail_test h) w in
        (o ≡ exited) × (failures w' (test_of h w) ≡ true)
  logged_fail_test true msg w =
      unfold ◌>>=◌ in
      rw (bind_returned (log h msg) (fail_test h) w ((log-IsQuiet h msg).returns w))
        (rw (← t_of-log h h msg w) (fail_test_lem (log h msg w).1))
  logged_fail_test false msg w = unfold ◌>>=◌ in fail_test_lem w

  -- Giving up ends the goroutine, and the test of the helper is marked as failed.
  pub give_up_lem :
      (i : ℕ) (w : World)
      → ((give_up h options i w).0 ≡ exited)
        × (failures (give_up h options i w).1 (test_of h w) ≡ true)
  unfolding give_up
  give_up_lem i w = rw gets_bind (logged_fail_test _ _ w)

module _ (h : ℕ) (options : RetryOptions) (f : ℕ → Action Unit) (start : ℕ) where
  -- `k` attempts, counted from 0, have failed on the way from one world to another.
  pub data Failing (w : World) : ℕ → World → Type 0 where
    none_yet : Failing w 0 w
    one_more :
        {k a : ℕ} {w1 w2 w3 w4 : World}
        → Failing w k w1
        → run_attempt h options f start k w1 ≡ (returned a, w2)
        → failed a w2 ≡ (returned true, w3)
        → prepare_retry h options k w3 ≡ (returned tt, w4)
        → Failing w (suc k) w4

  -- A run of at most `m + 1` attempts from `w`, by how it ends and in which world.
  pub data Run (m : ℕ) (w : World) : Outcome Unit → World → Type 0 where
    -- Attempt `k` is the first that does not fail.
    succeeded :
        {k a : ℕ} {w1 w2 w3 w4 : World}
        → k ≤ m
        → Failing w k w1
        → run_attempt h options f start k w1 ≡ (returned a, w2)
        → failed a w2 ≡ (returned false, w3)
        → conclude h options start a k w3 ≡ (returned tt, w4)
        → Run m w (returned tt) w4
    -- All attempts failed, the last one too.
    exhausted :
        {a : ℕ} {w1 w2 w3 w4 : World}
        → Failing w m w1
        → run_attempt h options f start m w1 ≡ (returned a, w2)
        → failed a w2 ≡ (returned true, w3)
        → give_up h options m w3 ≡ (exited, w4)
        → Run m w exited w4
    -- Attempt `k` did not return.
    cut_short :
        {k : ℕ} {w1 w2 : World} {o : Outcome ℕ} {o' : Outcome Unit}
        → k ≤ m
        → Failing w k w1
        → run_attempt h options f start k w1 ≡ (o, w2)
        → Unfinished o o'
        → Run m w o' w2
    -- The helper does not tell whether it failed, as that of a setup does not.
    no_verdict :
        {k a : ℕ} {w1 w2 w3 : World} {o : Outcome Bool} {o' : Outcome Unit}
        → k ≤ m
        → Failing w k w1
        → run_attempt h options f start k w1 ≡ (returned a, w2)
        → failed a w2 ≡ (o, w3)
        → Unfinished o o'
        → Run m w o' w3

  pub Unfinished-attempt :
      (i : ℕ) (w1 : World) {o : Outcome ℕ} {o' : Outcome Bool} {w2 : World}
      → run_attempt h options f start i w1 ≡ (o, w2)
      → Unfinished o o'
      → round h options f start i w1 ≡ (o', w2)
  unfolding round
  Unfinished-attempt i w1 ran u = Unfinished-bind _ _ ran u

  pub Unfinished-verdict :
      (i : ℕ) (w1 : World) {a : ℕ} {o : Outcome Bool} {o' : Outcome Bool} {w2 w3 : World}
      → run_attempt h options f start i w1 ≡ (returned a, w2)
      → failed a w2 ≡ (o, w3)
      → Unfinished o o'
      → round h options f start i w1 ≡ (o', w3)
  unfolding round
  Unfinished-verdict i w1 ran asked u = returned_bind _ _ ran ∙ Unfinished-bind _ _ asked u

  -- The round of an attempt that did not fail is the last one.
  pub good_attempt :
      (i : ℕ) (w1 : World) {a : ℕ} {w2 w3 w4 : World}
      → run_attempt h options f start i w1 ≡ (returned a, w2)
      → failed a w2 ≡ (returned false, w3)
      → conclude h options start a i w3 ≡ (returned tt, w4)
      → round h options f start i w1 ≡ (returned false, w4)
  unfolding round ◌>>=◌
  good_attempt i w1 ran asked done = rw (ran, asked, done)

  pub last_attempt :
      (i : ℕ) (w1 : World) {a : ℕ} {w2 w3 w4 : World}
      → eqb_ℤ (pos i) (options.max_attempts -ℤ pos 1) ≡ true
      → run_attempt h options f start i w1 ≡ (returned a, w2)
      → failed a w2 ≡ (returned true, w3)
      → give_up h options i w3 ≡ (exited, w4)
      → round h options f start i w1 ≡ (exited, w4)
  unfolding round ◌>>=◌
  last_attempt i w1 last ran asked done = rw (ran, asked, last, done)

  pub bad_attempt :
      (i : ℕ) (w1 : World) {a : ℕ} {w2 w3 w4 : World}
      → eqb_ℤ (pos i) (options.max_attempts -ℤ pos 1) ≡ false
      → run_attempt h options f start i w1 ≡ (returned a, w2)
      → failed a w2 ≡ (returned true, w3)
      → prepare_retry h options i w3 ≡ (returned tt, w4)
      → round h options f start i w1 ≡ (returned true, w4)
  unfolding round ◌>>=◌
  bad_attempt i w1 last ran asked done = rw (ran, asked, last, done)

-- ===== src/Helper/Isolation.antt =====
-- pkg/util/test/test_helper_retry.go: which methods of the helper of a retry touch a test.
use maistra_test_tool.World.{World, Action, Helper, RetryTestHelper, retry, ◌>>=◌, TestHelper}
use maistra_test_tool.World.Keeps.{Keeps, keeps_rules}
use maistra_test_tool.World.Testing.{t_log, with_output}
use maistra_test_tool.Helper.{
  load, store, log, fail, fail_now, error, fatal, log_success, base_log, log_or_append_to_buffer,
  will_retry,
}
use maistra_test_tool.Prelude.{ℕ, ◌≡◌, ◌∙◌, fun_ext, Bool, true, arith}
use maistra_test_tool.Text.{Text}

-- The failure marks of all tests.
abbrev pub failures : World → ℕ → Bool
failures w a = (w.ts a).failed

pub failures-t_log : (t : ℕ) (msg : Text) (w : World) → failures (t_log t msg w).1 ≡ failures w
unfolding t_log ◌>>=◌ with_output
failures-t_log t msg w = fun_ext λ a. ground arith

-- At `r` stands a helper of a retry, and the failure marks are `marks`.
pub record Isolated (r : ℕ) (marks : ℕ → Bool) (w : World) : Type 0 where
  pub object : RetryTestHelper
  pub stands : w.helpers r ≡ retry object
  pub same : failures w ≡ marks

module _ {r : ℕ} {marks : ℕ → Bool} where
  pub t_log-Isolated : (t : ℕ) (msg : Text) → Keeps (Isolated r marks) (t_log t msg)
  t_log-Isolated t msg = record {
    at = λ w h. record {
      object = h.object;
      stands = unfold t_log ◌>>=◌ in h.stands;
      same = failures-t_log t msg w ∙ h.same;
    };
  }

  store-Isolated : (o : RetryTestHelper) → Keeps (Isolated r marks) (store r (retry o))
  unfolding store ◌>>=◌
  store-Isolated o = record {
    at = λ w h. record { object = o; stands = ground arith; same = h.same };
  }

  -- A method is known once the object is.
  load-Isolated :
      {A : Type 0} (method : Helper → Action A)
      → ((o : RetryTestHelper) → Keeps (Isolated r marks) (method (retry o)))
      → Keeps (Isolated r marks) (load r >>= method)
  unfolding load ◌>>=◌
  load-Isolated method k = record { at = λ w h. rw h.stands ((k h.object).at w h) }

  base_log-Isolated : (o : TestHelper) (msg : Text) → Keeps (Isolated r marks) (base_log o msg)
  unfolding base_log
  base_log-Isolated o msg = t_log-Isolated o.t _

  buffer-Isolated :
      (o : RetryTestHelper) (msg : Text)
      → Keeps (Isolated r marks) (log_or_append_to_buffer r o msg)
  unfolding log_or_append_to_buffer
  buffer-Isolated o msg = search (keeps_rules, base_log-Isolated, store-Isolated)

  pub log-Isolated : (msg : Text) → Keeps (Isolated r marks) (log r msg)
  unfolding log
  log-Isolated msg = load-Isolated _ λ o. buffer-Isolated o msg

  pub log_success-Isolated : (msg : Text) → Keeps (Isolated r marks) (log_success r msg)
  unfolding log_success
  log_success-Isolated msg = load-Isolated _ λ o. buffer-Isolated o _

  pub fail-Isolated : Keeps (Isolated r marks) (fail r)
  unfolding fail
  fail-Isolated = load-Isolated _ λ o. store-Isolated (record o { failed = true })

  pub fail_now-Isolated : Keeps (Isolated r marks) (fail_now r)
  unfolding fail_now
  fail_now-Isolated = load-Isolated _ λ o. search (keeps_rules, fail-Isolated)

  pub error-Isolated : (msg : Text) → Keeps (Isolated r marks) (error r msg)
  unfolding error
  error-Isolated msg = load-Isolated _ λ o. search (keeps_rules, log-Isolated, fail-Isolated)

  pub fatal-Isolated : (msg : Text) → Keeps (Isolated r marks) (fatal r msg)
  unfolding fatal
  fatal-Isolated msg = load-Isolated _ λ o. search (keeps_rules, error-Isolated, fail_now-Isolated)

  pub will_retry-Isolated : Keeps (Isolated r marks) (will_retry r)
  unfolding will_retry
  will_retry-Isolated = load-Isolated _ λ o. search keeps_rules

pub ruleset isolated_rules = (
  keeps_rules, t_log-Isolated, log-Isolated, log_success-Isolated, fail-Isolated, fail_now-Isolated,
  error-Isolated, fatal-Isolated, will_retry-Isolated,
)

-- ===== src/Helper/Onward.antt =====
-- pkg/util/test/test_helper*.go: the methods of the helpers, as actions that only go on.
use maistra_test_tool.World.{World, Helper}
use maistra_test_tool.World.Keeps.{Keeps, keeps_rules}
use maistra_test_tool.World.Testing.{t_fail_now}
use maistra_test_tool.World.Onward.{After, Still-Onward}
use maistra_test_tool.Helper.{
  log, log_success, fail, fail_now, error, fatal, failed, will_retry, flush_log_buffer, get_t,
  current_step, allocate,
}
use maistra_test_tool.Helper.Still.{
  log-Still, log_success-Still, fail-Still, fail_now-Still, error-Still, fatal-Still, failed-Still,
  will_retry-Still, flush_log_buffer-Still, get_t-Still, current_step-Still, allocate-Still,
  t_fail_now-Still,
}
use maistra_test_tool.Prelude.{ℕ}
use maistra_test_tool.Text.{Text}

module _ {w0 : World} where
  pub t_fail_now-Onward : (t : ℕ) → Keeps (After w0) (t_fail_now t)
  t_fail_now-Onward t = Still-Onward _ λ w. t_fail_now-Still t

  pub log-Onward : (h : ℕ) (msg : Text) → Keeps (After w0) (log h msg)
  log-Onward h msg = Still-Onward _ λ w. log-Still h msg

  pub log_success-Onward : (h : ℕ) (msg : Text) → Keeps (After w0) (log_success h msg)
  log_success-Onward h msg = Still-Onward _ λ w. log_success-Still h msg

  pub fail-Onward : (h : ℕ) → Keeps (After w0) (fail h)
  fail-Onward h = Still-Onward _ λ w. fail-Still h

  pub fail_now-Onward : (h : ℕ) → Keeps (After w0) (fail_now h)
  fail_now-Onward h = Still-Onward _ λ w. fail_now-Still h

  pub error-Onward : (h : ℕ) (msg : Text) → Keeps (After w0) (error h msg)
  error-Onward h msg = Still-Onward _ λ w. error-Still h msg

  pub fatal-Onward : (h : ℕ) (msg : Text) → Keeps (After w0) (fatal h msg)
  fatal-Onward h msg = Still-Onward _ λ w. fatal-Still h msg

  pub failed-Onward : (h : ℕ) → Keeps (After w0) (failed h)
  failed-Onward h = Still-Onward _ λ w. failed-Still h

  pub will_retry-Onward : (h : ℕ) → Keeps (After w0) (will_retry h)
  will_retry-Onward h = Still-Onward _ λ w. will_retry-Still h

  pub flush_log_buffer-Onward : (h : ℕ) → Keeps (After w0) (flush_log_buffer h)
  flush_log_buffer-Onward h = Still-Onward _ λ w. flush_log_buffer-Still h

  pub get_t-Onward : (h : ℕ) → Keeps (After w0) (get_t h)
  get_t-Onward h = Still-Onward _ λ w. get_t-Still h

  pub current_step-Onward : (h : ℕ) → Keeps (After w0) (current_step h)
  current_step-Onward h = Still-Onward _ λ w. current_step-Still h

  pub allocate-Onward : (o : Helper) → Keeps (After w0) (allocate o)
  allocate-Onward o = Still-Onward _ λ w. allocate-Still o

pub ruleset onward_rules = (
  keeps_rules, t_fail_now-Onward, log-Onward, log_success-Onward, fail-Onward, fail_now-Onward,
  error-Onward, fatal-Onward, failed-Onward, will_retry-Onward, flush_log_buffer-Onward,
  get_t-Onward, current_step-Onward, allocate-Onward,
)

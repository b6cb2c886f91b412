-- ===== src/Helper/Still.antt =====
-- pkg/util/test/test_helper*.go: the methods of the helpers change helpers and tests only.
use maistra_test_tool.World.{
  World, Action, Helper, ◌>>=◌, TestHelper, RetryTestHelper, plain, retry, flaky, setup,
  FlakyTestHelper, SetupTestHelper,
}
use maistra_test_tool.World.Keeps.{Keeps, keeps_rules, Keeps-bind, Keeps-gets}
use maistra_test_tool.World.Onward.{Same, Same-trans, modify-Still, modify-Still}
use maistra_test_tool.World.Testing.{t_log, t_fail, t_fail_now, t_failed}
use maistra_test_tool.Helper.{
  load, store, allocate, base_log, log_or_append_to_buffer, log, log_success, fail, fail_now, error,
  before_fail_now, fatal, failed, will_retry, flush_log_buffer_of, flush_log_buffer, get_t,
  current_step,
}
use maistra_test_tool.Prelude.{ℕ, refl}
use maistra_test_tool.Text.{Text}
use maistra_test_tool.Helper.Setup.{setup_log, not_applicable, setup_fail, setup_fail_now}

module _ {w0 : World} where
  pub t_log-Still : (t : ℕ) (msg : Text) → Keeps (Same w0) (t_log t msg)
  unfolding t_log
  t_log-Still t msg = modify-Still _ λ w. record {
    outside = refl;
    env = refl;
    clock = refl;
    trace = refl;
    pool = refl;
    tempo = refl;
    otel = refl;
  }

  pub t_fail-Still : (t : ℕ) → Keeps (Same w0) (t_fail t)
  unfolding t_fail
  t_fail-Still t = modify-Still _ λ w. record {
    outside = refl;
    env = refl;
    clock = refl;
    trace = refl;
    pool = refl;
    tempo = refl;
    otel = refl;
  }

  pub store-Still : (h : ℕ) (o : Helper) → Keeps (Same w0) (store h o)
  unfolding store
  store-Still h o = modify-Still _ λ w. record {
    outside = refl;
    env = refl;
    clock = refl;
    trace = refl;
    pool = refl;
    tempo = refl;
    otel = refl;
  }

  pub allocate-Still : (o : Helper) → Keeps (Same w0) (allocate o)
  unfolding allocate
  allocate-Still o = record {
    at = λ w h.
        Same-trans
          (record {
            outside = refl;
            env = refl;
            clock = refl;
            trace = refl;
            pool = refl;
            tempo = refl;
            otel = refl;
          })
          h;
  }

  setup_log-Still : (msg : Text) → Keeps (Same w0) (setup_log msg)
  unfolding setup_log
  setup_log-Still msg = modify-Still _ λ w. record {
    outside = refl;
    env = refl;
    clock = refl;
    trace = refl;
    pool = refl;
    tempo = refl;
    otel = refl;
  }

  not_applicable-Still : {A : Type 0} → Keeps (Same w0) (not_applicable {A = A})
  unfolding not_applicable
  not_applicable-Still = search keeps_rules

  -- A method is known once the object is.
  load-Still :
      {A : Type 0} (h : ℕ) (method : Helper → Action A)
      → ((o : Helper) → Keeps (Same w0) (method o))
      → Keeps (Same w0) (load h >>= method)
  unfolding load
  load-Still h method k = Keeps-bind _ _ (Keeps-gets _) k

  cases-Still :
      {A : Type 0} (h : ℕ) (method : Helper → Action A)
      → ((o : TestHelper) → Keeps (Same w0) (method (plain o)))
      → ((o : RetryTestHelper) → Keeps (Same w0) (method (retry o)))
      → ((o : FlakyTestHelper) → Keeps (Same w0) (method (flaky o)))
      → ((o : SetupTestHelper) → Keeps (Same w0) (method (setup o)))
      → Keeps (Same w0) (load h >>= method)
  cases-Still h method p r f s = load-Still h method each
    where
      each : (o : Helper) → Keeps (Same w0) (method o)
      each (plain o) = p o
      each (retry o) = r o
      each (flaky o) = f o
      each (setup o) = s o

  pub t_fail_now-Still : (t : ℕ) → Keeps (Same w0) (t_fail_now t)
  unfolding t_fail_now
  t_fail_now-Still t = search (keeps_rules, t_fail-Still)

  t_failed-Still : (t : ℕ) → Keeps (Same w0) (t_failed t)
  unfolding t_failed
  t_failed-Still t = search keeps_rules

  ruleset object_rules = (
    keeps_rules, t_log-Still, t_fail-Still, t_fail_now-Still, t_failed-Still, store-Still,
    setup_log-Still, not_applicable-Still,
  )

  base_log-Still : (o : TestHelper) (msg : Text) → Keeps (Same w0) (base_log o msg)
  unfolding base_log
  base_log-Still o msg = t_log-Still o.t _

  buffer-Still :
      (h : ℕ) (o : RetryTestHelper) (msg : Text) → Keeps (Same w0) (log_or_append_to_buffer h o msg)
  unfolding log_or_append_to_buffer base_log
  buffer-Still h o msg = search object_rules

  pub log-Still : (h : ℕ) (msg : Text) → Keeps (Same w0) (log h msg)
  unfolding log
  log-Still h msg =
      cases-Still h _ (λ o. base_log-Still o msg) (λ o. buffer-Still h o msg)
        (λ o. base_log-Still o.helper msg) (λ o. setup_log-Still msg)

  pub log_success-Still : (h : ℕ) (msg : Text) → Keeps (Same w0) (log_success h msg)
  unfolding log_success
  log_success-Still h msg =
      cases-Still h _ (λ o. base_log-Still o _) (λ o. buffer-Still h o _)
        (λ o. base_log-Still o.helper _) (λ o. not_applicable-Still)

  pub fail-Still : (h : ℕ) → Keeps (Same w0) (fail h)
  unfolding fail setup_fail
  fail-Still h =
      cases-Still h _ (λ o. search object_rules) (λ o. search object_rules)
        (λ o. search object_rules) (λ o. search object_rules)

  pub fail_now-Still : (h : ℕ) → Keeps (Same w0) (fail_now h)
  unfolding fail_now setup_fail_now
  fail_now-Still h =
      cases-Still h _ (λ o. search object_rules) (λ o. search (object_rules, fail-Still))
        (λ o. search (object_rules, fail-Still)) (λ o. search object_rules)

  pub error-Still : (h : ℕ) (msg : Text) → Keeps (Same w0) (error h msg)
  unfolding error
  error-Still h msg = load-Still h _ λ o. search (object_rules, log-Still, fail-Still)

  before-Still : (h : ℕ) (o : Helper) (msg : Text) → Keeps (Same w0) (before_fail_now h o msg)
  unfolding before_fail_now
  before-Still h (plain o) msg = log-Still h _
  before-Still h (retry o) msg = error-Still h _
  before-Still h (flaky o) msg = log-Still h _
  before-Still h (setup o) msg = log-Still h _

  pub fatal-Still : (h : ℕ) (msg : Text) → Keeps (Same w0) (fatal h msg)
  unfolding fatal
  fatal-Still h msg = load-Still h _ λ o. search (keeps_rules, before-Still, fail_now-Still)

  pub failed-Still : (h : ℕ) → Keeps (Same w0) (failed h)
  unfolding failed
  failed-Still h =
      cases-Still h _ (λ o. search object_rules) (λ o. search object_rules)
        (λ o. search object_rules) (λ o. search object_rules)

  pub will_retry-Still : (h : ℕ) → Keeps (Same w0) (will_retry h)
  unfolding will_retry
  will_retry-Still h =
      cases-Still h _ (λ o. search object_rules) (λ o. search object_rules)
        (λ o. search object_rules) (λ o. search object_rules)

  flush_of-Still : (h : ℕ) (o : Helper) → Keeps (Same w0) (flush_log_buffer_of h o)
  unfolding flush_log_buffer_of
  flush_of-Still h (plain o) = search object_rules
  flush_of-Still h (retry o) = search (object_rules, base_log-Still)
  flush_of-Still h (flaky o) = search object_rules
  flush_of-Still h (setup o) = search object_rules

  pub flush_log_buffer-Still : (h : ℕ) → Keeps (Same w0) (flush_log_buffer h)
  unfolding flush_log_buffer
  flush_log_buffer-Still h = load-Still h _ λ o. flush_of-Still h o

  pub get_t-Still : (h : ℕ) → Keeps (Same w0) (get_t h)
  unfolding get_t
  get_t-Still h = search keeps_rules

  pub current_step-Still : (h : ℕ) → Keeps (Same w0) (current_step h)
  unfolding current_step
  current_step-Still h = search keeps_rules

pub ruleset still_rules = (
  keeps_rules, t_fail_now-Still, log-Still, log_success-Still, fail-Still, fail_now-Still,
  error-Still, fatal-Still, failed-Still, will_retry-Still, flush_log_buffer-Still, get_t-Still,
  current_step-Still, allocate-Still,
)

-- ===== src/Helper/Logging.antt =====
-- pkg/util/test/test_helper*.go: the actions that only log.
use maistra_test_tool.World.{
  World, Action, Helper, TestHelper, RetryTestHelper, plain, retry, flaky, setup, returned,
  for_each, ◌>>=◌, ◌>>◌, pure, gets, when,
}
use maistra_test_tool.World.Testing.{t_log}
use maistra_test_tool.Helper.{
  load, store, log, log_of, flush_log_buffer, flush_log_buffer_of, base_log,
  log_or_append_to_buffer, t_of,
}
use maistra_test_tool.Helper.Setup.{setup_log}
use maistra_test_tool.Helper.Isolation.{failures, failures-t_log}
use maistra_test_tool.Prelude.{
  ℕ, ◌≡◌, refl, ◌∙◌, Bool, true, false, List, [], ◌∷◌, if◌then◌else◌, arith,
}
use maistra_test_tool.Text.{Text}

-- The action returns, and the failure marks stay.
pub record IsQuiet (m : Action Unit) : Type 0 where
  pub returns : (w : World) → (m w).0 ≡ returned tt
  pub marks : (w : World) → failures (m w).1 ≡ failures w

pub pure-IsQuiet : IsQuiet (pure tt)
unfolding ◌>>=◌
pure-IsQuiet = record { returns = λ w. refl; marks = λ w. refl }

pub if-IsQuiet :
    (b : Bool) (m n : Action Unit) → IsQuiet m → IsQuiet n → IsQuiet (if b then m else n)
if-IsQuiet true m n qm qn = qm
if-IsQuiet false m n qm qn = qn

pub when-IsQuiet : (b : Bool) (m : Action Unit) → IsQuiet m → IsQuiet (when b m)
unfolding ◌>>=◌
when-IsQuiet true m q = q
when-IsQuiet false m q = pure-IsQuiet

pub gets-IsQuiet :
    {A : Type 0} (f : World → A) (k : A → Action Unit)
    → ((a : A) → IsQuiet (k a))
    → IsQuiet (gets f >>= k)
unfolding ◌>>=◌
gets-IsQuiet f k q = record { returns = λ w. (q (f w)).returns w; marks = λ w. (q (f w)).marks w }

pub bind_returned : (m n : Action Unit) (w : World) → (m w).0 ≡ returned tt → (m >> n) w ≡ n (m w).1
unfolding ◌>>=◌
bind_returned m n w e = rw e

pub then-IsQuiet : (m n : Action Unit) → IsQuiet m → IsQuiet n → IsQuiet (m >> n)
then-IsQuiet m n qm qn = record {
  returns = λ w. rw (bind_returned m n w (qm.returns w)) (qn.returns (m w).1);
  marks = λ w. rw (bind_returned m n w (qm.returns w)) (qn.marks (m w).1 ∙ qm.marks w);
}

pub for_each-IsQuiet :
    {A : Type 0} (xs : List A) (body : A → Action Unit)
    → ((x : A) → IsQuiet (body x))
    → IsQuiet (for_each xs body)
unfolding for_each
for_each-IsQuiet [] body q = pure-IsQuiet
for_each-IsQuiet (x ∷ xs) body q = then-IsQuiet (body x) _ (q x) (for_each-IsQuiet xs body q)

t_log-IsQuiet : (t : ℕ) (msg : Text) → IsQuiet (t_log t msg)
t_log-IsQuiet t msg = record {
  returns = λ w. unfold t_log ◌>>=◌ in refl;
  marks = failures-t_log t msg;
}

setup_log-IsQuiet : (msg : Text) → IsQuiet (setup_log msg)
unfolding setup_log ◌>>=◌
setup_log-IsQuiet msg = record { returns = λ w. refl; marks = λ w. refl }

store-IsQuiet : (h : ℕ) (o : Helper) → IsQuiet (store h o)
unfolding store ◌>>=◌
store-IsQuiet h o = record { returns = λ w. refl; marks = λ w. refl }

base_log-IsQuiet : (o : TestHelper) (msg : Text) → IsQuiet (base_log o msg)
unfolding base_log
base_log-IsQuiet o msg = t_log-IsQuiet o.t _

buffer-IsQuiet :
    (h : ℕ) (o : RetryTestHelper) (msg : Text) → IsQuiet (log_or_append_to_buffer h o msg)
unfolding log_or_append_to_buffer
buffer-IsQuiet h o msg =
    gets-IsQuiet _ _ λ b. if-IsQuiet b _ _ (base_log-IsQuiet o.helper msg) (store-IsQuiet h _)

log_of-IsQuiet : (h : ℕ) (o : Helper) (msg : Text) → IsQuiet (log_of h o msg)
unfolding log_of
log_of-IsQuiet h (plain o) msg = base_log-IsQuiet o msg
log_of-IsQuiet h (retry o) msg = buffer-IsQuiet h o msg
log_of-IsQuiet h (flaky o) msg = base_log-IsQuiet o.helper msg
log_of-IsQuiet h (setup o) msg = setup_log-IsQuiet msg

pub log-IsQuiet : (h : ℕ) (msg : Text) → IsQuiet (log h msg)
unfolding log load
log-IsQuiet h msg = gets-IsQuiet _ _ λ o. log_of-IsQuiet h o msg

flush_of-IsQuiet : (h : ℕ) (o : Helper) → IsQuiet (flush_log_buffer_of h o)
unfolding flush_log_buffer_of
flush_of-IsQuiet h (retry o) = gets-IsQuiet _ _ λ b. if-IsQuiet b _ _ pure-IsQuiet (
    then-IsQuiet _ _ (for_each-IsQuiet o.log_buffer _ (base_log-IsQuiet o.helper))
      (store-IsQuiet h _))
flush_of-IsQuiet h _ = pure-IsQuiet

pub flush-IsQuiet : (h : ℕ) → IsQuiet (flush_log_buffer h)
unfolding flush_log_buffer load
flush-IsQuiet h = gets-IsQuiet _ _ λ o. flush_of-IsQuiet h o

pub ruleset quiet_rules =
    (pure-IsQuiet, if-IsQuiet, when-IsQuiet, gets-IsQuiet, then-IsQuiet, log-IsQuiet, flush-IsQuiet)

-- Logging through `h` leaves every helper with its test, and `h` as failed as it was.
pub t_of-log :
    (h k : ℕ) (msg : Text) (w : World) → t_of ((log h msg w).1.helpers k) ≡ t_of (w.helpers k)
unfolding log ◌>>=◌ log_or_append_to_buffer base_log t_log setup_log t_of
t_of-log h k msg w = ground arith

-- ===== src/Check/Leaves.antt =====
-- What failing and succeeding do to the helper of a retry: how the call ends, and the mark that the
-- helper is left with.
use maistra_test_tool.World.{
  World, Action, Outcome, Helper, RetryTestHelper, retry, returned, panicked, string, ◌>>=◌, ◌>>◌,
  panic, plain, flaky, setup,
}
use maistra_test_tool.Helper.{
  log, log_success, error, fatal, fail, fail_now, will_retry, retry_panic_key,
  log_or_append_to_buffer, base_log, load,
}
use maistra_test_tool.Check.Common.{assert_failure, require_failure, detail_unless_retried}
use maistra_test_tool.Prelude.{
  ℕ, ◌≡◌, Bool, Option, none, some, arith, true, refl, false, if◌then◌else◌,
}
use maistra_test_tool.Text.{Text, is_empty}
use maistra_test_tool.World.Testing.{t_log}

-- The mark of a retry's helper.
abbrev pub own_mark : Helper → Option Bool
own_mark (retry o) = some o.failed
own_mark _ = none

-- At the helper `r` of a retry the action ends with the outcome, and the mark there becomes `mark` of what
-- it was.
pub record Leaves (r : ℕ) (o : Outcome Unit) (mark : Bool → Bool) (m : Action Unit) : Type 0 where
  pub at :
      (w : World) (b : Bool)
      → own_mark (w.helpers r) ≡ some b
      → ((m w).0 ≡ o) × (own_mark ((m w).1.helpers r) ≡ some (mark b))

abbrev pub same : Bool → Bool
same b = b

abbrev pub set : Bool → Bool
set b = true

pub mark_retry :
    (object : Helper) {b : Bool}
    → own_mark object ≡ some b
    → (o : RetryTestHelper) × (object ≡ retry o)
mark_retry (plain o) h = cc
mark_retry (retry o) h = (o, refl)
mark_retry (flaky o) h = cc
mark_retry (setup o) h = cc

module _ {r : ℕ} where
  Leaves-then :
      (m n : Action Unit) {o : Outcome Unit} {f g : Bool → Bool}
      → Leaves r (returned tt) f m
      → Leaves r o g n
      → Leaves r o (λ b. g (f b)) (m >> n)
  unfolding ◌>>=◌
  Leaves-then m n {f = f} lm ln = record {
    at = λ w b h. let (returns, marked) = lm.at w b h in rw returns (ln.at (m w).1 (f b) marked);
  }

  Leaves-load :
      (method : Helper → Action Unit) {o : Outcome Unit} {g : Bool → Bool}
      → ((object : RetryTestHelper) → Leaves r o g (method (retry object)))
      → Leaves r o g (load r >>= method)
  unfolding load ◌>>=◌
  Leaves-load method k = record {
    at = λ w b h. let (object, e) = mark_retry (w.helpers r) h in rw e ((k object).at w b h);
  }

  pub Leaves-detail :
      (msg more : Text) (k : Text → Action Unit) {o : Outcome Unit} {g : Bool → Bool}
      → ((detail : Text) → Leaves r o g (k detail))
      → Leaves r o g (detail_unless_retried r msg more >>= k)
  unfolding detail_unless_retried will_retry load ◌>>=◌
  Leaves-detail msg more k kd = record {
    at = λ w b h. let (object, e) = mark_retry (w.helpers r) h in rw e ((kd _).at w b h);
  }

  log-Leaves : (msg : Text) → Leaves r (returned tt) same (log r msg)
  unfolding log ◌>>=◌ log_or_append_to_buffer base_log t_log
  log-Leaves msg = record { at = λ w b h. ground arith }

  pub log_success-Leaves : (msg : Text) → Leaves r (returned tt) same (log_success r msg)
  unfolding log_success ◌>>=◌ log_or_append_to_buffer base_log t_log
  log_success-Leaves msg = record { at = λ w b h. ground arith }

  pub fail-Leaves : Leaves r (returned tt) set (fail r)
  unfolding fail ◌>>=◌
  fail-Leaves = record { at = λ w b h. ground arith }

  panic-Leaves : Leaves r (panicked (string retry_panic_key)) same (panic (string retry_panic_key))
  unfolding ◌>>=◌
  panic-Leaves = record { at = λ w b h. (refl, h) }

  fail_now-Leaves : Leaves r (panicked (string retry_panic_key)) set (fail_now r)
  unfolding fail_now
  fail_now-Leaves = Leaves-load _ λ object. Leaves-then (fail r) _ fail-Leaves panic-Leaves

  pub error-Leaves : (msg : Text) → Leaves r (returned tt) set (error r msg)
  unfolding error
  error-Leaves msg =
      Leaves-load _ λ object. Leaves-then (log r _) (fail r) (log-Leaves _) fail-Leaves

  pub fatal-Leaves : (msg : Text) → Leaves r (panicked (string retry_panic_key)) set (fatal r msg)
  unfolding fatal
  fatal-Leaves msg =
      Leaves-load _
        λ object. Leaves-then (error r msg) (fail_now r) (error-Leaves msg) fail_now-Leaves

  pub Leaves-if :
      (b : Bool) (m n : Action Unit) {o : Outcome Unit} {g : Bool → Bool}
      → Leaves r o g m
      → Leaves r o g n
      → Leaves r o g (if b then m else n)
  Leaves-if true m n lm ln = lm
  Leaves-if false m n lm ln = ln

  pub assert_failure-Leaves :
      (msg detail : Text) → Leaves r (returned tt) set (assert_failure r msg detail)
  unfolding assert_failure
  assert_failure-Leaves msg detail = Leaves-if _ _ _ (error-Leaves _) (error-Leaves _)

  pub require_failure-Leaves :
      (msg detail : Text)
      → Leaves r (panicked (string retry_panic_key)) set (require_failure r msg detail)
  unfolding require_failure ◌>>=◌
  require_failure-Leaves msg detail = record {
    at = λ w b h. (Leaves-if (is_empty detail) _ _ (fatal-Leaves _) (fatal-Leaves _)).at w b h;
  }

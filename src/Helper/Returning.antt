-- ===== src/Helper/Returning.antt =====
-- pkg/util/test/test_helper*.go: a log entry of any helper.
use maistra_test_tool.World.{
  World, Helper, Action, plain, retry, flaky, setup, returned, ◌>>=◌, modify,
}
use maistra_test_tool.Helper.{log, load, log_of}
use maistra_test_tool.Helper.Base.{base_log, log_or_append_to_buffer, store}
use maistra_test_tool.Helper.Setup.{setup_log}
use maistra_test_tool.World.Testing.{t_log}
use maistra_test_tool.Prelude.{ℕ, ◌≡◌, refl, Bool, true, false, if◌then◌else◌}
use maistra_test_tool.Text.{Text}

if-returned :
    (b : Bool) (m n : Action Unit) (w : World)
    → (m w).0 ≡ returned tt
    → (n w).0 ≡ returned tt
    → ((if b then m else n) w).0 ≡ returned tt
if-returned true m n w em en = em
if-returned false m n w em en = en

log_of-returned : (h : ℕ) (o : Helper) (msg : Text) (w : World) → (log_of h o msg w).0 ≡ returned tt
unfolding log_of base_log log_or_append_to_buffer store setup_log t_log modify ◌>>=◌
log_of-returned h (plain o) msg w = refl
log_of-returned h (retry o) msg w = if-returned _ _ _ w refl refl
log_of-returned h (flaky o) msg w = refl
log_of-returned h (setup o) msg w = refl

-- Log returns.
pub log-returned : (h : ℕ) (msg : Text) (w : World) → (log h msg w).0 ≡ returned tt
unfolding log load ◌>>=◌
log-returned h msg w = log_of-returned h (w.helpers h) msg w

-- ===== src/Retry/Flaky.antt =====
-- pkg/util/test/test_helper_flaky.go: an attempt on the helper of a test that may fail.
use maistra_test_tool.World.{
  Action, PanicValue, Outcome, string, runtime_error, flaky, pure, panic, ◌>>◌,
}
use maistra_test_tool.World.Panics.{recover, deferred, with_defer}
use maistra_test_tool.Helper.{allocate, fail, flaky_panic_key}
use maistra_test_tool.Prelude.{ℕ, Bool, false, none, some, if◌then◌else◌}
use maistra_test_tool.Text.{teq}

unfoldable pub is_flaky_panic : PanicValue → Bool
is_flaky_panic (string s) = teq s flaky_panic_key
is_flaky_panic (runtime_error s) = false

-- `NewFlakyTestHelper`
unfoldable pub new_flaky_test_helper : ℕ → Action ℕ
unfolding allocate
new_flaky_test_helper t =
    allocate (flaky (record { helper = record { t = t; current_step = 0 }; failed = false }))

-- The deferred function of `Attempt`
unfoldable pub after_flaky_attempt : ℕ → Outcome Unit → Action (Outcome Unit)
unfolding is_flaky_panic recover
after_flaky_attempt h o =
    let (err, o') = recover deferred o in
    elim err [
      | none ↦ pure o'
      | some p ↦ if is_flaky_panic p then (do fail h; pure o') else panic p
    ]

-- `flakyTestHelper.Attempt`
unfoldable pub flaky_attempt : ℕ → (ℕ → Action Unit) → Action Unit
unfolding after_flaky_attempt with_defer
flaky_attempt h f = with_defer (f h) (after_flaky_attempt h)

-- ===== src/World/Panics.antt =====
-- Deferred functions and `recover`.
use maistra_test_tool.World.{Action, Outcome, PanicValue, returned, panicked, exited, crashed}
use maistra_test_tool.Prelude.{Option, none, some}

-- Where `recover` is called: in the deferred function itself, or in a function that this one calls.
pub data Frame : Type 0 where
  deferred : Frame
  called_by_deferred : Frame

-- `recover` stops a panic and returns its value only in the deferred function itself. The outcome is
-- how the surrounding function is about to end, before and after.
unfoldable pub recover : Frame → Outcome Unit → Option PanicValue × Outcome Unit
recover deferred (panicked p) = (some p, returned tt)
recover deferred (returned a) = (none, returned a)
recover deferred exited = (none, exited)
recover deferred (crashed p) = (none, crashed p)
recover called_by_deferred o = (none, o)

abbrev pub settle : Outcome (Outcome Unit) → Outcome Unit
settle (returned o) = o
settle (panicked p) = panicked p
settle exited = exited
settle (crashed p) = crashed p

abbrev pub run_deferred : (Outcome Unit → Action (Outcome Unit)) → Outcome Unit → Action Unit
run_deferred d (crashed p) w = (crashed p, w)
run_deferred d (returned a) w = let (r, w') = d (returned a) w in (settle r, w')
run_deferred d (panicked p) w = let (r, w') = d (panicked p) w in (settle r, w')
run_deferred d exited w = let (r, w') = d exited w in (settle r, w')

-- `defer d(); m()`: the deferred function gets the outcome of the body, and returns how the call ends.
unfoldable pub with_defer : Action Unit → (Outcome Unit → Action (Outcome Unit)) → Action Unit
unfolding recover
with_defer m d w = let (o, w') = m w in run_deferred d o w'

-- ===== src/World/Testing.antt =====
-- Package testing, as far as the tool uses it.
use maistra_test_tool.World.{
  TestingT, Action, Outcome, returned, panicked, exited, crashed, update, modify, gets, exit, ◌>>◌,
}
use maistra_test_tool.Prelude.{ℕ, ◌+◌, Bool, true, false, List, [], ◌∷◌, ◌++◌}
use maistra_test_tool.Text.{Text}

unfoldable pub with_output : TestingT → Text → TestingT
with_output o msg = record o { output = o.output ++ msg ∷ [] }

-- T.Log
unfoldable pub t_log : ℕ → Text → Action Unit
unfolding with_output
t_log a msg = modify λ w. record w { ts = update w.ts a (with_output (w.ts a) msg) }

unfoldable pub mark_failed : List ℕ → (ℕ → TestingT) → ℕ → TestingT
mark_failed [] ts = ts
mark_failed (a ∷ as') ts =
    let rest = mark_failed as' ts in update rest a (record (rest a) { failed = true })

-- T.Fail marks the test and those that it is a subtest of.
unfoldable pub t_fail : ℕ → Action Unit
unfolding mark_failed
t_fail a = modify λ w. record w { ts = mark_failed (a ∷ (w.ts a).ancestors) w.ts }

-- T.FailNow
unfoldable pub t_fail_now : ℕ → Action Unit
unfolding t_fail
t_fail_now a = do t_fail a; exit

-- T.Failed
unfoldable pub t_failed : ℕ → Action Bool
t_failed a = gets λ w. (w.ts a).failed

-- T.Skipped
unfoldable pub t_skipped : ℕ → Action Bool
t_skipped a = gets λ w. (w.ts a).skipped

-- T.SkipNow
unfoldable pub t_skip_now : ℕ → Action Unit
t_skip_now a = do
  modify λ w. record w { ts = update w.ts a (record (w.ts a) { skipped = true }) }
  exit

-- T.Skip, with the message formatted
unfoldable pub t_skip : ℕ → Text → Action Unit
unfolding t_log t_skip_now
t_skip a msg = do t_log a msg; t_skip_now a

-- How the goroutine of a subtest ends: a panic in it takes the process down.
abbrev ended : Outcome Unit → Action Unit
ended (returned _) w = (returned tt, w)
ended exited w = (returned tt, w)
ended (panicked p) w = (crashed p, w)
ended (crashed p) w = (crashed p, w)

-- T.Run: the function gets a new T, below the given one. What it does is done when this returns. The name is put
-- together as it is given, where package testing rewrites blanks in it and makes it unique; a function that ends its
-- goroutine through the T of a parent comes back to the caller here.
unfoldable pub t_run : ℕ → Text → (ℕ → Action Unit) → Action Unit
t_run a name f w =
    let sub = w.next_t in
    let parent = w.ts a in
    let new_t : TestingT = record {
      name = parent.name ++ (b'/' ∷ name);
      ancestors = a ∷ parent.ancestors;
      failed = false;
      skipped = false;
      output = [];
    } in
    let (o, w') = f sub (record w { ts = update w.ts sub new_t; next_t = sub + 1 }) in ended o w'

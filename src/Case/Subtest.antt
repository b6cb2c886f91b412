-- ===== src/Case/Subtest.antt =====
-- pkg/util/test/subtest.go: a test below another one.
use maistra_test_tool.World.{Action, plain, gets, ◌>>=◌}
use maistra_test_tool.World.Panics.{with_defer}
use maistra_test_tool.World.Testing.{t_run}
use maistra_test_tool.Helper.{allocate}
use maistra_test_tool.Case.{report}
use maistra_test_tool.Prelude.{ℕ}
use maistra_test_tool.Text.{Text}

-- `subTest`
pub record SubTest : Type 0 where
  pub t : ℕ
  pub name : Text

-- What `T.Run` is given.
unfoldable pub body : (ℕ → Action Unit) → ℕ → Action Unit
body f a = do
  start ← gets λ w. w.clock
  h ← allocate (plain (record { t = a; current_step = 0 }))
  with_defer (f h) (report "Subtest" a h start)

-- `subTest.Run`
unfoldable pub run_sub : SubTest → (ℕ → Action Unit) → Action Unit
unfolding body
run_sub sub f = t_run sub.t sub.name (body f)

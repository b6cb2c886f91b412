-- ===== src/Suite.antt =====
-- pkg/util/test/suite.go, test_helper_setup.go and setup_logger.go: a suite with its setup functions. What a setup
-- function gives to `Cleanup` is its result here; package testing, which runs the tests, is a parameter.
pub mod Cleanups
use maistra_test_tool.World.{Action, setup, pure, ◌>>=◌, ◌>>◌}
use maistra_test_tool.Helper.{allocate}
use maistra_test_tool.Prelude.{ℕ, Option, none, some, List, [], ◌∷◌, ◌++◌, if◌then◌else◌}
use maistra_test_tool.Prelude.Int.{ℤ}
use maistra_test_tool.Text.{Text, lit, is_empty, split}
use maistra_test_tool.Text.Decimal.{decimal}
use maistra_test_tool.Text.Format.{sprintf}

-- `SetupFunc`: the last function that it gives to `Cleanup` of the helper, if it gives one.
abbrev pub SetupFunc : Type 0
SetupFunc = ℕ → Action (Option (Action Unit))

-- `testSuite`; `m` runs the tests, and its result is the exit code.
pub record TestSuite : Type 0 where
  pub m : Action ℤ
  pub setup_fns : List SetupFunc

-- `NewSuite`
unfoldable pub new_suite : Action ℤ → TestSuite
new_suite m = record { m = m; setup_fns = [] }

-- `Setup`
unfoldable pub with_setup : TestSuite → SetupFunc → TestSuite
with_setup s f = record s { setup_fns = s.setup_fns ++ f ∷ [] }

-- `setupTestHelper.Cleanup`: the field of the helper before and after.
unfoldable pub set_cleanup : Option (Action Unit) → Option (Action Unit) → Option (Action Unit)
set_cleanup cleanup none = cleanup
set_cleanup cleanup (some f) = some f

-- The loop over the setup functions, with the field of the helper.
unfoldable pub set_up : ℕ → List SetupFunc → Option (Action Unit) → Action (Option (Action Unit))
unfolding set_cleanup
set_up t [] cleanup = pure cleanup
set_up t (setup_fn ∷ setup_fns) cleanup = do
  given ← setup_fn t
  set_up t setup_fns (set_cleanup cleanup given)

unfoldable pub run_cleanup : Option (Action Unit) → Action Unit
run_cleanup none = pure tt
run_cleanup (some f) = f

-- `NewSetupTestHelper`; its test is a new one.
unfoldable pub new_setup_test_helper : ℕ → Action ℕ
new_setup_test_helper t = allocate (setup (record { t = t }))

-- `Run`, up to the exit code that is given to `os.Exit`; `t` is the address of the test of the helper.
unfoldable pub run : TestSuite → ℕ → Action ℤ
unfolding set_up run_cleanup new_setup_test_helper
run s t = do
  h ← new_setup_test_helper t
  cleanup ← set_up h s.setup_fns none
  exit_code ← s.m
  run_cleanup cleanup
  pure exit_code

-- The last line break of a message of several lines ends no further line.
unfoldable pub drop_last_empty : List Text → List Text
drop_last_empty [] = []
drop_last_empty (line ∷ []) = if is_empty line then [] else line ∷ []
drop_last_empty (line ∷ next ∷ lines) = line ∷ drop_last_empty (next ∷ lines)

unfoldable pub message_lines : List Text → List Text
unfolding drop_last_empty
message_lines (line ∷ []) = line ∷ []
message_lines lines = drop_last_empty lines

unfoldable pub indented : List Text → Text
indented [] = []
indented (line ∷ []) = line
indented (line ∷ next ∷ lines) = line ++ (lit "\n        " ++ indented (next ∷ lines))

known : Option (Text × ℕ) → Text × ℕ
known none = (lit "unknown", 0)
known (some c) = c

-- `customFormatter.Format`, for a message with the file and the line of its caller, if they are known
unfoldable pub format : Option (Text × ℕ) → Text → Text
unfolding message_lines indented known
format caller message =
    let (file, line) = known caller in
    lit "    "
    ++ (sprintf "%s:%d: " (file ∷ decimal line ∷ [])
        ++ (indented (message_lines (split b'\n' message)) ++ lit "\n"))

-- ===== src/Case.antt =====
-- pkg/util/test/test.go: a test at top level, with the groups it is in and the versions it is for, and
-- how it is run. What a panic of a getter of pkg/util/env carries is not modelled.
pub mod Subtest
pub mod Skipping
pub mod Recovery
use maistra_test_tool.World.{
  World, Action, Outcome, PanicValue, plain, string, runtime_error, pure, panic, gets, when,
  returned, ◌>>=◌, ◌>>◌,
}
use maistra_test_tool.World.Panics.{Frame, recover, called_by_deferred, with_defer}
use maistra_test_tool.World.Testing.{t_log, t_fail, t_skip}
use maistra_test_tool.Helper.{allocate, failed}
use maistra_test_tool.Shell.{exec_shell_command}
use maistra_test_tool.Env.{
  get_test_group, get_arch, get_smcp_version, is_must_gather_enabled, get_must_gather_image,
  get_output_dir,
}
use maistra_test_tool.Version.{Version, less_than, greater_than, to_text}
use maistra_test_tool.Prelude.{
  ℕ, ◌-◌, Bool, true, false, Option, none, some, List, [], ◌∷◌, ◌++◌, String, not, if◌then◌else◌,
}
use maistra_test_tool.Text.{Text, lit, teq, replace_all}
use maistra_test_tool.Text.Format.{sprintf}

-- `TestGroup`
abbrev pub TestGroup : Type 0
TestGroup = Text

-- `topLevelTest`
pub record TopLevelTest : Type 0 where
  pub t : ℕ
  pub id : Text
  pub groups : List TestGroup
  pub min_version : Option Version
  pub max_version : Option Version

-- `NewTest`
abbrev pub new_test : ℕ → TopLevelTest
new_test a = record { t = a; id = []; groups = []; min_version = none; max_version = none }

unfoldable pub with_groups : TopLevelTest → List TestGroup → TopLevelTest
with_groups test groups = record test { groups = groups }

unfoldable pub with_min_version : TopLevelTest → Version → TopLevelTest
with_min_version test v = record test { min_version = some v }

unfoldable pub with_max_version : TopLevelTest → Version → TopLevelTest
with_max_version test v = record test { max_version = some v }

unfoldable pub with_id : TopLevelTest → Text → TopLevelTest
with_id test id = record test { id = id }

-- The loop of `isPartOfGroup`
unfoldable pub is_one_of : List TestGroup → TestGroup → Bool
is_one_of [] group = false
is_one_of (g ∷ groups) group = if teq g group then true else is_one_of groups group

-- `isPartOfGroup`
unfoldable pub is_part_of_group : TopLevelTest → TestGroup → Bool
unfolding is_one_of
is_part_of_group test group = is_one_of test.groups group

-- A getter that panics has no value.
abbrev pub or_panic : {A : Type 0} → Option A → Action A
or_panic none = panic (string (lit "invalid setting"))
or_panic (some a) = pure a

-- The group that the tests are run for.
unfoldable pub wanted_group : (Text → Option Text) → TestGroup
wanted_group env = if teq (get_arch env) (lit "arm64") then lit "arm64" else get_test_group env

unfoldable pub too_old : Version → Option Version → Bool
too_old v none = false
too_old v (some min) = less_than v min

unfoldable pub too_new : Version → Option Version → Bool
too_new v none = false
too_new v (some max) = greater_than v max

version_text : Option Version → Text
version_text none = []
version_text (some v) = to_text v

version_message : String → Version → Option Version → Text
unfolding version_text
version_message which v bound =
    sprintf
      "This test is being skipped because it doesn't support the current SMCP version %s (%s version is %s)"
      (to_text v ∷ lit which ∷ version_text bound ∷ [])

-- `skipIfNecessary`
unfoldable pub skip_if_necessary : TopLevelTest → Action Unit
unfolding is_part_of_group wanted_group too_old too_new version_message
skip_if_necessary test = do
  group ← gets λ w. wanted_group w.env
  quoted ← gets λ w. w.outside.quote group
  when (not (is_part_of_group test group)) (
      t_skip test.t (
        sprintf "This test is being skipped because it is not part of the %s test group"
          (quoted ∷ [])))
  smcp ← gets λ w. get_smcp_version w.env
  v ← or_panic smcp
  when (too_old v test.min_version) (t_skip test.t (version_message "min" v test.min_version))
  when (too_new v test.max_version) (t_skip test.t (version_message "max" v test.max_version))

log_must_gather : ℕ → Text → Option Text → Action Unit
log_must_gather a dir none = t_log a dir
log_must_gather a dir (some err) = t_log a (sprintf "failed to create must-gather: %v" (err ∷ []))

-- `captureMustGather`
unfoldable pub capture_must_gather : ℕ → Action Unit
unfolding log_must_gather
capture_must_gather a = do
  maybe_image ← gets λ w. get_must_gather_image w.env
  image ← or_panic maybe_image
  maybe_output ←
      gets λ w. get_output_dir w.env w.outside.working_dir (w.outside.timestamp w.outside.init_time)
  output_dir ← or_panic maybe_output
  dir ← gets λ w.
      sprintf "%s/failures-must-gather/%s-%s"
        (output_dir ∷ w.outside.timestamp w.clock ∷ replace_all (w.ts a).name b'/' (lit "-") ∷ [])
  t_log a (sprintf "Capturing cluster state using must-gather %s" (image ∷ []))
  reply ←
      exec_shell_command
        (sprintf "rm -rf %s; mkdir -p %s; oc adm must-gather --dest-dir=%s --image=%s"
          (dir ∷ dir ∷ dir ∷ image ∷ []))
        none []
  log_must_gather a dir reply.error

panic_text : PanicValue → Text
panic_text (string s) = s
panic_text (runtime_error s) = lit "runtime error: " ++ s

-- `recoverPanic`, which the deferred function calls: with how the surrounding call is about to end,
-- before and after.
unfoldable pub recover_panic : ℕ → Outcome Unit → Action (Outcome Unit)
unfolding recover panic_text
recover_panic a o =
    let (err, o') = recover called_by_deferred o in
    elim err [
      | none ↦ pure o'
      | some p ↦ (do t_log a (sprintf "Test panic: %v" (panic_text p ∷ [])); t_fail a; pure o')
    ]

-- The deferred function of `Run`, for a test and for a subtest; `what` is the word for it.
unfoldable pub report : String → ℕ → ℕ → ℕ → Outcome Unit → Action (Outcome Unit)
unfolding recover_panic capture_must_gather
report what a h start o = do
  o' ← recover_panic a o
  t_log a []
  has_failed ← failed h
  seconds ← gets λ w. w.outside.seconds (w.clock - start)
  gather ← gets λ w. is_must_gather_enabled w.env
  if has_failed
      then (do
        t_log a (sprintf "%s failed in %ss (excluding cleanup)" (lit what ∷ seconds ∷ []))
        when gather (capture_must_gather a))
      else t_log a (sprintf "%s completed in %ss (excluding cleanup)" (lit what ∷ seconds ∷ []))
  pure o'

-- `topLevelTest.Run`
unfoldable pub run : TopLevelTest → (ℕ → Action Unit) → Action Unit
unfolding skip_if_necessary report with_defer allocate
run test f = do
  skip_if_necessary test
  start ← gets λ w. w.clock
  h ← allocate (plain (record { t = test.t; current_step = 0 }))
  with_defer (f h) (report "Test" test.t h start)

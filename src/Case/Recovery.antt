-- ===== src/Case/Recovery.antt =====
-- pkg/util/test/subtest.go: a panic of the body of a test under the deferred function of `Run`.
use maistra_test_tool.World.{
  World, Action, Outcome, PanicValue, panicked, crashed, ◌>>=◌, Helper, plain, retry, flaky, setup,
  update,
}
use maistra_test_tool.World.Panics.{recover, with_defer, settle}
use maistra_test_tool.World.Testing.{t_log, t_run, t_failed}
use maistra_test_tool.World.Yields.{
  Yields, Any, EndsIn, by_value, by_panic, yields_rules, Yields-gets, Yields-bind, Yields-pure_bind,
}
use maistra_test_tool.Helper.{allocate, failed, load, failed_of}
use maistra_test_tool.Helper.Setup.{not_applicable}
use maistra_test_tool.Shell.{exec_shell_command}
use maistra_test_tool.Case.{
  recover_panic, report, capture_must_gather, log_must_gather, or_panic, allocate,
}
use maistra_test_tool.Case.Subtest.{SubTest, run_sub, body}
use maistra_test_tool.Prelude.{
  ℕ, ◌≡◌, refl, Option, none, some, String, List, ◌+◌, false, [], ◌∷◌, ◌++◌,
}
use maistra_test_tool.Text.{Text}

t_log-Yields : (a : ℕ) (msg : Text) → Yields Any (t_log a msg)
unfolding t_log
t_log-Yields a msg = search yields_rules

or_panic-Yields : {A : Type 0} (o : Option A) → Yields Any (or_panic o)
or_panic-Yields none = search yields_rules
or_panic-Yields (some a) = search yields_rules

log_must_gather-Yields :
    (a : ℕ) (dir : Text) (err : Option Text) → Yields Any (log_must_gather a dir err)
unfolding log_must_gather
log_must_gather-Yields a dir none = t_log-Yields a dir
log_must_gather-Yields a dir (some err) = t_log-Yields a _

command-Yields :
    (cmd : Text) (env : Option (List Text)) (input : Text)
    → Yields Any (exec_shell_command cmd env input)
unfolding exec_shell_command
command-Yields cmd env input = record { at = λ w. by_value _ tt }

capture_must_gather-Yields : (a : ℕ) → Yields Any (capture_must_gather a)
unfolding capture_must_gather
capture_must_gather-Yields a =
    search (yields_rules, t_log-Yields, or_panic-Yields, log_must_gather-Yields, command-Yields)
      depth 20

failed-Yields : (h : ℕ) → Yields Any (failed h)
unfolding failed load failed_of t_failed not_applicable
failed-Yields h = Yields-bind _ _ (Yields-gets _) (λ o. of_method o)
  where
    of_method : (o : Helper) → Yields Any (failed_of o)
    of_method (plain o) = search yields_rules
    of_method (retry o) = search yields_rules
    of_method (flaky o) = search yields_rules
    of_method (setup o) = search yields_rules

-- The report of a run, if it returns at all, leaves the outcome of the run as it was.
report-Yields :
    (what : String) (a h start : ℕ) (o : Outcome Unit)
    → Yields (λ o'. o' ≡ o) (report what a h start o)
unfolding report recover_panic recover
report-Yields what a h start o =
    Yields-pure_bind o _
      (search (yields_rules, t_log-Yields, failed-Yields, capture_must_gather-Yields) depth 20)

module _ (p : PanicValue) where
  -- A panic under the deferred function leaves it as a panic.
  deferred_panics :
      (what : String) (a h start : ℕ) (m : Action Unit) (w w' : World)
      → m w ≡ (panicked p, w')
      → (q : PanicValue) × ((with_defer m (report what a h start) w).0 ≡ panicked q)
  unfolding with_defer
  deferred_panics what a h start m w w' e =
      rw e (settled _ ((report-Yields what a h start (panicked p)).at w'))
    where
      settled :
          (o : Outcome (Outcome Unit))
          → EndsIn (λ o'. o' ≡ panicked p) o
          → (q : PanicValue) × (settle o ≡ panicked q)
      settled _ (by_value a e) = (p, e)
      settled _ (by_panic q) = (q, refl)

  -- The world in which the body of a subtest starts.
  abbrev pub started : SubTest → World → World
  started sub w = record w {
    ts = update w.ts w.next_t (record {
      name = (w.ts sub.t).name ++ (b'/' ∷ sub.name);
      ancestors = sub.t ∷ (w.ts sub.t).ancestors;
      failed = false;
      skipped = false;
      output = [];
    });
    next_t = w.next_t + 1;
    helpers = update w.helpers w.next_helper (plain (record { t = w.next_t; current_step = 0 }));
    next_helper = w.next_helper + 1;
  }

  -- If the body of a subtest panics, the process goes down with a panic, and no panic is turned into a
  -- failure of the test.
  pub run_sub-crashes :
      (sub : SubTest) (f : ℕ → Action Unit) (w w' : World)
      → f w.next_helper (started sub w) ≡ (panicked p, w')
      → (q : PanicValue) × ((run_sub sub f w).0 ≡ crashed q)
  unfolding run_sub body t_run ◌>>=◌ allocate
  run_sub-crashes sub f w w' e =
      let (q, down) =
        deferred_panics "Subtest" w.next_t w.next_helper w.clock (f w.next_helper) (started sub w)
          w' e in
      (q, rw down refl)

-- ===== src/Tempo/Existing.antt =====
-- pkg/tempo/install.go: an installation on a cluster that has all of it.
use maistra_test_tool.World.{World, Action, Outside, Invocation, returned, modify, ◌>>=◌, ◌>>◌}
use maistra_test_tool.World.Onward.{Same, Same-refl}
use maistra_test_tool.Helper.{log}
use maistra_test_tool.Helper.Returning.{log-returned}
use maistra_test_tool.Helper.Still.{log-Still}
use maistra_test_tool.Shell.{invocation, after_command, reply_to}
use maistra_test_tool.Shell.Outcomes.{execute-Outcome}
use maistra_test_tool.App.Manifests.{Sources}
use maistra_test_tool.Oc.Queries
use maistra_test_tool.Oc.Queries.{names_something}
use maistra_test_tool.Oc.Retrying.{ns_flag}
use maistra_test_tool.Oc.Kubeconfig.{with_kubeconfig}
use maistra_test_tool.Oc.Default.Queries.{resource_by_label_exists}
use maistra_test_tool.Tempo.{
  both_exist, install_if_not_exist, install_tempo, install_otel, tempo_operators_namespace,
  otel_operators_namespace, tracing_namespace, tempo_operator_selector, otel_operator_selector,
}
use maistra_test_tool.Prelude.{
  ℕ, ◌≡◌, refl, ap, ◌∙◌, Bool, true, none, List, [], ◌∷◌, ◌++◌, map, if◌then◌else◌,
}
use maistra_test_tool.Text.{Text, lit}
use maistra_test_tool.Text.Format.{sprintf}

-- The command that looks for pods with a label.
abbrev pub lookup : Text → Text → Text
lookup ns label = sprintf "oc %s get %s -l %s || true" (ns_flag ns ∷ lit "pod" ∷ label ∷ [])

-- Whatever was run before, the shell answers that there is something.
pub record AlwaysFinds (out : Outside) : Type 0 where
  pub succeeds : (asked : List Invocation) → (out.shell asked).error ≡ none
  pub names : (asked : List Invocation) → names_something (out.shell asked).output ≡ true

-- From the first world to the second the commands were run, the last one first; the environment is the same, and the
-- two variables of the package are as given.
pub record Found (w w' : World) (commands : List Text) (tempo otel : Bool) : Type 0 where
  pub outside : w'.outside ≡ w.outside
  pub env : w'.env ≡ w.env
  pub trace : w'.trace ≡ map (λ c. invocation c none [] w) commands ++ w.trace
  pub tempo_existed : w'.tempo_existed_before ≡ tempo
  pub otel_existed : w'.otel_existed_before ≡ otel

Found-refl : (w : World) → Found w w [] w.tempo_existed_before w.otel_existed_before
Found-refl w = record {
  outside = refl;
  env = refl;
  trace = refl;
  tempo_existed = refl;
  otel_existed = refl;
}

module _ {w w1 : World} {commands : List Text} {tempo otel : Bool}
    (f : Found w w1 commands tempo otel) where
  Found-Same : {w2 : World} → Same w1 w2 → Found w w2 commands tempo otel
  Found-Same s = record {
    outside = s.outside ∙ f.outside;
    env = s.env ∙ f.env;
    trace = s.trace ∙ f.trace;
    tempo_existed = s.tempo ∙ f.tempo_existed;
    otel_existed = s.otel ∙ f.otel_existed;
  }

  Found-command : (c : Text) → Found w (after_command c none [] w1) (c ∷ commands) tempo otel
  unfolding after_command invocation
  Found-command c = record {
    outside = f.outside;
    env = f.env;
    trace = rw f.env (ap (λ x. invocation c none [] w ∷ x) f.trace);
    tempo_existed = f.tempo_existed;
    otel_existed = f.otel_existed;
  }

  Found-tempo : Found w (record w1 { tempo_existed_before = true }) commands true otel
  Found-tempo = record {
    outside = f.outside;
    env = f.env;
    trace = f.trace;
    tempo_existed = refl;
    otel_existed = f.otel_existed;
  }

  Found-otel : Found w (record w1 { otel_existed_before = true }) commands tempo true
  Found-otel = record {
    outside = f.outside;
    env = f.env;
    trace = f.trace;
    tempo_existed = f.tempo_existed;
    otel_existed = refl;
  }

  Found-Finds : AlwaysFinds w.outside → AlwaysFinds w1.outside
  Found-Finds a = rw f.outside a

module _ (h : ℕ) where
  finds :
      (ns label : Text) (w : World)
      → AlwaysFinds w.outside
      → resource_by_label_exists h ns (lit "pod") label w
        ≡ (returned true, after_command (lookup ns label) none [] w)
  unfolding resource_by_label_exists Queries.resource_by_label_exists with_kubeconfig after_command
      reply_to ◌>>=◌
  finds ns label w a =
      rw ((execute-Outcome h (lookup ns label) [] w).0 (a.succeeds _)) (rw (a.names _) refl)

  -- A log entry, and then an action that only changes the world.
  logged :
      (msg : Text) (change : World → World) (w : World)
      → (log h msg >> modify change) w ≡ (returned tt, change (log h msg w).1)
  unfolding ◌>>=◌ modify
  logged msg change w = rw (log-returned h msg w) refl

  log-Found :
      (msg : Text) {w w1 : World} {commands : List Text} {tempo otel : Bool}
      → Found w w1 commands tempo otel
      → Found w (log h msg w1).1 commands tempo otel
  log-Found msg {w1 = w1} f = Found-Same f ((log-Still h msg).at w1 (Same-refl w1))

  module _ (s : Sources) {w w1 : World} {commands : List Text} {tempo otel : Bool}
      (f : Found w w1 commands tempo otel) (a : AlwaysFinds w.outside) where
    tempo-Found :
        let (o, w') = install_tempo s h w1 in
        (o ≡ returned tt)
        × Found w w' (lookup tempo_operators_namespace tempo_operator_selector ∷ commands) true otel
    unfolding install_tempo ◌>>=◌
    tempo-Found =
        rw (finds tempo_operators_namespace tempo_operator_selector w1 (Found-Finds f a)) (
          rw
            (logged (lit "Tempo operator is already installed")
              (λ w2. record w2 { tempo_existed_before = true }) _)
            (refl, Found-tempo (log-Found _ (Found-command f _))))

    otel-Found :
        let (o, w') = install_otel s h w1 in
        (o ≡ returned tt)
        × Found w w' (lookup otel_operators_namespace otel_operator_selector ∷ commands) tempo true
    unfolding install_otel ◌>>=◌
    otel-Found = rw (finds otel_operators_namespace otel_operator_selector w1 (Found-Finds f a)) (
        rw
          (logged (lit "OpenTelemetry operator is already installed")
            (λ w2. record w2 { otel_existed_before = true }) _)
          (refl, Found-otel (log-Found _ (Found-command f _))))

    stack-Found :
        (m : Action Unit)
        → let (o, w') =
            (do
              exists ←
                  both_exist
                    (resource_by_label_exists h tracing_namespace (lit "pod") (lit "app=minio"))
                    (resource_by_label_exists h tracing_namespace
                      (lit "pod")
                      (lit "app.kubernetes.io/component=query-frontend"))
              if exists then log h (lit "TempoStack CR is already installed") else m)
              w1 in
          (o ≡ returned tt)
          × Found w w'
              (lookup tracing_namespace (lit "app.kubernetes.io/component=query-frontend")
                ∷ lookup tracing_namespace (lit "app=minio")
                ∷ commands)
              tempo
              otel
    unfolding ◌>>=◌
    stack-Found m =
        let minio = lookup tracing_namespace (lit "app=minio") in
        let asked = Found-command f minio in
        rw (finds tracing_namespace (lit "app=minio") w1 (Found-Finds f a)) (
          rw
            (finds tracing_namespace (lit "app.kubernetes.io/component=query-frontend")
              (after_command minio none [] w1) (Found-Finds asked a))
            ((
              log-returned h (lit "TempoStack CR is already installed") _,
              log-Found _ (Found-command asked _),
            )))

  -- On a cluster that answers every command with the name of something: InstallIfNotExist returns, on any helper. It runs
  -- four commands, each of which asks for pods with a label, and records of both operators that they existed before.
  pub install-Existing :
      (s : Sources) (w : World)
      → AlwaysFinds w.outside
      → let (o, w') = install_if_not_exist s h w in
        (o ≡ returned tt)
        × Found w w'
            (lookup tracing_namespace (lit "app.kubernetes.io/component=query-frontend")
              ∷ lookup tracing_namespace (lit "app=minio")
              ∷ lookup otel_operators_namespace otel_operator_selector
              ∷ lookup tempo_operators_namespace tempo_operator_selector
              ∷ [])
            true
            true
  unfolding install_if_not_exist ◌>>=◌
  install-Existing s w a =
      let (r1, f1) = tempo-Found s (Found-refl w) a in
      rw r1 (let (r2, f2) = otel-Found s f1 a in rw r2 (stack-Found s f2 a _))

-- ===== src/Tempo.antt =====
-- pkg/tempo/install.go: the operators of Tempo and OpenTelemetry, and a stack of Tempo.
pub mod Existing
use maistra_test_tool.World.{Action, gets, modify, pure, ◌>>=◌, ◌>>◌}
use maistra_test_tool.Helper.{log}
use maistra_test_tool.App.{install_and_wait_ready, uninstall_apps}
use maistra_test_tool.App.Manifests.{Sources}
use maistra_test_tool.App.Minio.{minio}
use maistra_test_tool.Operator.{create_operator_via_olm, delete_operator_via_olm}
use maistra_test_tool.Oc.Kubeconfig.{default_oc}
use maistra_test_tool.Oc.Queries.{get_route_url}
use maistra_test_tool.Oc.Waiting.{wait_for}
use maistra_test_tool.Oc.Default.Queries.{resource_by_label_exists}
use maistra_test_tool.Oc.Default.Manifests.{
  create_namespace, recreate_namespace, delete_namespace, delete_resource,
}
use maistra_test_tool.Oc.Default.Pods.{wait_deployment_rollout_complete}
use maistra_test_tool.Oc.Default.Decoded.{apply_template, delete_from_template}
use maistra_test_tool.Prelude.{ℕ, Bool, true, false, not, none, [], ◌∷◌, if◌then◌else◌}
use maistra_test_tool.Text.{Text, lit}

abbrev pub tempo_operators_namespace : Text
tempo_operators_namespace = lit "openshift-tempo-operator"

abbrev pub otel_operators_namespace : Text
otel_operators_namespace = lit "openshift-opentelemetry-operator"

abbrev pub openshift_operators_namespace : Text
openshift_operators_namespace = lit "openshift-operators"

abbrev pub tracing_namespace : Text
tracing_namespace = lit "tracing-system"

abbrev pub tempo_csv_name : Text
tempo_csv_name = lit "tempo-operator"

abbrev pub tempo_operator_selector : Text
tempo_operator_selector = lit "app.kubernetes.io/name=tempo-operator"

abbrev pub otel_csv_name : Text
otel_csv_name = lit "opentelemetry-operator"

abbrev pub otel_operator_selector : Text
otel_operator_selector = lit "app.kubernetes.io/name=opentelemetry-operator"

-- `exists(a) || exists(b)`, where the second is asked only if the first says no.
abbrev either_exists : Action Bool → Action Bool → Action Bool
either_exists a b = do first ← a; if first then pure true else b

abbrev both_exist : Action Bool → Action Bool → Action Bool
both_exist a b = do first ← a; if first then b else pure false

module _ (s : Sources) (h : ℕ) where
  -- `installTempoStack`
  unfoldable pub install_tempo_stack : Action Unit
  install_tempo_stack = do
    recreate_namespace h (tracing_namespace ∷ [])
    install_and_wait_ready h (minio s tracing_namespace ∷ [])
    apply_template h s.engine tracing_namespace s.manifests.tempo_stack none
    log h (lit "Waiting for TempoStack to be ready")
    wait_for default_oc h tracing_namespace (lit "TempoStack") (lit "sample")
        (lit "condition=Ready")
    log h (lit "Waiting for TempoStack to be ready")
    wait_deployment_rollout_complete h tracing_namespace (lit "tempo-sample-compactor" ∷ [])
    delete_resource h tracing_namespace (lit "Route") (lit "tracing-ui" ∷ [])
    apply_template h s.engine tracing_namespace s.manifests.tempo_ui_route none

  -- The part of `InstallIfNotExist` on the operator of Tempo.
  unfoldable pub install_tempo : Action Unit
  install_tempo = do
    exists ←
        either_exists
          (resource_by_label_exists h tempo_operators_namespace (lit "pod") tempo_operator_selector)
          (resource_by_label_exists h openshift_operators_namespace (lit "pod")
            tempo_operator_selector)
    if exists
        then (do
          log h (lit "Tempo operator is already installed")
          modify λ w. record w { tempo_existed_before = true })
        else (do
          create_namespace h (tempo_operators_namespace ∷ [])
          log h (lit "Tempo operator is not installed, installing...")
          create_operator_via_olm s.engine h tempo_operators_namespace tempo_csv_name
              s.manifests.tempo_subscription tempo_operator_selector none)

  -- The part on the operator of OpenTelemetry.
  unfoldable pub install_otel : Action Unit
  install_otel = do
    exists ←
        either_exists
          (resource_by_label_exists h otel_operators_namespace (lit "pod") otel_operator_selector)
          (resource_by_label_exists h openshift_operators_namespace (lit "pod")
            otel_operator_selector)
    if exists
        then (do
          log h (lit "OpenTelemetry operator is already installed")
          modify λ w. record w { otel_existed_before = true })
        else (do
          log h (lit "OpenTelemetry operator is not installed, installing...")
          create_namespace h (otel_operators_namespace ∷ [])
          create_operator_via_olm s.engine h otel_operators_namespace otel_csv_name
              s.manifests.otel_subscription otel_operator_selector none)

  -- `InstallIfNotExist`
  unfoldable pub install_if_not_exist : Action Unit
  unfolding install_tempo install_otel install_tempo_stack
  install_if_not_exist = do
    install_tempo
    install_otel
    exists ←
        both_exist (resource_by_label_exists h tracing_namespace (lit "pod") (lit "app=minio")) (
          resource_by_label_exists h tracing_namespace (lit "pod")
            (lit "app.kubernetes.io/component=query-frontend"))
    if exists then log h (lit "TempoStack CR is already installed") else (do
      log h (lit "TempoStack CR is not installed or it is corrupted, installing...")
      install_tempo_stack)

  -- `Uninstall`
  unfoldable pub uninstall : Action Unit
  uninstall = do
    log h (lit "Uninstalling TempoStack")
    delete_resource h tracing_namespace (lit "Route") (lit "tracing-ui" ∷ [])
    delete_from_template h s.engine tracing_namespace s.manifests.tempo_stack none
    uninstall_apps h (minio s tracing_namespace ∷ [])
    delete_namespace h (tracing_namespace ∷ [])
    tempo ← gets λ w. w.tempo_existed_before
    if not tempo
        then (do
          log h (lit "Uninstalling Tempo operator")
          delete_operator_via_olm s.engine none h tempo_operators_namespace tempo_csv_name
              s.manifests.tempo_subscription
          delete_namespace h (tempo_operators_namespace ∷ []))
        else log h (lit "Tempo operator was existed before testing, uninstalling skipped!")
    otel ← gets λ w. w.otel_existed_before
    if not otel
        then (do
          log h (lit "Uninstalling Otel operator")
          delete_operator_via_olm s.engine none h otel_operators_namespace otel_csv_name
              s.manifests.otel_subscription
          delete_namespace h (otel_operators_namespace ∷ []))
        else log h (lit "Otel operator was existed before testing, uninstalling skipped!")

  -- `GetFrontEndQueryRouteUrl`
  unfoldable pub get_front_end_query_route_url : Action Text
  get_front_end_query_route_url = get_route_url default_oc h tracing_namespace (lit "tracing-ui")

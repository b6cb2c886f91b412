-- ===== src/CertManager.antt =====
-- pkg/certmanageroperator/install.go
use maistra_test_tool.World.{Action, pure, ◌>>=◌, ◌>>◌}
use maistra_test_tool.Helper.{log, log_step}
use maistra_test_tool.Retry.{until_success, until_success_with_options}
use maistra_test_tool.Retry.Options.{RetryOptions, options, max_attempts, delay_between_attempts}
use maistra_test_tool.Check.Assert
use maistra_test_tool.App.Manifests.{Sources}
use maistra_test_tool.Operator.{create_operator_via_olm, delete_operator_via_olm}
use maistra_test_tool.Oc.Pods.{matching_selector}
use maistra_test_tool.Oc.Default.Queries.{resource_by_label_exists, get}
use maistra_test_tool.Oc.Default.Manifests.{
  create_namespace, delete_namespace, apply_string, delete_from_string,
}
use maistra_test_tool.Oc.Default.Pods.{wait_pod_ready_with_options}
use maistra_test_tool.Prelude.{ℕ, none, [], ◌∷◌, if◌then◌else◌}
use maistra_test_tool.Prelude.Int.{pos}
use maistra_test_tool.Text.{Text, lit}

abbrev pub cert_manager_operator_ns : Text
cert_manager_operator_ns = lit "cert-manager-operator"

abbrev pub cert_manager_ns : Text
cert_manager_ns = lit "cert-manager"

abbrev pub cert_manager_csv_name : Text
cert_manager_csv_name = lit "cert-manager-operator"

abbrev pub cert_manager_operator_selector : Text
cert_manager_operator_selector = lit "name=cert-manager-operator"

abbrev every_five_seconds : ℕ → RetryOptions
every_five_seconds n = delay_between_attempts (max_attempts options (pos n)) (pos 5_000_000_000)

module _ (s : Sources) (h : ℕ) where
  -- `install`
  unfoldable pub install : Action Unit
  install = do
    log_step h (lit "Create namespace for cert-manager-operator")
    create_namespace h (cert_manager_operator_ns ∷ [])
    log_step h (lit "Install cert-manager-operator")
    create_operator_via_olm s.engine h cert_manager_operator_ns cert_manager_csv_name
        s.manifests.cert_manager_subscription cert_manager_operator_selector none
    log_step h (lit "Wait for cert manager control plane")
    wait_pod_ready_with_options h (every_five_seconds 70)
        (matching_selector (lit "app=cert-manager") cert_manager_ns)
    wait_pod_ready_with_options h (every_five_seconds 70)
        (matching_selector (lit "app=cainjector") cert_manager_ns)
    wait_pod_ready_with_options h (every_five_seconds 70)
        (matching_selector (lit "app=webhook") cert_manager_ns)
    log_step h (lit "Wait for cert-manager-webhook service available")
    until_success h (λ t. do
      get t cert_manager_ns (lit "service") (lit "cert-manager-webhook") (
          Assert.output_does_not_contain (lit "NotFound")
            (lit "Service \"cert-manager-webhook\" found")
            (lit "Service \"cert-manager-webhook\" not found")
          ∷ [])
      pure tt)
    log_step h (lit "Create root ca")
    until_success_with_options h (every_five_seconds 20)
        (λ t. apply_string t cert_manager_ns (s.manifests.root_ca ∷ []))

  -- `InstallIfNotExist`
  unfoldable pub install_if_not_exist : Action Unit
  unfolding install
  install_if_not_exist = do
    exists ←
        resource_by_label_exists h cert_manager_operator_ns (lit "pod")
          (lit "name=cert-manager-operator")
    if exists then log h (lit "cert-manager-operator is already installed") else (do
      log h (lit "cert-manager-operator is not installed, starting installation")
      install)

  -- `Uninstall`
  unfoldable pub uninstall : Action Unit
  uninstall = do
    delete_from_string h cert_manager_ns (s.manifests.root_ca ∷ [])
    delete_operator_via_olm s.engine none h cert_manager_operator_ns cert_manager_csv_name
        s.manifests.cert_manager_subscription
    delete_namespace h (cert_manager_operator_ns ∷ [])
    delete_namespace h (cert_manager_ns ∷ [])

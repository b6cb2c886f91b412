-- ===== src/Operator.antt =====
-- pkg/util/operator/operators.go: operators and their subscriptions;
-- pkg/util/istioctl/istioctl.go and the two commands of pkg/util/istio/istio.go on the ingress gateway.
use maistra_test_tool.Template.{Engine}
use maistra_test_tool.Oc.Default.Decoded.{apply_template, delete_from_template}
use maistra_test_tool.Oc.Default.Manifests.{delete_resource}
use maistra_test_tool.World.{Action, pure, when, ◌>>=◌, ◌>>◌}
use maistra_test_tool.Helper.{log, error}
use maistra_test_tool.Retry.{until_success, until_success_with_options}
use maistra_test_tool.Retry.Options.{RetryOptions, options, max_attempts, delay_between_attempts}
use maistra_test_tool.Check.Common.{CheckFunc}
use maistra_test_tool.Shell.{execute, executef}
use maistra_test_tool.Oc.Kubeconfig.{default_oc}
use maistra_test_tool.Oc.Pods.{PodLocatorFunc, exec, matching_selector}
use maistra_test_tool.Oc.Waiting.{wait_for, wait_pod_ready_with_options}
use maistra_test_tool.Prelude.{ℕ, Bool, not, List, [], ◌∷◌}
use maistra_test_tool.Prelude.Int.{pos}
use maistra_test_tool.Text.{Text, lit, contains, trim_space}
use maistra_test_tool.Text.Format.{sprintf}

-- `GetFullCsvName`
unfoldable pub get_full_csv_name : ℕ → Text → Text → Action Text
get_full_csv_name h namespace partial_csv_name = do
  output ←
      execute h
        (sprintf "oc get csv -n %s -o custom-columns=\"NAME:.metadata.name\" |grep %s ||true"
          (namespace ∷ partial_csv_name ∷ []))
        []
  pure (trim_space output)

-- `operatorCsvExistsGlobally`
unfoldable pub operator_csv_exists_globally : ℕ → Text → Action Bool
operator_csv_exists_globally h csv_version = do
  output ←
      execute h
        (sprintf "oc get csv -A -o custom-columns=\"NAME:.metadata.name\" |grep %s ||true"
          (csv_version ∷ []))
        []
  pure (contains output csv_version)

abbrev patient : RetryOptions
patient = max_attempts (delay_between_attempts options (pos 5_000_000_000)) (pos 70)

-- `oc.WaitForPhase`
unfoldable pub wait_for_phase : ℕ → Text → Text → Text → Text → Action Unit
wait_for_phase h ns kind name phase =
    wait_for default_oc h ns kind name (sprintf "jsonpath='{.status.phase}'=%s" (phase ∷ []))

-- `WaitForOperatorInNamespaceReady`
unfoldable pub wait_for_operator_in_namespace_ready : ℕ → Text → Text → Text → Action Unit
unfolding get_full_csv_name operator_csv_exists_globally wait_for_phase
wait_for_operator_in_namespace_ready h namespace operator_selector partial_csv_name = do
  log h (sprintf "Waiting for operator csv %s to succeed" (partial_csv_name ∷ []))
  until_success_with_options h patient (λ t. do
    exists ← operator_csv_exists_globally t partial_csv_name
    when (not exists)
        (error t (sprintf "Operator csv %s is not yet installed" (partial_csv_name ∷ []))))
  csv_full_name ← get_full_csv_name h namespace partial_csv_name
  wait_for_phase h namespace (lit "csv") csv_full_name (lit "Succeeded")
  log h (sprintf "Waiting for operator pod with the selector %s" (operator_selector ∷ []))
  wait_pod_ready_with_options default_oc h patient (matching_selector operator_selector namespace)

module _ {V : Type 0} (engine : Engine V) where
  -- `CreateOperatorViaOlm`
  unfoldable pub create_operator_via_olm : ℕ → Text → Text → Text → Text → V → Action Unit
  unfolding wait_for_operator_in_namespace_ready
  create_operator_via_olm h namespace partial_csv_name subscription_yaml selector input = do
    apply_template h engine namespace subscription_yaml input
    wait_for_operator_in_namespace_ready h namespace selector partial_csv_name

  -- `DeleteOperatorViaOlm`, with nil as the input of the template
  unfoldable pub delete_operator_via_olm : V → ℕ → Text → Text → Text → Action Unit
  unfolding get_full_csv_name
  delete_operator_via_olm nil h namespace partial_csv_name subscription_yaml = do
    csv_full_name ← get_full_csv_name h namespace partial_csv_name
    log h (sprintf "Deleting subscription for %s" (csv_full_name ∷ []))
    delete_from_template h engine namespace subscription_yaml nil
    log h (sprintf "Deleting csv %s" (csv_full_name ∷ []))
    delete_resource h namespace (lit "csv") (csv_full_name ∷ [])

-- `istioctl.CheckClusters`
unfoldable pub check_clusters : ℕ → PodLocatorFunc → List CheckFunc → Action Unit
check_clusters h pod_locator checks = until_success h (λ t. do
  exec default_oc t pod_locator (lit "istio-proxy") (lit "curl localhost:15000/clusters") checks
  pure tt)

-- `GetIngressGatewayHost`
unfoldable pub get_ingress_gateway_host : ℕ → Text → Action Text
get_ingress_gateway_host h mesh_namespace = executef h (
    sprintf "kubectl -n %s get routes istio-ingressgateway -o jsonpath='{.spec.host}'"
      (mesh_namespace ∷ []))

-- `GetIngressGatewaySecurePort`
unfoldable pub get_ingress_gateway_secure_port : ℕ → Text → Action Text
get_ingress_gateway_secure_port h mesh_namespace = executef h (
    sprintf
      "kubectl -n %s get service istio-ingressgateway -o jsonpath='{.spec.ports[?(@.name==\"https\")].port}'"
      (mesh_namespace ∷ []))

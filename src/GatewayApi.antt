-- ===== src/GatewayApi.antt =====
-- pkg/util/gatewayapi/gatewayapi.go: the version of the gateway API that goes with a version of the mesh.
pub mod Conditions
use maistra_test_tool.World.{Action, ◌>>◌, pure}
use maistra_test_tool.Shell.{executef}
use maistra_test_tool.Version.{Version, equals}
use maistra_test_tool.Version.Known
use maistra_test_tool.Prelude.{ℕ, [], ◌∷◌, ◌++◌, if◌then◌else◌}
use maistra_test_tool.Text.{Text, lit}
use maistra_test_tool.Text.Format.{sprintf}

-- `getSupportedVersion`
unfoldable pub get_supported_version : Version → Text
get_supported_version smcp =
    if equals smcp Known.smcp_2_3
    then lit "github.com/kubernetes-sigs/gateway-api/config/crd/experimental?ref=v0.5.1"
    else if equals smcp Known.smcp_2_4
    then lit "github.com/kubernetes-sigs/gateway-api/config/crd/experimental?ref=v0.5.1"
    else if equals smcp Known.smcp_2_5
    then lit "github.com/kubernetes-sigs/gateway-api/config/crd/experimental?ref=v0.6.2"
    else if equals smcp Known.smcp_2_6
    then lit "github.com/kubernetes-sigs/gateway-api/config/crd?ref=v1.0.0"
    else lit "github.com/kubernetes-sigs/gateway-api/config/crd?ref=v1.0.0"

-- `InstallSupportedVersion`
unfoldable pub install_supported_version : ℕ → Version → Action Unit
unfolding get_supported_version
install_supported_version h smcp = do
  executef h (
      sprintf
        "kubectl get crd gateways.gateway.networking.k8s.io &> /dev/null && echo 'Gateway API CRDs already installed' || kubectl apply -k %s"
        (get_supported_version smcp ∷ []))
  pure tt

-- `UninstallSupportedVersion`
unfoldable pub uninstall_supported_version : ℕ → Version → Action Unit
unfolding get_supported_version
uninstall_supported_version h smcp = do
  executef h (
      sprintf
        "kubectl get crd gateways.gateway.networking.k8s.io &> /dev/null && kubectl delete -k %s || echo 'Gateway API CRDs not found, nothing to delete'"
        (get_supported_version smcp ∷ []))
  pure tt

-- `GetDefaultServiceName`
unfoldable pub get_default_service_name : Version → Text → Text → Text
get_default_service_name smcp gateway_name class_name =
    if equals smcp Known.smcp_2_3
    then gateway_name
    else if equals smcp Known.smcp_2_4
    then gateway_name
    else if equals smcp Known.smcp_2_5
    then gateway_name ++ (lit "-" ++ class_name)
    else if equals smcp Known.smcp_2_6
    then gateway_name ++ (lit "-" ++ class_name)
    else gateway_name ++ (lit "-" ++ class_name)

-- `GetWaitingCondition`
unfoldable pub get_waiting_condition : Version → Text
get_waiting_condition smcp =
    if equals smcp Known.smcp_2_3
    then lit "Ready"
    else if equals smcp Known.smcp_2_4
    then lit "Ready"
    else if equals smcp Known.smcp_2_5
    then lit "Programmed"
    else if equals smcp Known.smcp_2_6
    then lit "Programmed"
    else lit "Programmed"

-- ===== src/Oc/Services.antt =====
-- pkg/util/oc/service_commands.go
use maistra_test_tool.World.{Action, pure, ◌>>=◌}
use maistra_test_tool.Oc.Kubeconfig.{Oc, invoke, invokef}
use maistra_test_tool.Prelude.{ℕ, [], ◌∷◌, if◌then◌else◌}
use maistra_test_tool.Text.{Text, is_empty}
use maistra_test_tool.Text.Format.{sprintf}

module _ (o : Oc) (h : ℕ) (ns service_name : Text) where
  -- `GetServiceClusterIP`
  unfoldable pub get_service_cluster_ip : Action Text
  get_service_cluster_ip =
      invoke o h
        (sprintf "kubectl get service -n %s %s -o jsonpath='{.spec.clusterIP}'"
          (ns ∷ service_name ∷ []))
        []

  -- `GetLoadBalancerAddress`
  unfoldable pub get_load_balancer_address : Action Text
  get_load_balancer_address = do
    addr ← invokef o h (
        sprintf "oc -n %s get svc %s -o jsonpath=\"{.status.loadBalancer.ingress[0].ip}\""
          (ns ∷ service_name ∷ []))
    if is_empty addr
        then invokef o h (
            sprintf "oc -n %s get svc %s -o jsonpath=\"{.status.loadBalancer.ingress[0].hostname}\""
              (ns ∷ service_name ∷ []))
        else pure addr

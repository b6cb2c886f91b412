-- ===== src/Tests/Cluster.antt =====
-- Scripts of the client of the cluster at concrete inputs.
use maistra_test_tool.World.Onward.{After}
use maistra_test_tool.Oc.Kubeconfig.{default_oc}
use maistra_test_tool.Oc.Onward.{not_set}
use maistra_test_tool.Oc.Onward.Scripts.{
  Operation, perform_all, perform_all-After, create_namespace, apply_string, patch, wait_smcp_ready,
  undo_rollout,
}
use maistra_test_tool.Oc.Onward.Ran.{RunsUnder, operations-RunsUnder}
use maistra_test_tool.Oc.Namespaces
use maistra_test_tool.Oc.Waiting
use maistra_test_tool.Tests.Client.{
  second_cluster, second_cluster_used, second_cluster_valid, no_kubeconfig_valid,
}
use maistra_test_tool.Tests.Data.{online, offline}
use maistra_test_tool.Prelude.{List, [], ◌∷◌, refl, some}
use maistra_test_tool.Prelude.Int.{pos}
use maistra_test_tool.Text.{lit}

abbrev install_mesh : List Operation
install_mesh =
    create_namespace (lit "istio-system" ∷ [])
    ∷ apply_string (lit "istio-system") (lit "{}" ∷ [])
    ∷ patch (lit "istio-system") (lit "smcp") (lit "basic") (lit "merge") (lit "{}")
    ∷ wait_smcp_ready (lit "istio-system") (lit "basic")
    ∷ undo_rollout (lit "istio-system") (lit "deploy") (lit "istiod-basic")
    ∷ []

perform_all-After_example : After offline (perform_all default_oc 0 install_mesh offline).1
perform_all-After_example = perform_all-After default_oc 0 install_mesh offline (not_set refl)

operations-RunsUnder_example :
    RunsUnder
      (some second_cluster.kubeconfig)
      online
      (Namespaces.recreate_namespace second_cluster 0 (lit "bookinfo" ∷ []))
    × RunsUnder
        (some second_cluster.kubeconfig)
        online
        (Waiting.wait_smcp_ready second_cluster 0 (lit "istio-system") (lit "basic"))
    × RunsUnder (some second_cluster.kubeconfig) online (
        Waiting.scale_deployment_and_wait second_cluster 0
          (lit "istio-system")
          (lit "basic")
          (pos 2))
operations-RunsUnder_example =
    operations-RunsUnder second_cluster 0 online second_cluster_used second_cluster_valid
      no_kubeconfig_valid (lit "istio-system") (lit "basic") (lit "bookinfo" ∷ []) (pos 2)

-- ===== src/Oc/Onward/Pods.antt =====
-- pkg/util/oc/pod_commands.go and service_commands.go: commands on pods, as actions that go on under the
-- kubeconfig of the client, with locators that do.
use maistra_test_tool.World.{World}
use maistra_test_tool.World.Keeps.{Keeps, Keeps-bind, Keeps-pure, keeps_rules, Keeps-gets}
use maistra_test_tool.World.Onward.{After}
use maistra_test_tool.Check.Common.{CheckFunc}
use maistra_test_tool.Oc.Kubeconfig.{Oc}
use maistra_test_tool.Oc.Pods
use maistra_test_tool.Oc.Pods.{PodLocatorFunc, NamespacedName}
use maistra_test_tool.Oc.Services
use maistra_test_tool.Prelude.{ℕ, List, [], All, ◌∷◌}
use maistra_test_tool.Text.{Text}
use maistra_test_tool.Check.Onward.{IsOnwardCheck}
use maistra_test_tool.Oc.Onward.{Fits, invoke-Onward, client_rules}
use maistra_test_tool.Oc.Onward.Manifests.{get_all_resources_names-Onward}
use maistra_test_tool.Shell.Onward.{execute-Onward}

abbrev pub IsOnwardLocator : World → Oc → PodLocatorFunc → Type 0
IsOnwardLocator w0 o pod_locator = (h : ℕ) → Keeps (After w0) (pod_locator h o)

module _ {w0 : World} where
  module _ (o : Oc) (fits : Fits o w0) where
    only_pod-Onward :
        (h : ℕ) (quoted ns : Text) (pods : List NamespacedName)
        → Keeps (After w0) (Pods.only_pod h quoted ns pods)
    unfolding Pods.only_pod
    only_pod-Onward h quoted ns [] = search client_rules
    only_pod-Onward h quoted ns (pod ∷ []) = search client_rules
    only_pod-Onward h quoted ns (pod ∷ p ∷ pods) = search client_rules

    get_pods-Onward :
        (h : ℕ) (selector ns : Text) → Keeps (After w0) (Pods.get_pods h o selector ns)
    unfolding Pods.get_pods
    get_pods-Onward h selector ns =
        Keeps-bind _ _ (get_all_resources_names-Onward o fits h ns _ selector)
          (λ pods. Keeps-pure _)

    pub matching_selector-Onward :
        (selector ns : Text) → IsOnwardLocator w0 o (Pods.matching_selector selector ns)
    unfolding Pods.matching_selector
    matching_selector-Onward selector ns h = search (keeps_rules, get_pods-Onward, only_pod-Onward)

    pub matching_name-Onward : (ns name : Text) → IsOnwardLocator w0 o (Pods.matching_name ns name)
    unfolding Pods.matching_name
    matching_name-Onward ns name h = Keeps-pure _

    module _ (h : ℕ) where
      pub get_service_cluster_ip-Onward :
          (ns name : Text) → Keeps (After w0) (Services.get_service_cluster_ip o h ns name)
      unfolding Services.get_service_cluster_ip
      get_service_cluster_ip-Onward ns name = invoke-Onward o fits h _ [] tt

      pub get_load_balancer_address-Onward :
          (ns name : Text) → Keeps (After w0) (Services.get_load_balancer_address o h ns name)
      unfolding Services.get_load_balancer_address
      get_load_balancer_address-Onward ns name = search client_rules

      pub restart_deployments-Onward :
          (ns : Text) (names : List Text) → Keeps (After w0) (Pods.restart_deployments o h ns names)
      unfolding Pods.restart_deployments
      restart_deployments-Onward ns names = search client_rules

      pub restart_all_pods-Onward :
          (namespaces : List Text) → Keeps (After w0) (Pods.restart_all_pods o h namespaces)
      unfolding Pods.restart_all_pods
      restart_all_pods-Onward namespaces = search client_rules

      module _ (pod_locator : PodLocatorFunc) (located : IsOnwardLocator w0 o pod_locator) where
        pub delete_pod_no_wait-Onward : Keeps (After w0) (Pods.delete_pod_no_wait o h pod_locator)
        unfolding Pods.delete_pod_no_wait
        delete_pod_no_wait-Onward = search (client_rules, located)

        pub get_pod_ip-Onward : Keeps (After w0) (Pods.get_pod_ip o h pod_locator)
        unfolding Pods.get_pod_ip
        get_pod_ip-Onward = Keeps-bind _ _ (located h) (λ pod. invoke-Onward o fits h _ [] tt)

        module _ (container : Text) (checks : List CheckFunc)
            (k : All (IsOnwardCheck w0) checks) where
          pub exec-Onward :
              (cmd : Text) → Keeps (After w0) (Pods.exec o h pod_locator container cmd checks)
          unfolding Pods.exec
          exec-Onward cmd =
              Keeps-bind _ _ (located h) (λ pod.
                Keeps-bind _ _ (search client_rules) (λ _. invoke-Onward o fits h _ checks k))

          pub logs-Onward : Keeps (After w0) (Pods.logs o h pod_locator container checks)
          unfolding Pods.logs
          logs-Onward =
              Keeps-bind _ _ (located h)
                (λ pod. Keeps-bind _ _ (invoke-Onward o fits h _ checks k) (λ _. Keeps-pure tt))

          pub logs_since-Onward :
              (start : ℕ)
              → Keeps (After w0) (Pods.logs_since o h start pod_locator container checks)
          unfolding Pods.logs_since
          logs_since-Onward start = Keeps-bind _ _ (located h) (λ pod.
              Keeps-bind _ _ (Keeps-gets _)
                (λ now. Keeps-bind _ _ (invoke-Onward o fits h _ checks k) (λ _. Keeps-pure tt)))

      pub logs_from_pods-Onward :
          (ns selector : Text) (checks : List CheckFunc)
          → All (IsOnwardCheck w0) checks
          → Keeps (After w0) (Pods.logs_from_pods o h ns selector checks)
      unfolding Pods.logs_from_pods
      logs_from_pods-Onward ns selector checks k =
          Keeps-bind _ _ (invoke-Onward o fits h _ checks k) (λ _. Keeps-pure tt)

      pub get_all_resources-Onward :
          (ns : Text) (checks : List CheckFunc)
          → All (IsOnwardCheck w0) checks
          → Keeps (After w0) (Pods.get_all_resources o h ns checks)
      unfolding Pods.get_all_resources
      get_all_resources-Onward ns checks k =
          Keeps-bind _ _ (execute-Onward h _ checks k) (λ _. Keeps-pure tt)

-- ===== src/Oc/Default/Pods.antt =====
-- pkg/util/oc/oc.go: the functions on pods and those that wait, which pass their arguments on to `DefaultOC`.
use maistra_test_tool.Oc.Pods
use maistra_test_tool.Oc.Waiting
use maistra_test_tool.Oc.Kubeconfig.{default_oc}
use maistra_test_tool.Oc.Pods.{PodLocatorFunc}
use maistra_test_tool.Check.Common.{CheckFunc}
use maistra_test_tool.Retry.Options.{RetryOptions, options}
use maistra_test_tool.World.{Action}
use maistra_test_tool.Prelude.{ℕ, List, [], ◌∷◌}
use maistra_test_tool.Prelude.Int.{ℤ}
use maistra_test_tool.Text.{Text}
use maistra_test_tool.Text.Format.{sprintf}

module _ (h : ℕ) where
  -- `WaitSMCPReady`
  unfoldable pub wait_smcp_ready : Text → Text → Action Unit
  wait_smcp_ready ns name = Waiting.wait_smcp_ready default_oc h ns name

  -- `WaitKialiReady`
  unfoldable pub wait_kiali_ready : Text → Text → Action Unit
  wait_kiali_ready ns name = Waiting.wait_kiali_ready default_oc h ns name

  -- `Exec`
  unfoldable pub exec : PodLocatorFunc → Text → Text → List CheckFunc → Action Text
  exec pod_locator container cmd checks = Pods.exec default_oc h pod_locator container cmd checks

  -- `GetPodIP`
  unfoldable pub get_pod_ip : PodLocatorFunc → Action Text
  get_pod_ip pod_locator = Pods.get_pod_ip default_oc h pod_locator

  -- `Logs`
  unfoldable pub logs : PodLocatorFunc → Text → List CheckFunc → Action Unit
  logs pod_locator container checks = Pods.logs default_oc h pod_locator container checks

  -- `LogsSince`
  unfoldable pub logs_since : ℕ → PodLocatorFunc → Text → List CheckFunc → Action Unit
  logs_since start pod_locator container checks =
      Pods.logs_since default_oc h start pod_locator container checks

  -- `LogsFromPods`
  unfoldable pub logs_from_pods : Text → Text → List CheckFunc → Action Unit
  logs_from_pods ns selector checks = Pods.logs_from_pods default_oc h ns selector checks

  -- `WaitPodRunning`
  unfoldable pub wait_pod_running : PodLocatorFunc → Action Unit
  wait_pod_running pod_locator = Waiting.wait_pod_running default_oc h pod_locator

  -- `WaitPodReady`
  unfoldable pub wait_pod_ready : PodLocatorFunc → Action Unit
  wait_pod_ready pod_locator = Waiting.wait_pod_ready_with_options default_oc h options pod_locator

  -- `WaitPodReadyWithOptions`
  unfoldable pub wait_pod_ready_with_options : RetryOptions → PodLocatorFunc → Action Unit
  wait_pod_ready_with_options retry_options pod_locator =
      Waiting.wait_pod_ready_with_options default_oc h retry_options pod_locator

  -- `WaitDeploymentRolloutComplete`
  unfoldable pub wait_deployment_rollout_complete : Text → List Text → Action Unit
  wait_deployment_rollout_complete ns deployment_names =
      Waiting.wait_deployment_rollout_complete default_oc h ns deployment_names

  -- `RestartAllPodsAndWaitReady`
  unfoldable pub restart_all_pods_and_wait_ready : List Text → Action Unit
  restart_all_pods_and_wait_ready namespaces =
      Waiting.restart_all_pods_and_wait_ready default_oc h namespaces

  -- `RestartAllPods`
  unfoldable pub restart_all_pods : List Text → Action Unit
  restart_all_pods namespaces = Pods.restart_all_pods default_oc h namespaces

  -- `WaitPodsExist`
  unfoldable pub wait_pods_exist : List Text → Action Unit
  wait_pods_exist namespaces = Waiting.wait_pods_exist default_oc h namespaces

  -- `WaitAllPodsReady`
  unfoldable pub wait_all_pods_ready : List Text → Action Unit
  wait_all_pods_ready namespaces = Waiting.wait_all_pods_ready default_oc h namespaces

  -- `DeletePodNoWait`
  unfoldable pub delete_pod_no_wait : PodLocatorFunc → Action Unit
  delete_pod_no_wait pod_locator = Pods.delete_pod_no_wait default_oc h pod_locator

  -- `WaitCondition`
  unfoldable pub wait_condition : Text → Text → Text → Text → Action Unit
  wait_condition ns kind name condition =
      Waiting.wait_for default_oc h ns kind name (sprintf "condition=%s" (condition ∷ []))

  -- `WaitSMMRReady`
  unfoldable pub wait_smmr_ready : Text → Action Unit
  wait_smmr_ready ns = Waiting.wait_smmr_ready default_oc h ns

  -- `GetAllResources`
  unfoldable pub get_all_resources : Text → List CheckFunc → Action Unit
  get_all_resources ns checks = Pods.get_all_resources default_oc h ns checks

  -- `DeletePod`
  unfoldable pub delete_pod : PodLocatorFunc → Action Unit
  delete_pod pod_locator = Waiting.delete_pod default_oc h pod_locator

  -- `ScaleDeploymentAndWait`
  unfoldable pub scale_deployment_and_wait : Text → Text → ℤ → Action Unit
  scale_deployment_and_wait ns name replicas =
      Waiting.scale_deployment_and_wait default_oc h ns name replicas

  -- `WaitUntilResourceExist`
  unfoldable pub wait_until_resource_exist : Text → Text → Text → Action Unit
  wait_until_resource_exist ns kind name =
      Waiting.wait_until_resource_exist default_oc h ns kind name

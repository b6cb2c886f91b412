-- ===== src/Oc/Waiting.antt =====
-- pkg/util/oc/pod_commands.go and oc_struct.go: the operations that wait for the cluster. A variable that
-- a closure assigns is the result of the closure here.
pub mod Bounds
use maistra_test_tool.World.{Action, pure, gets, modify, for_each, ◌>>=◌, ◌>>◌}
use maistra_test_tool.Helper.{fatal, fail_now, failed, log, flush_log_buffer}
use maistra_test_tool.Retry.{until_success, until_success_with_options}
use maistra_test_tool.Retry.Attempt.{attempt}
use maistra_test_tool.Retry.Options.{RetryOptions, options, log_attempts, delay_between_attempts}
use maistra_test_tool.Shell.{execute, executef}
use maistra_test_tool.Check.Assert
use maistra_test_tool.Check.Require
use maistra_test_tool.Oc.Kubeconfig.{Oc, default_oc, with_kubeconfig, invokef}
use maistra_test_tool.Oc.Retrying.{ns_flag}
use maistra_test_tool.Oc.Pods.{PodLocatorFunc, restart_all_pods}
use maistra_test_tool.Prelude.{
  ℕ, zero, suc, ◌+◌, ◌-◌, ◌/◌, ◌*◌, List, [], ◌∷◌, false, if◌then◌else◌,
}
use maistra_test_tool.Prelude.Int.{ℤ, pos, negsuc, ◌-ℤ◌}
use maistra_test_tool.Text.{Text, lit, teq, contains}
use maistra_test_tool.Text.Format.{sprintf}
use maistra_test_tool.Text.Decimal.{itoa}

-- time.Duration.Round to seconds: halves are rounded away from zero.
round_ℕ : ℕ → ℕ
round_ℕ d = (d + 500_000_000) / 1_000_000_000 * 1_000_000_000

unfoldable pub round_to_second : ℤ → ℤ
unfolding round_ℕ
round_to_second (pos n) = pos (round_ℕ n)
round_to_second (negsuc n) = pos 0 -ℤ pos (round_ℕ (n + 1))

module _ (o : Oc) where
  -- `WaitPodRunning`
  unfoldable pub wait_pod_running : ℕ → PodLocatorFunc → Action Unit
  wait_pod_running h pod_locator = until_success_with_options h (log_attempts options false) (λ t.
      with_kubeconfig o t (do
        pod ← pod_locator t o
        phase ← executef t (
            sprintf "kubectl -n %s get pods %s -o jsonpath=\"{.status.phase}\""
              (pod.namespace ∷ pod.name ∷ []))
        if teq phase (lit "Running")
            then log t (sprintf "Pod %s/%s is running!" (pod.namespace ∷ pod.name ∷ []))
            else fatal t
                (sprintf "Pod %s/%s is not running: %s" (pod.namespace ∷ pod.name ∷ phase ∷ []))))

  -- `WaitPodReadyWithOptions`
  unfoldable pub wait_pod_ready_with_options : ℕ → RetryOptions → PodLocatorFunc → Action Unit
  wait_pod_ready_with_options h options pod_locator = until_success_with_options h options (λ t. do
    pod ← pod_locator t o
    condition ← invokef o t (
        sprintf "kubectl -n %s wait --for condition=Ready pod %s --timeout 1s || true"
          (pod.namespace ∷ pod.name ∷ []))
    if contains condition (lit "condition met")
        then log t (sprintf "Pod %s in namespace %s is ready!" (pod.name ∷ pod.namespace ∷ []))
        else fatal t (
            sprintf "error: %s in namespace %s is not ready: %s"
              (pod.name ∷ pod.namespace ∷ condition ∷ [])))

  -- `WaitDeploymentRolloutComplete`: four minutes for all of them.
  unfoldable pub wait_deployment_rollout_complete : ℕ → Text → List Text → Action Unit
  unfolding round_to_second
  wait_deployment_rollout_complete h ns names = do
    start ← gets λ w. w.clock
    for_each names (λ name. do
      now ← gets λ w. w.clock
      left ←
          gets λ w. w.outside.duration (round_to_second (pos 240_000_000_000 -ℤ pos (now - start)))
      invokef o h
          (sprintf "kubectl -n %s rollout status deploy/%s --timeout=%s" (ns ∷ name ∷ left ∷ []))
      pure tt)

  -- `WaitAllPodsReady`
  unfoldable pub wait_all_pods_ready : ℕ → List Text → Action Unit
  wait_all_pods_ready h namespaces = for_each namespaces (λ ns. do
    invokef o h (sprintf "oc -n %s wait --for condition=Ready --all pods --timeout 180s" (ns ∷ []))
    pure tt)

  -- `RestartAllPodsAndWaitReady`
  unfoldable pub restart_all_pods_and_wait_ready : ℕ → List Text → Action Unit
  unfolding wait_all_pods_ready
  restart_all_pods_and_wait_ready h namespaces = do
    restart_all_pods o h namespaces
    wait_all_pods_ready h namespaces

  -- `WaitPodsExist`
  unfoldable pub wait_pods_exist : ℕ → List Text → Action Unit
  wait_pods_exist h namespaces = for_each namespaces (λ ns. until_success h (λ t. do
    execute t (sprintf "oc get pods -n %s" (ns ∷ [])) (
        Assert.output_does_not_contain (sprintf "No resources found in %s namespace." (ns ∷ []))
          (sprintf "Found pods in %s" (ns ∷ [])) (sprintf "Did not find any pod in %s" (ns ∷ []))
        ∷ [])
    pure tt))

  module _ (h : ℕ) (ns kind name for_condition : Text) where
    -- An attempt of `WaitFor`
    unfoldable pub wait_attempt : ℕ → Action Unit
    wait_attempt t = do
      execute t
          (sprintf "oc wait %s %s/%s --for %s --timeout %s"
            (ns_flag ns ∷ kind ∷ name ∷ for_condition ∷ lit "10s" ∷ []))
          (Require.output_contains (lit "condition met")
              (sprintf "Condition %s met by %s %s/%s" (for_condition ∷ kind ∷ ns ∷ name ∷ []))
              (sprintf "Condition %s not met by %s %s/%s" (for_condition ∷ kind ∷ ns ∷ name ∷ []))
            ∷ [])
      pure tt

    unfoldable pub wait_rounds : ℕ → ℕ → Action Unit
    unfolding wait_attempt
    wait_rounds zero attempt_t = do
      flush_log_buffer attempt_t
      description ← executef h (sprintf "oc describe -n %s %s/%s" (ns ∷ kind ∷ name ∷ []))
      log h (sprintf "Running oc describe -n %s %s/%s\n%s" (ns ∷ kind ∷ name ∷ description ∷ []))
      fail_now h
    wait_rounds (suc n) _ = do
      log h (sprintf "Wait for condition %s on %s %s/%s..." (for_condition ∷ kind ∷ ns ∷ name ∷ []))
      attempt_t ← attempt h wait_attempt
      has_failed ← failed attempt_t
      if has_failed then wait_rounds n attempt_t else flush_log_buffer attempt_t

    -- `WaitFor`; the address 0 stands for the attempt before the first one.
    unfoldable pub wait_for : Action Unit
    unfolding wait_rounds
    wait_for = wait_rounds 30 0

  -- `WaitSMCPReady`
  unfoldable pub wait_smcp_ready : ℕ → Text → Text → Action Unit
  unfolding wait_for
  wait_smcp_ready h ns name =
      with_kubeconfig o h (wait_for h ns (lit "smcp") name (lit "condition=Ready"))

  -- `WaitKialiReady`
  unfoldable pub wait_kiali_ready : ℕ → Text → Text → Action Unit
  unfolding wait_for
  wait_kiali_ready h ns name =
      with_kubeconfig o h (wait_for h ns (lit "Kiali") name (lit "condition=Successful"))

  -- `WaitSMMRReady`
  unfoldable pub wait_smmr_ready : ℕ → Text → Action Unit
  wait_smmr_ready h ns = do
    log h (sprintf "Wait for smmr/default to be ready in namespace %s" (ns ∷ []))
    with_kubeconfig o h (do
      executef h
          (sprintf "oc -n %s wait --for condition=Ready smmr/default --timeout 300s" (ns ∷ []))
      pure tt)

  -- `DeletePod`: the kubeconfig is used by the locator only.
  unfoldable pub delete_pod : ℕ → PodLocatorFunc → Action Unit
  delete_pod h pod_locator = do
    modify λ w. record w { found_pod = ([], []) }
    until_success h (λ t. do
      pod ← pod_locator t o
      modify λ w. record w { found_pod = (pod.namespace, pod.name) })
    until_success h (λ t. do
      (ns, name) ← gets λ w. w.found_pod
      execute t (sprintf "oc delete pod %s -n %s" (name ∷ ns ∷ [])) (
          Assert.output_contains (lit "deleted") (sprintf "Pod %s is being deleted" (name ∷ []))
            (sprintf "Pod %s deletion return an error" (name ∷ []))
          ∷ [])
      pure tt)

  -- `WaitUntilResourceExist`
  unfoldable pub wait_until_resource_exist : ℕ → Text → Text → Text → Action Unit
  wait_until_resource_exist h ns kind name = do
    log h (sprintf "Wait until %s/%s in namespace %s exist" (kind ∷ name ∷ ns ∷ []))
    with_kubeconfig o h (
        until_success_with_options h (delay_between_attempts options (pos 5_000_000_000)) (λ t. do
          execute t (sprintf "oc -n %s get %s/%s --ignore-not-found" (ns ∷ kind ∷ name ∷ [])) (
              Assert.output_does_not_contain name (sprintf "%s/%s was deleted" (kind ∷ name ∷ []))
                (sprintf "%s/%s still exist" (kind ∷ name ∷ []))
              ∷ [])
          pure tt))

-- `ScaleDeploymentAndWait`: the wait uses the client of the package, whose kubeconfig is not set.
unfoldable pub scale_deployment_and_wait : Oc → ℕ → Text → Text → ℤ → Action Unit
unfolding wait_deployment_rollout_complete
scale_deployment_and_wait o h ns deployment replicas = with_kubeconfig o h (do
  invokef o h
      (sprintf "oc -n %s scale deploy/%s --replicas %d" (ns ∷ deployment ∷ itoa replicas ∷ []))
  wait_deployment_rollout_complete default_oc h ns (deployment ∷ []))

-- ===== src/Oc/Onward/Waiting.antt =====
-- pkg/util/oc/pod_commands.go and oc_struct.go: the operations that wait, as actions that go on under the
-- kubeconfig of the client.
use maistra_test_tool.Check.Assert
use maistra_test_tool.World.{World, ◌>>◌, pure, modify}
use maistra_test_tool.World.Keeps.{
  Keeps, Keeps-bind, Keeps-if, Keeps-pure, Keeps-gets, Keeps-for_each,
}
use maistra_test_tool.World.Onward.{After, Still-Onward, modify-Still}
use maistra_test_tool.Retry.Options.{RetryOptions}
use maistra_test_tool.Oc.Kubeconfig.{Oc}
use maistra_test_tool.Oc.Pods.{PodLocatorFunc}
use maistra_test_tool.Oc.Waiting
use maistra_test_tool.Oc.Onward.Pods.{IsOnwardLocator, restart_all_pods-Onward}
use maistra_test_tool.Prelude.{ℕ, zero, suc, List, [], refl, ◌∷◌}
use maistra_test_tool.Text.{Text}
use maistra_test_tool.Check.Onward.{
  output_contains-Onward, require_contains-Onward, output_does_not_contain-Onward,
}
use maistra_test_tool.Retry.Onward.{
  attempt-Onward, until_success_with_options-Onward, until_success-Onward,
}
use maistra_test_tool.Helper.Onward.{log-Onward, failed-Onward, flush_log_buffer-Onward}
use maistra_test_tool.Oc.Onward.{Fits, with_kubeconfig-Onward, client_rules, execute}
use maistra_test_tool.Shell.Onward.{execute-Onward}

module _ {w0 : World} where
  module _ (o : Oc) (h : ℕ) (ns kind name for_condition : Text) where
    wait_attempt-Onward :
        (t : ℕ) → Keeps (After w0) (Waiting.wait_attempt o h ns kind name for_condition t)
    unfolding Waiting.wait_attempt
    wait_attempt-Onward t =
        Keeps-bind _ _ (execute-Onward t _ _ (require_contains-Onward _ _ _, tt))
          (λ _. Keeps-pure tt)

    wait_rounds-Onward :
        (n a : ℕ) → Keeps (After w0) (Waiting.wait_rounds o h ns kind name for_condition n a)
    unfolding Waiting.wait_rounds
    wait_rounds-Onward zero a = search client_rules depth 20
    wait_rounds-Onward (suc n) _ = Keeps-bind _ _ (log-Onward h _) (λ _.
        Keeps-bind _ _ (attempt-Onward _ wait_attempt-Onward h) (λ a.
          Keeps-bind _ _ (failed-Onward a) (λ has_failed.
            Keeps-if has_failed _ _ (wait_rounds-Onward n a) (flush_log_buffer-Onward a))))

    pub wait_for-Onward : Keeps (After w0) (Waiting.wait_for o h ns kind name for_condition)
    unfolding Waiting.wait_for
    wait_for-Onward = wait_rounds-Onward 30 0

  module _ (o : Oc) (fits : Fits o w0) (h : ℕ) where
    pub wait_smcp_ready-Onward :
        (ns name : Text) → Keeps (After w0) (Waiting.wait_smcp_ready o h ns name)
    unfolding Waiting.wait_smcp_ready
    wait_smcp_ready-Onward ns name = search (client_rules, wait_for-Onward)

    pub wait_kiali_ready-Onward :
        (ns name : Text) → Keeps (After w0) (Waiting.wait_kiali_ready o h ns name)
    unfolding Waiting.wait_kiali_ready
    wait_kiali_ready-Onward ns name = search (client_rules, wait_for-Onward)

    pub wait_smmr_ready-Onward : (ns : Text) → Keeps (After w0) (Waiting.wait_smmr_ready o h ns)
    unfolding Waiting.wait_smmr_ready
    wait_smmr_ready-Onward ns = search client_rules depth 20

    pub wait_deployment_rollout_complete-Onward :
        (ns : Text) (names : List Text)
        → Keeps (After w0) (Waiting.wait_deployment_rollout_complete o h ns names)
    unfolding Waiting.wait_deployment_rollout_complete
    wait_deployment_rollout_complete-Onward ns names = search client_rules depth 20

    pub wait_all_pods_ready-Onward :
        (namespaces : List Text) → Keeps (After w0) (Waiting.wait_all_pods_ready o h namespaces)
    unfolding Waiting.wait_all_pods_ready
    wait_all_pods_ready-Onward namespaces = search client_rules depth 20

    pub restart_all_pods_and_wait_ready-Onward :
        (namespaces : List Text)
        → Keeps (After w0) (Waiting.restart_all_pods_and_wait_ready o h namespaces)
    unfolding Waiting.restart_all_pods_and_wait_ready
    restart_all_pods_and_wait_ready-Onward namespaces =
        Keeps-bind _ _ (restart_all_pods-Onward o fits h namespaces)
          (λ _. wait_all_pods_ready-Onward namespaces)

    absent-Onward :
        (t : ℕ) (cmd str s f : Text)
        → Keeps (After w0) (do execute t cmd (Assert.output_does_not_contain str s f ∷ []); pure tt)
    absent-Onward t cmd str s f =
        Keeps-bind _ _ (execute-Onward t cmd _ (output_does_not_contain-Onward str s f, tt))
          (λ _. Keeps-pure tt)

    pub wait_pods_exist-Onward :
        (namespaces : List Text) → Keeps (After w0) (Waiting.wait_pods_exist o h namespaces)
    unfolding Waiting.wait_pods_exist
    wait_pods_exist-Onward namespaces =
        Keeps-for_each namespaces _ (λ ns. until_success-Onward _ (λ t. absent-Onward t _ _ _ _) h)

    pub wait_until_resource_exist-Onward :
        (ns kind name : Text)
        → Keeps (After w0) (Waiting.wait_until_resource_exist o h ns kind name)
    unfolding Waiting.wait_until_resource_exist
    wait_until_resource_exist-Onward ns kind name = Keeps-bind _ _ (log-Onward h _) (λ _.
        with_kubeconfig-Onward o h _
          (until_success_with_options-Onward _ (λ t. absent-Onward t _ _ _ _) h _) fits)

    module _ (pod_locator : PodLocatorFunc) (located : IsOnwardLocator w0 o pod_locator) where
      pub wait_pod_running-Onward : Keeps (After w0) (Waiting.wait_pod_running o h pod_locator)
      unfolding Waiting.wait_pod_running
      wait_pod_running-Onward =
          until_success_with_options-Onward _ (λ t. search (client_rules, located) depth 20) h _

      pub wait_pod_ready_with_options-Onward :
          (options : RetryOptions)
          → Keeps (After w0) (Waiting.wait_pod_ready_with_options o h options pod_locator)
      unfolding Waiting.wait_pod_ready_with_options
      wait_pod_ready_with_options-Onward options =
          until_success_with_options-Onward _ (λ t. search (client_rules, located) depth 20) h
            options

      set_found_pod-Onward :
          (p : Text × Text) → Keeps (After w0) (modify λ w. record w { found_pod = p })
      set_found_pod-Onward p = Still-Onward _ λ w0. modify-Still _ λ w. record {
        outside = refl;
        env = refl;
        clock = refl;
        trace = refl;
        pool = refl;
        tempo = refl;
        otel = refl;
      }

      pub delete_pod-Onward : Keeps (After w0) (Waiting.delete_pod o h pod_locator)
      unfolding Waiting.delete_pod
      delete_pod-Onward = Keeps-bind _ _ (set_found_pod-Onward _) (λ _.
          Keeps-bind _ _
            (until_success-Onward _
              (λ t. Keeps-bind _ _ (located t) (λ pod. set_found_pod-Onward _)) h)
            (λ _.
              until_success-Onward _
                (λ t. Keeps-bind _ _ (Keeps-gets _) (λ pod.
                  Keeps-bind _ _ (execute-Onward t _ _ (output_contains-Onward _ _ _, tt))
                    (λ _. Keeps-pure tt)))
                h))

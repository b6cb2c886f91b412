-- ===== src/Oc/Onward/Scripts.antt =====
-- pkg/util/oc: scripts of operations of a client, and what no script takes back.
use maistra_test_tool.World.{World, Action, for_each}
use maistra_test_tool.World.Keeps.{Keeps, Keeps-for_each}
use maistra_test_tool.World.Onward.{After, After-refl}
use maistra_test_tool.Oc.Kubeconfig.{Oc}
use maistra_test_tool.Oc.Retrying
use maistra_test_tool.Oc.Resources
use maistra_test_tool.Oc.Namespaces
use maistra_test_tool.Oc.Pods
use maistra_test_tool.Oc.Waiting
use maistra_test_tool.Oc.Onward.{Fits}
use maistra_test_tool.Prelude.{ℕ, List}
use maistra_test_tool.Text.{Text}
use maistra_test_tool.Oc.Onward.Pods.{restart_deployments-Onward, restart_all_pods-Onward}
use maistra_test_tool.Oc.Onward.Waiting.{
  wait_for-Onward, wait_smcp_ready-Onward, wait_kiali_ready-Onward, wait_smmr_ready-Onward,
  wait_deployment_rollout_complete-Onward, wait_all_pods_ready-Onward,
  restart_all_pods_and_wait_ready-Onward, wait_pods_exist-Onward, wait_until_resource_exist-Onward,
}
use maistra_test_tool.Oc.Onward.Manifests.{
  apply_string-Onward, apply_file-Onward, delete_from_string-Onward, delete_file-Onward,
  delete_resource-Onward, delete_secret-Onward, delete_config_map-Onward,
  delete_resources_by_label-Onward, create_tls_secret-Onward, patch-Onward, expose_svc-Onward,
  undo_rollout-Onward, taint_node-Onward, label-Onward, remove_label-Onward,
  delete_namespace-Onward, delete_test_bound_namespaces-Onward, create_namespace-Onward,
  recreate_namespace-Onward, create_generic_secret_from_files-Onward,
  create_config_map_from_files-Onward,
}

-- A call of an operation that changes the cluster, or waits for it.
pub data Operation : Type 0 where
  apply_string : Text → List Text → Operation
  apply_file : Text → Text → Operation
  delete_from_string : Text → List Text → Operation
  delete_file : Text → Text → Operation
  delete_resource : Text → Text → List Text → Operation
  delete_secret : Text → List Text → Operation
  delete_config_map : Text → List Text → Operation
  delete_resources_by_label : Text → Text → Text → Operation
  create_tls_secret : Text → Text → Text → Text → Operation
  create_generic_secret_from_files : Text → Text → List Text → Operation
  create_config_map_from_files : Text → Text → List Text → Operation
  patch : Text → Text → Text → Text → Text → Operation
  expose_svc : Text → Text → Text → Text → Operation
  undo_rollout : Text → Text → Text → Operation
  taint_node : Text → List Text → Operation
  label : Text → Text → Text → Text → Operation
  remove_label : Text → Text → Text → Text → Operation
  delete_namespace : List Text → Operation
  delete_test_bound_namespaces : Operation
  create_namespace : List Text → Operation
  recreate_namespace : List Text → Operation
  restart_deployments : Text → List Text → Operation
  restart_all_pods : List Text → Operation
  wait_for : Text → Text → Text → Text → Operation
  wait_smcp_ready : Text → Text → Operation
  wait_kiali_ready : Text → Text → Operation
  wait_smmr_ready : Text → Operation
  wait_deployment_rollout_complete : Text → List Text → Operation
  wait_all_pods_ready : List Text → Operation
  restart_all_pods_and_wait_ready : List Text → Operation
  wait_pods_exist : List Text → Operation
  wait_until_resource_exist : Text → Text → Text → Operation

module _ (o : Oc) (h : ℕ) where
  unfoldable pub perform : Operation → Action Unit
  perform (apply_string ns yamls) = Retrying.apply_string o h ns yamls
  perform (apply_file ns file) = Retrying.apply_file o h ns file
  perform (delete_from_string ns yamls) = Resources.delete_from_string o h ns yamls
  perform (delete_file ns file) = Resources.delete_file o h ns file
  perform (delete_resource ns kind names) = Resources.delete_resource o h ns kind names
  perform (delete_secret ns names) = Resources.delete_secret o h ns names
  perform (delete_config_map ns names) = Resources.delete_config_map o h ns names
  perform (delete_resources_by_label ns kind l) = Resources.delete_resources_by_label o h ns kind l
  perform (create_tls_secret ns name key_file cert_file) =
      Resources.create_tls_secret o h ns name key_file cert_file
  perform (create_generic_secret_from_files ns name files) =
      Resources.create_generic_secret_from_files o h ns name files
  perform (create_config_map_from_files ns name files) =
      Resources.create_config_map_from_files o h ns name files
  perform (patch ns kind name merge_type change) =
      Resources.patch o h ns kind name merge_type change
  perform (expose_svc ns svc_name service_port route_name) =
      Resources.expose_svc o h ns svc_name service_port route_name
  perform (undo_rollout ns kind name) = Resources.undo_rollout o h ns kind name
  perform (taint_node name taints) = Resources.taint_node o h name taints
  perform (label ns kind name labels) = Resources.label o h ns kind name labels
  perform (remove_label ns kind name l) = Resources.remove_label o h ns kind name l
  perform (delete_namespace namespaces) = Namespaces.delete_namespace o h namespaces
  perform delete_test_bound_namespaces = Namespaces.delete_test_bound_namespaces o h
  perform (create_namespace namespaces) = Namespaces.create_namespace o h namespaces
  perform (recreate_namespace namespaces) = Namespaces.recreate_namespace o h namespaces
  perform (restart_deployments ns names) = Pods.restart_deployments o h ns names
  perform (restart_all_pods namespaces) = Pods.restart_all_pods o h namespaces
  perform (wait_for ns kind name condition) = Waiting.wait_for o h ns kind name condition
  perform (wait_smcp_ready ns name) = Waiting.wait_smcp_ready o h ns name
  perform (wait_kiali_ready ns name) = Waiting.wait_kiali_ready o h ns name
  perform (wait_smmr_ready ns) = Waiting.wait_smmr_ready o h ns
  perform (wait_deployment_rollout_complete ns names) =
      Waiting.wait_deployment_rollout_complete o h ns names
  perform (wait_all_pods_ready namespaces) = Waiting.wait_all_pods_ready o h namespaces
  perform (restart_all_pods_and_wait_ready namespaces) =
      Waiting.restart_all_pods_and_wait_ready o h namespaces
  perform (wait_pods_exist namespaces) = Waiting.wait_pods_exist o h namespaces
  perform (wait_until_resource_exist ns kind name) =
      Waiting.wait_until_resource_exist o h ns kind name

  -- Calls in a row, up to the first that does not return.
  unfoldable pub perform_all : List Operation → Action Unit
  perform_all script = for_each script perform

  module _ {w0 : World} (fits : Fits o w0) where
    perform-Onward : (x : Operation) → Keeps (After w0) (perform x)
    unfolding perform
    perform-Onward (apply_string ns yamls) = apply_string-Onward o fits h ns yamls
    perform-Onward (apply_file ns file) = apply_file-Onward o fits h ns file
    perform-Onward (delete_from_string ns yamls) = delete_from_string-Onward o fits h ns yamls
    perform-Onward (delete_file ns file) = delete_file-Onward o fits h ns file
    perform-Onward (delete_resource ns kind names) = delete_resource-Onward o fits h ns kind names
    perform-Onward (delete_secret ns names) = delete_secret-Onward o fits h ns names
    perform-Onward (delete_config_map ns names) = delete_config_map-Onward o fits h ns names
    perform-Onward (delete_resources_by_label ns kind l) =
        delete_resources_by_label-Onward o fits h ns kind l
    perform-Onward (create_tls_secret ns name key_file cert_file) =
        create_tls_secret-Onward o fits h ns name key_file cert_file
    perform-Onward (create_generic_secret_from_files ns name files) =
        create_generic_secret_from_files-Onward o fits h ns name files
    perform-Onward (create_config_map_from_files ns name files) =
        create_config_map_from_files-Onward o fits h ns name files
    perform-Onward (patch ns kind name merge_type change) =
        patch-Onward o fits h ns kind name merge_type change
    perform-Onward (expose_svc ns svc_name service_port route_name) =
        expose_svc-Onward o fits h ns svc_name service_port route_name
    perform-Onward (undo_rollout ns kind name) = undo_rollout-Onward o fits h ns kind name
    perform-Onward (taint_node name taints) = taint_node-Onward o fits h name taints
    perform-Onward (label ns kind name labels) = label-Onward o fits h ns kind name labels
    perform-Onward (remove_label ns kind name l) = remove_label-Onward o fits h ns kind name l
    perform-Onward (delete_namespace namespaces) = delete_namespace-Onward o fits h namespaces
    perform-Onward delete_test_bound_namespaces = delete_test_bound_namespaces-Onward o fits h
    perform-Onward (create_namespace namespaces) = create_namespace-Onward o fits h namespaces
    perform-Onward (recreate_namespace namespaces) = recreate_namespace-Onward o fits h namespaces
    perform-Onward (restart_deployments ns names) = restart_deployments-Onward o fits h ns names
    perform-Onward (restart_all_pods namespaces) = restart_all_pods-Onward o fits h namespaces
    perform-Onward (wait_for ns kind name condition) = wait_for-Onward o h ns kind name condition
    perform-Onward (wait_smcp_ready ns name) = wait_smcp_ready-Onward o fits h ns name
    perform-Onward (wait_kiali_ready ns name) = wait_kiali_ready-Onward o fits h ns name
    perform-Onward (wait_smmr_ready ns) = wait_smmr_ready-Onward o fits h ns
    perform-Onward (wait_deployment_rollout_complete ns names) =
        wait_deployment_rollout_complete-Onward o fits h ns names
    perform-Onward (wait_all_pods_ready namespaces) = wait_all_pods_ready-Onward o fits h namespaces
    perform-Onward (restart_all_pods_and_wait_ready namespaces) =
        restart_all_pods_and_wait_ready-Onward o fits h namespaces
    perform-Onward (wait_pods_exist namespaces) = wait_pods_exist-Onward o fits h namespaces
    perform-Onward (wait_until_resource_exist ns kind name) =
        wait_until_resource_exist-Onward o fits h ns kind name

-- For a client with no kubeconfig, or with a valid one that is the value of KUBECONFIG: however a script of its
-- operations ends, the environment is as before it, no time was given back, the commands that were run before are
-- still those, in order, and each command that the script ran had the KUBECONFIG of the world before it.
pub perform_all-After :
    (o : Oc) (h : ℕ) (script : List Operation) (w : World)
    → Fits o w
    → After w (perform_all o h script w).1
unfolding perform_all
perform_all-After o h script w fits =
    (Keeps-for_each script (perform o h) (perform-Onward o h fits)).at w (After-refl w)

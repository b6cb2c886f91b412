-- ===== src/Oc/Default/Manifests.antt =====
-- pkg/util/oc/oc.go: the functions on manifests, secrets, namespaces and resources, which pass their arguments on to `DefaultOC`.
use maistra_test_tool.Oc.Namespaces
use maistra_test_tool.Oc.Resources
use maistra_test_tool.Oc.Retrying
use maistra_test_tool.Oc.Kubeconfig.{default_oc}
use maistra_test_tool.World.{Action}
use maistra_test_tool.Prelude.{ℕ, List}
use maistra_test_tool.Text.{Text}

module _ (h : ℕ) where
  -- `ApplyString`
  unfoldable pub apply_string : Text → List Text → Action Unit
  apply_string ns yamls = Retrying.apply_string default_oc h ns yamls

  -- `ApplyFile`
  unfoldable pub apply_file : Text → Text → Action Unit
  apply_file ns file = Retrying.apply_file default_oc h ns file

  -- `DeleteFromString`
  unfoldable pub delete_from_string : Text → List Text → Action Unit
  delete_from_string ns yamls = Resources.delete_from_string default_oc h ns yamls

  -- `DeleteFile`
  unfoldable pub delete_file : Text → Text → Action Unit
  delete_file ns file = Resources.delete_file default_oc h ns file

  -- `CreateTLSSecret`
  unfoldable pub create_tls_secret : Text → Text → Text → Text → Action Unit
  create_tls_secret ns name key_file cert_file =
      Resources.create_tls_secret default_oc h ns name key_file cert_file

  -- `CreateGenericSecretFromFiles`
  unfoldable pub create_generic_secret_from_files : Text → Text → List Text → Action Unit
  create_generic_secret_from_files ns name files =
      Resources.create_generic_secret_from_files default_oc h ns name files

  -- `DeleteSecret`
  unfoldable pub delete_secret : Text → List Text → Action Unit
  delete_secret ns names = Resources.delete_secret default_oc h ns names

  -- `DeleteConfigMap`
  unfoldable pub delete_config_map : Text → List Text → Action Unit
  delete_config_map ns names = Resources.delete_config_map default_oc h ns names

  -- `DeleteResource`
  unfoldable pub delete_resource : Text → Text → List Text → Action Unit
  delete_resource ns kind names = Resources.delete_resource default_oc h ns kind names

  -- `DeleteResourcesByLabel`
  unfoldable pub delete_resources_by_label : Text → Text → Text → Action Unit
  delete_resources_by_label ns kind label =
      Resources.delete_resources_by_label default_oc h ns kind label

  -- `DeleteNamespace`
  unfoldable pub delete_namespace : List Text → Action Unit
  delete_namespace namespaces = Namespaces.delete_namespace default_oc h namespaces

  -- `DeleteTestBoundNamespaces`
  unfoldable pub delete_test_bound_namespaces : Action Unit
  delete_test_bound_namespaces = Namespaces.delete_test_bound_namespaces default_oc h

  -- `CreateNamespace`
  unfoldable pub create_namespace : List Text → Action Unit
  create_namespace namespaces = Namespaces.create_namespace default_oc h namespaces

  -- `RecreateNamespace`
  unfoldable pub recreate_namespace : List Text → Action Unit
  recreate_namespace namespaces = Namespaces.recreate_namespace default_oc h namespaces

  -- `Patch`
  unfoldable pub patch : Text → Text → Text → Text → Text → Action Unit
  patch ns kind name merge_type change = Resources.patch default_oc h ns kind name merge_type change

  -- `CreateConfigMapFromFiles`
  unfoldable pub create_config_map_from_files : Text → Text → List Text → Action Unit
  create_config_map_from_files ns name files =
      Resources.create_config_map_from_files default_oc h ns name files

  -- `UndoRollout`
  unfoldable pub undo_rollout : Text → Text → Text → Action Unit
  undo_rollout ns kind name = Resources.undo_rollout default_oc h ns kind name

  -- `ExposeSvc`
  unfoldable pub expose_svc : Text → Text → Text → Text → Action Unit
  expose_svc ns svc_name service_port route_name =
      Resources.expose_svc default_oc h ns svc_name service_port route_name

  -- `RemoveLabel`
  unfoldable pub remove_label : Text → Text → Text → Text → Action Unit
  remove_label ns kind name l = Resources.remove_label default_oc h ns kind name l

  -- `Label`
  unfoldable pub label : Text → Text → Text → Text → Action Unit
  label ns kind name labels = Resources.label default_oc h ns kind name labels

  -- `TaintNode`
  unfoldable pub taint_node : Text → List Text → Action Unit
  taint_node name taints = Resources.taint_node default_oc h name taints

  -- `TouchSMCP`, given the random number
  unfoldable pub touch_smcp : ℕ → Text → Text → Action Unit
  touch_smcp random ns name = Resources.touch_smcp default_oc random h ns name

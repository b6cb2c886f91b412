-- ===== src/Oc/Default/Queries.antt =====
-- pkg/util/oc/oc.go: the functions that ask the cluster, which pass their arguments on to `DefaultOC`.
use maistra_test_tool.Oc.Queries
use maistra_test_tool.Oc.Services
use maistra_test_tool.Oc.Kubeconfig.{default_oc}
use maistra_test_tool.Check.Common.{CheckFunc}
use maistra_test_tool.World.{Action}
use maistra_test_tool.Prelude.{ℕ, Bool, List, []}
use maistra_test_tool.Text.{Text}

module _ (h : ℕ) where
  -- `GetOCPVersion`
  unfoldable pub get_ocp_version : Action Text
  get_ocp_version = Queries.get_ocp_version default_oc h

  -- `GetLoadBalancerAddress`
  unfoldable pub get_load_balancer_address : Text → Text → Action Text
  get_load_balancer_address ns service_name =
      Services.get_load_balancer_address default_oc h ns service_name

  -- `GetAllResoucesNamesByLabel`
  unfoldable pub get_all_resouces_names_by_label : Text → Text → Text → Action (List Text)
  get_all_resouces_names_by_label ns kind label =
      Queries.get_all_resources_names default_oc h ns kind label

  -- `GetAllResoucesNames`
  unfoldable pub get_all_resouces_names : Text → Text → Action (List Text)
  get_all_resouces_names ns kind = Queries.get_all_resources_names default_oc h ns kind []

  -- `ResourceByLabelExists`
  unfoldable pub resource_by_label_exists : Text → Text → Text → Action Bool
  resource_by_label_exists ns kind label =
      Queries.resource_by_label_exists default_oc h ns kind label

  -- `ResourceExists`
  unfoldable pub resource_exists : Text → Text → Text → Action Bool
  resource_exists ns kind name = Queries.resource_exists default_oc h ns kind name

  -- `AnyResourceExist`
  unfoldable pub any_resource_exist : Text → Text → Action Bool
  any_resource_exist ns kind = Queries.any_resource_exist default_oc h ns kind

  -- `GetServiceClusterIP`
  unfoldable pub get_service_cluster_ip : Text → Text → Action Text
  get_service_cluster_ip ns service_name =
      Services.get_service_cluster_ip default_oc h ns service_name

  -- `Get`
  unfoldable pub get : Text → Text → Text → List CheckFunc → Action Text
  get ns kind name checks = Queries.get default_oc h ns kind name checks

  -- `GetYaml`
  unfoldable pub get_yaml : Text → Text → Text → List CheckFunc → Action Text
  get_yaml ns kind name checks = Queries.get_yaml default_oc h ns kind name checks

  -- `GetJson`
  unfoldable pub get_json : Text → Text → Text → Text → List CheckFunc → Action Text
  get_json ns kind name json_path checks =
      Queries.get_json default_oc h ns kind name json_path checks

-- ===== src/Oc/Default/Decoded.antt =====
-- pkg/util/oc/oc.go: the functions that take a template, or decode what the cluster answers.
use maistra_test_tool.Oc.Decoding
use maistra_test_tool.Oc.Templates
use maistra_test_tool.Oc.Kubeconfig.{default_oc}
use maistra_test_tool.Oc.Pods.{PodLocatorFunc}
use maistra_test_tool.Template.{Engine}
use maistra_test_tool.World.{Action}
use maistra_test_tool.Prelude.{ℕ, List, ◌⊎◌}
use maistra_test_tool.Text.{Text}

module _ (h : ℕ) where
  -- `ApplyTemplate`
  unfoldable pub apply_template : {V : Type 0} → Engine V → Text → Text → V → Action Unit
  apply_template engine ns template input =
      Templates.apply_template_string engine default_oc h ns template input

  -- `DeleteFromTemplate`
  unfoldable pub delete_from_template : {V : Type 0} → Engine V → Text → Text → V → Action Unit
  delete_from_template engine ns yaml input =
      Templates.delete_from_template engine default_oc h ns yaml input

  -- `GetConfigMapData`
  unfoldable pub get_config_map_data :
      (Text → Text ⊎ Decoding.Members) → Text → Text → Action (List (Text × Text))
  get_config_map_data unmarshal ns name =
      Decoding.get_config_map_data unmarshal default_oc h ns name

  -- `GetProxy`
  unfoldable pub get_proxy : (Text → Text ⊎ Decoding.Members) → Action Decoding.Proxy
  get_proxy unmarshal = Decoding.get_proxy unmarshal default_oc h

  -- `GetPodAnnotations`
  unfoldable pub get_pod_annotations :
      (Text → Text ⊎ List (Text × Text)) → PodLocatorFunc → Action (List (Text × Text))
  get_pod_annotations unmarshal pod_locator =
      Decoding.get_pod_annotations unmarshal default_oc h pod_locator

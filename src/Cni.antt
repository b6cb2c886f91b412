-- ===== src/Cni.antt =====
-- pkg/util/cni/cni.go: the resources of the CNI plugin, with the versions of the mesh that use them.
use maistra_test_tool.Version.{Version}
use maistra_test_tool.Version.Known
use maistra_test_tool.Prelude.{List, [], ◌∷◌}
use maistra_test_tool.Text.{Text, lit}

-- `Resource`
pub record Resource : Type 0 where
  pub obj : Text
  pub name : Text
  pub used_in_versions : List Version

-- `toResource`
unfoldable pub to_resource : Text → Text → List Version → Resource
to_resource obj name versions = record { obj = obj; name = name; used_in_versions = versions }

-- `CniResources`
abbrev pub cni_resources : List Resource
cni_resources =
    to_resource (lit "ClusterRole") (lit "istio-cni")
      (Known.smcp_2_0 ∷ Known.smcp_2_1 ∷ Known.smcp_2_2 ∷ Known.smcp_2_3 ∷ [])
    ∷ to_resource (lit "ClusterRole") (lit "ossm-cni")
        (Known.smcp_2_4 ∷ Known.smcp_2_5 ∷ Known.smcp_2_6 ∷ [])
    ∷ to_resource (lit "ClusterRoleBinding") (lit "istio-cni")
        (Known.smcp_2_0 ∷ Known.smcp_2_1 ∷ Known.smcp_2_2 ∷ Known.smcp_2_3 ∷ [])
    ∷ to_resource (lit "ClusterRoleBinding") (lit "ossm-cni")
        (Known.smcp_2_4 ∷ Known.smcp_2_5 ∷ Known.smcp_2_6 ∷ [])
    ∷ to_resource (lit "ConfigMap") (lit "istio-cni-config")
        (Known.smcp_2_0 ∷ Known.smcp_2_1 ∷ Known.smcp_2_2 ∷ [])
    ∷ to_resource (lit "ConfigMap") (lit "istio-cni-config-v2-3") (Known.smcp_2_3 ∷ [])
    ∷ to_resource (lit "ConfigMap") (lit "ossm-cni-config-v2-4") (Known.smcp_2_4 ∷ [])
    ∷ to_resource (lit "ConfigMap") (lit "ossm-cni-config-v2-5") (Known.smcp_2_5 ∷ [])
    ∷ to_resource (lit "ConfigMap") (lit "ossm-cni-config-v2-6") (Known.smcp_2_6 ∷ [])
    ∷ to_resource (lit "DaemonSet") (lit "istio-cni-node")
        (Known.smcp_2_0 ∷ Known.smcp_2_1 ∷ Known.smcp_2_2 ∷ [])
    ∷ to_resource (lit "DaemonSet") (lit "istio-cni-node-v2-3") (Known.smcp_2_3 ∷ [])
    ∷ to_resource (lit "DaemonSet") (lit "istio-cni-node-v2-4") (Known.smcp_2_4 ∷ [])
    ∷ to_resource (lit "DaemonSet") (lit "istio-cni-node-v2-5") (Known.smcp_2_5 ∷ [])
    ∷ to_resource (lit "DaemonSet") (lit "istio-cni-node-v2-6") (Known.smcp_2_6 ∷ [])
    ∷ to_resource (lit "ServiceAccount") (lit "istio-cni")
        (Known.smcp_2_0 ∷ Known.smcp_2_1 ∷ Known.smcp_2_2 ∷ Known.smcp_2_3 ∷ [])
    ∷ to_resource (lit "ServiceAccount") (lit "ossm-cni")
        (Known.smcp_2_4 ∷ Known.smcp_2_5 ∷ Known.smcp_2_6 ∷ [])
    ∷ []

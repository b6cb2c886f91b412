-- ===== src/App/Httpbin.antt =====
-- pkg/app/httpbin.go
use maistra_test_tool.World.{Action}
use maistra_test_tool.App.{App}
use maistra_test_tool.App.Manifests.{flag, text, Input, Sources}
use maistra_test_tool.Oc.Default.Decoded.{apply_template, delete_from_template}
use maistra_test_tool.Oc.Default.Pods.{wait_deployment_rollout_complete}
use maistra_test_tool.Prelude.{ℕ, Bool, true, false, some, [], ◌∷◌}
use maistra_test_tool.Text.{Text, lit}

-- `httpbin`
pub record Httpbin : Type 0 where
  pub ns : Text
  pub inject_sidecar : Bool
  pub deployment_name : Text
  pub version_label : Text
  pub tproxy : Bool

module _ (a : Httpbin) where
  -- `values`
  unfoldable pub values : Input
  values = some (
      (lit "InjectSidecar", flag a.inject_sidecar)
      ∷ (lit "Name", text a.deployment_name)
      ∷ (lit "Version", text a.version_label)
      ∷ (lit "Tproxy", flag a.tproxy)
      ∷ [])

  module _ (s : Sources) (h : ℕ) where
    -- `Install`
    unfoldable pub install : Action Unit
    unfolding values
    install = apply_template h s.engine a.ns s.manifests.httpbin values

    -- `Uninstall`
    unfoldable pub uninstall : Action Unit
    unfolding values
    uninstall = delete_from_template h s.engine a.ns s.manifests.httpbin values

    -- `WaitReady`
    unfoldable pub wait_ready : Action Unit
    wait_ready = wait_deployment_rollout_complete h a.ns (a.deployment_name ∷ [])

-- The interface of the application.
unfoldable pub as_app : Sources → Httpbin → App
unfolding install uninstall wait_ready
as_app s a = record {
  name = a.deployment_name;
  namespace = a.ns;
  install = install a s;
  uninstall = uninstall a s;
  wait_ready = wait_ready a s;
}

module _ (s : Sources) (ns : Text) where
  -- `Httpbin`
  unfoldable pub httpbin : App
  httpbin = as_app s (record {
    ns = ns;
    inject_sidecar = true;
    deployment_name = lit "httpbin";
    version_label = lit "v1";
    tproxy = false;
  })

  -- `HttpbinNoSidecar`
  unfoldable pub httpbin_no_sidecar : App
  httpbin_no_sidecar = as_app s (record {
    ns = ns;
    inject_sidecar = false;
    deployment_name = lit "httpbin";
    version_label = lit "v1";
    tproxy = false;
  })

  -- `HttpbinV1`
  unfoldable pub httpbin_v1 : App
  httpbin_v1 = as_app s (record {
    ns = ns;
    inject_sidecar = true;
    deployment_name = lit "httpbin-v1";
    version_label = lit "v1";
    tproxy = false;
  })

  -- `HttpbinV2`
  unfoldable pub httpbin_v2 : App
  httpbin_v2 = as_app s (record {
    ns = ns;
    inject_sidecar = true;
    deployment_name = lit "httpbin-v2";
    version_label = lit "v2";
    tproxy = false;
  })

  -- `HttpbinTproxy`
  unfoldable pub httpbin_tproxy : App
  httpbin_tproxy = as_app s (record {
    ns = ns;
    inject_sidecar = true;
    deployment_name = lit "httpbin";
    version_label = lit "v1";
    tproxy = true;
  })

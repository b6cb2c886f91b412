-- ===== src/App/Sleep.antt =====
-- pkg/app/sleep.go: the application itself. The JSON decoder is a parameter.
use maistra_test_tool.World.{Action, ◌>>=◌, pure}
use maistra_test_tool.App.{App}
use maistra_test_tool.App.Manifests.{flag, text, int, Input, Sources}
use maistra_test_tool.Oc.Decoding.{Members, Proxy}
use maistra_test_tool.Oc.Default.Decoded.{apply_template, delete_from_template, get_proxy}
use maistra_test_tool.Oc.Default.Pods.{wait_deployment_rollout_complete}
use maistra_test_tool.Prelude.{ℕ, Bool, true, false, some, [], ◌∷◌, ◌⊎◌}
use maistra_test_tool.Prelude.Int.{ℤ, pos}
use maistra_test_tool.Text.{Text, lit}

-- `sleep`
pub record Sleep : Type 0 where
  pub ns : Text
  pub inject_sidecar : Bool
  pub tproxy : Bool
  pub security_context : Bool
  pub run_as_user : ℤ
  pub run_as_group : ℤ

module _ (unmarshal : Text → Text ⊎ Members) (s : Sources) where
  module _ (a : Sleep) (h : ℕ) where
    abbrev with_proxy : Proxy → Input
    with_proxy proxy = some (
        (lit "InjectSidecar", flag a.inject_sidecar)
        ∷ (lit "HttpProxy", text proxy.http_proxy)
        ∷ (lit "HttpsProxy", text proxy.https_proxy)
        ∷ (lit "NoProxy", text proxy.no_proxy)
        ∷ (lit "Tproxy", flag a.tproxy)
        ∷ (lit "securityContext", flag a.security_context)
        ∷ (lit "runAsUser", int a.run_as_user)
        ∷ (lit "runAsGroup", int a.run_as_group)
        ∷ [])

    -- `values`
    unfoldable pub values : Action Input
    values = do proxy ← get_proxy h unmarshal; pure (with_proxy proxy)

    -- `Install`
    unfoldable pub install : Action Unit
    unfolding values
    install = do input ← values; apply_template h s.engine a.ns s.manifests.sleep input

    -- `Uninstall`
    unfoldable pub uninstall : Action Unit
    unfolding values
    uninstall = do input ← values; delete_from_template h s.engine a.ns s.manifests.sleep input

    -- `WaitReady`
    unfoldable pub wait_ready : Action Unit
    wait_ready = wait_deployment_rollout_complete h a.ns (lit "sleep" ∷ [])

  -- The interface of the application.
  unfoldable pub as_app : Sleep → App
  unfolding install uninstall wait_ready
  as_app a = record {
    name = lit "sleep";
    namespace = a.ns;
    install = install a;
    uninstall = uninstall a;
    wait_ready = wait_ready a;
  }

  abbrev plain_sleep : Text → Sleep
  plain_sleep ns = record {
    ns = ns;
    inject_sidecar = true;
    tproxy = false;
    security_context = false;
    run_as_user = pos 0;
    run_as_group = pos 0;
  }

  module _ (ns : Text) where
    -- `Sleep`
    unfoldable pub sleep : App
    sleep = as_app (plain_sleep ns)

    -- `SleepNoSidecar`
    unfoldable pub sleep_no_sidecar : App
    sleep_no_sidecar = as_app (record (plain_sleep ns) { inject_sidecar = false })

    -- `SleepTroxy`
    unfoldable pub sleep_troxy : App
    sleep_troxy = as_app (record (plain_sleep ns) { tproxy = true })

    -- `SleepSecurityContext`
    unfoldable pub sleep_security_context : ℤ → ℤ → App
    sleep_security_context uid gid =
        as_app (record (plain_sleep ns) {
          security_context = true;
          run_as_user = uid;
          run_as_group = gid;
        })

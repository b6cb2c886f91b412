-- ===== src/App/Minio.antt =====
-- pkg/app/minio.go
use maistra_test_tool.World.{Action, when, ◌>>=◌, ◌>>◌}
use maistra_test_tool.Helper.{fatal}
use maistra_test_tool.App.{App}
use maistra_test_tool.App.Manifests.{text, Sources}
use maistra_test_tool.Oc.Kubeconfig.{default_oc}
use maistra_test_tool.Oc.Queries.{get_route_url}
use maistra_test_tool.Oc.Default.Queries.{any_resource_exist}
use maistra_test_tool.Oc.Default.Decoded.{apply_template, delete_from_template}
use maistra_test_tool.Oc.Default.Pods.{wait_deployment_rollout_complete}
use maistra_test_tool.Prelude.{ℕ, not, none, some, [], ◌∷◌}
use maistra_test_tool.Text.{Text, lit}

module _ (s : Sources) (ns : Text) where
  -- `Install`
  unfoldable pub install : ℕ → Action Unit
  install h = do
    exists ← any_resource_exist h [] (lit "storageclass")
    when (not exists) (
        fatal h (
          lit
            "Your cluster doesn't contain any storageclass. Minio cannot be installed due to the required dynamic provisioning storage unavailable!"))
    apply_template h s.engine ns s.manifests.minio none
    wait_deployment_rollout_complete h ns (lit "minio" ∷ [])
    minio_route ← get_route_url default_oc h ns (lit "minio-route")
    apply_template h s.engine ns s.manifests.minio_secret
        (some ((lit "minioRoute", text minio_route) ∷ []))

  -- `Uninstall`
  unfoldable pub uninstall : ℕ → Action Unit
  uninstall h = delete_from_template h s.engine ns s.manifests.minio none

  -- `WaitReady`
  unfoldable pub wait_ready : ℕ → Action Unit
  wait_ready h = wait_deployment_rollout_complete h ns (lit "minio" ∷ [])

  -- `Minio`
  unfoldable pub minio : App
  unfolding install uninstall wait_ready
  minio = record {
    name = lit "minio";
    namespace = ns;
    install = install;
    uninstall = uninstall;
    wait_ready = wait_ready;
  }

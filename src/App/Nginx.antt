-- ===== src/App/Nginx.antt =====
-- pkg/app/nginx.go, with the paths of its files as a parameter.
use maistra_test_tool.World.{Action, ◌>>◌}
use maistra_test_tool.App.{App}
use maistra_test_tool.Oc.Default.Manifests.{
  create_generic_secret_from_files, create_tls_secret, create_config_map_from_files, apply_file,
  delete_file, delete_secret, delete_config_map,
}
use maistra_test_tool.Oc.Default.Pods.{wait_deployment_rollout_complete}
use maistra_test_tool.Prelude.{ℕ, Bool, true, false, [], ◌∷◌, ◌++◌, if◌then◌else◌}
use maistra_test_tool.Text.{Text, lit}

-- The variables of the package that hold paths below the root directory.
pub record Files : Type 0 where
  pub nginx_yaml : Text
  pub nginx_conf : Text
  pub nginx_conf_tls : Text
  pub nginx_conf_mtls : Text
  pub nginx_server_cert_key : Text
  pub nginx_server_cert : Text
  pub nginx_server_ca_cert : Text
  pub mesh_ext_server_cert_key : Text
  pub mesh_ext_server_cert : Text

-- `nginx`
pub record Nginx : Type 0 where
  pub external : Bool
  pub ns : Text
  pub mtls : Bool

module _ (files : Files) where
  module _ (a : Nginx) (h : ℕ) where
    -- `Install`
    unfoldable pub install : Action Unit
    install = do
      create_generic_secret_from_files h a.ns (lit "nginx-ca-certs")
          ((lit "example.com.crt=" ++ files.nginx_server_ca_cert) ∷ [])
      if a.external
          then (do
            create_tls_secret h a.ns (lit "nginx-server-certs") files.mesh_ext_server_cert_key
                files.mesh_ext_server_cert
            create_config_map_from_files h a.ns (lit "nginx-configmap") (
                (lit "nginx.conf="
                  ++ (if a.mtls then files.nginx_conf_mtls else files.nginx_conf_tls))
                ∷ []))
          else (do
            create_tls_secret h a.ns (lit "nginx-server-certs") files.nginx_server_cert_key
                files.nginx_server_cert
            create_config_map_from_files h a.ns (lit "nginx-configmap")
                ((lit "nginx.conf=" ++ files.nginx_conf) ∷ []))
      apply_file h a.ns files.nginx_yaml

    -- `Uninstall`
    unfoldable pub uninstall : Action Unit
    uninstall = do
      delete_file h a.ns files.nginx_yaml
      delete_secret h a.ns (lit "nginx-server-certs" ∷ [])
      delete_secret h a.ns (lit "nginx-ca-certs" ∷ [])
      delete_config_map h a.ns (lit "nginx-configmap" ∷ [])

    -- `WaitReady`
    unfoldable pub wait_ready : Action Unit
    wait_ready = wait_deployment_rollout_complete h a.ns (lit "my-nginx" ∷ [])

  -- The interface of the application.
  unfoldable pub as_app : Nginx → App
  unfolding install uninstall wait_ready
  as_app a = record {
    name = lit "nginx";
    namespace = a.ns;
    install = install a;
    uninstall = uninstall a;
    wait_ready = wait_ready a;
  }

  module _ (ns : Text) where
    -- `Nginx`
    unfoldable pub nginx : App
    nginx = as_app (record { external = false; ns = ns; mtls = false })

    -- `NginxExternalTLS`
    unfoldable pub nginx_external_tls : App
    nginx_external_tls = as_app (record { external = true; ns = ns; mtls = false })

    -- `NginxExternalMTLS`
    unfoldable pub nginx_external_mtls : App
    nginx_external_mtls = as_app (record { external = true; ns = ns; mtls = true })

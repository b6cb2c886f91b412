-- ===== src/App/Simple.antt =====
-- pkg/app/echo.go, echo-v1.go, echo-v2.go, fortio.go, grpcurl.go and redis.go: the applications that are one
-- manifest.
use maistra_test_tool.World.{◌>>◌, ◌>>=◌, Action, gets}
use maistra_test_tool.Helper.{log}
use maistra_test_tool.App.{App}
use maistra_test_tool.App.Manifests.{Sources}
use maistra_test_tool.Oc.Default.Manifests.{create_namespace}
use maistra_test_tool.Oc.Default.Decoded.{apply_template, delete_from_template}
use maistra_test_tool.Oc.Default.Pods.{wait_deployment_rollout_complete, wait_condition}
use maistra_test_tool.Prelude.{ℕ, none, [], ◌∷◌, ◌++◌}
use maistra_test_tool.Text.{Text, lit}
use maistra_test_tool.Text.Format.{sprintf}

module _ (s : Sources) (ns : Text) where
  -- `Echo`
  unfoldable pub echo : App
  echo = record {
    name = lit "echo";
    namespace = ns;
    install = λ h. apply_template h s.engine ns s.manifests.tcp_echo none;
    uninstall = λ h. delete_from_template h s.engine ns s.manifests.tcp_echo none;
    wait_ready = λ h. wait_deployment_rollout_complete h ns (lit "tcp-echo" ∷ []);
  }

  -- `EchoV1`
  unfoldable pub echo_v1 : App
  echo_v1 = record {
    name = lit "echo-v1";
    namespace = ns;
    install = λ h. apply_template h s.engine ns s.manifests.tcp_echo_v1 none;
    uninstall = λ h. delete_from_template h s.engine ns s.manifests.tcp_echo_v1 none;
    wait_ready = λ h. wait_deployment_rollout_complete h ns (lit "tcp-echo-v1" ∷ []);
  }

  -- `EchoV2`
  unfoldable pub echo_v2 : App
  echo_v2 = record {
    name = lit "echo-v2";
    namespace = ns;
    install = λ h. apply_template h s.engine ns s.manifests.tcp_echo_v2 none;
    uninstall = λ h. delete_from_template h s.engine ns s.manifests.tcp_echo_v2 none;
    wait_ready = λ h. wait_deployment_rollout_complete h ns (lit "tcp-echo-v2" ∷ []);
  }

  -- `Fortio`
  unfoldable pub fortio : App
  fortio = record {
    name = lit "fortio";
    namespace = ns;
    install = λ h. apply_template h s.engine ns s.manifests.fortio none;
    uninstall = λ h. delete_from_template h s.engine ns s.manifests.fortio none;
    wait_ready = λ h. wait_deployment_rollout_complete h ns (lit "fortio-deploy" ∷ []);
  }

  -- `GrpCurl`
  unfoldable pub grpcurl : App
  grpcurl = record {
    name = lit "grpcurl";
    namespace = ns;
    install = λ h. apply_template h s.engine ns s.manifests.grpcurl none;
    uninstall = λ h. delete_from_template h s.engine ns s.manifests.grpcurl none;
    wait_ready = λ h. wait_condition h ns (lit "Jobs") (lit "grpcurl") (lit "complete");
  }

  -- `redis.Install`: the message is given to `Log`, which puts the namespace behind the verb.
  unfoldable pub install_redis : ℕ → Action Unit
  install_redis h = do
    create_namespace h (ns ∷ [])
    log h (lit "Deploy Redis in namespace %q" ++ ns)
    apply_template h s.engine ns s.manifests.redis none

  -- `redis.Uninstall`
  unfoldable pub uninstall_redis : ℕ → Action Unit
  uninstall_redis h = do
    quoted ← gets λ w. w.outside.quote ns
    log h (sprintf "Uninstall Redis from namespace %s" (quoted ∷ []))
    delete_from_template h s.engine ns s.manifests.redis none

  -- `Redis`
  unfoldable pub redis : App
  unfolding install_redis uninstall_redis
  redis = record {
    name = lit "redis";
    namespace = ns;
    install = install_redis;
    uninstall = uninstall_redis;
    wait_ready = λ h. wait_deployment_rollout_complete h ns (lit "redis" ∷ []);
  }

-- ===== src/App.antt =====
-- pkg/app: the interface of an application with the functions on several of them (app.go), and the requests
-- that are made from the pod of the application sleep (sleep.go).
pub mod Manifests
pub mod Httpbin
pub mod Sleep
pub mod Minio
pub mod Bookinfo
pub mod Simple
pub mod Nginx
use maistra_test_tool.World.{Action, gets, pure, for_each, ◌>>=◌, ◌>>◌}
use maistra_test_tool.Helper.{log}
use maistra_test_tool.Retry.{until_success_with_options}
use maistra_test_tool.Retry.Options.{options, max_attempts}
use maistra_test_tool.Check.Common.{CheckFunc}
use maistra_test_tool.Check.Assert
use maistra_test_tool.Oc.Kubeconfig.{default_oc}
use maistra_test_tool.Oc.Pods.{exec, matching_selector}
use maistra_test_tool.Prelude.{ℕ, List, [], ◌∷◌, ◌++◌, if◌then◌else◌, ◌||◌}
use maistra_test_tool.Prelude.Int.{pos}
use maistra_test_tool.Text.{Text, lit, is_empty}
use maistra_test_tool.Text.Format.{sprintf}

-- `App`
pub record App : Type 0 where
  pub name : Text
  pub namespace : Text
  pub install : ℕ → Action Unit
  pub uninstall : ℕ → Action Unit
  pub wait_ready : ℕ → Action Unit

-- `Install`
unfoldable pub install_apps : ℕ → List App → Action Unit
install_apps h apps = for_each apps (λ app. do
  name ← gets λ w. w.outside.quote app.name
  ns ← gets λ w. w.outside.quote app.namespace
  log h (sprintf "Install app %s in namespace %s" (name ∷ ns ∷ []))
  app.install h)

-- `WaitReady`
unfoldable pub wait_apps_ready : ℕ → List App → Action Unit
wait_apps_ready h apps = for_each apps (λ app. do
  log h (sprintf "Wait for app %s/%s to be ready" (app.namespace ∷ app.name ∷ []))
  app.wait_ready h)

-- `InstallAndWaitReady`
unfoldable pub install_and_wait_ready : ℕ → List App → Action Unit
unfolding install_apps wait_apps_ready
install_and_wait_ready h apps = do install_apps h apps; wait_apps_ready h apps

-- `Uninstall`
unfoldable pub uninstall_apps : ℕ → List App → Action Unit
uninstall_apps h apps = for_each apps (λ app. app.uninstall h)

-- `CurlOpts`
pub record CurlOpts : Type 0 where
  pub method : Text
  pub headers : List Text
  pub options : List Text

-- `curlFailedMessage`
abbrev pub curl_failed_message : Text
curl_failed_message = lit "CURL_FAILED"

abbrev pub no_opts : CurlOpts
no_opts = record { method = []; headers = []; options = [] }

-- Only the first of the optional arguments is used.
unfoldable pub first_opts : List CurlOpts → CurlOpts
first_opts [] = no_opts
first_opts (opt ∷ _) = opt

unfoldable pub header_flags : List Text → Text
header_flags [] = []
header_flags (header ∷ headers) = sprintf " -H \"%s\"" (header ∷ []) ++ header_flags headers

unfoldable pub option_flags : List Text → Text
option_flags [] = []
option_flags (option ∷ rest) = (b' ' ∷ option) ++ option_flags rest

-- `buildCurlCmd`
unfoldable pub build_curl_cmd : Text → List CurlOpts → Text
unfolding first_opts header_flags option_flags
build_curl_cmd url opts =
    let opt = first_opts opts in
    let method = if is_empty opt.method then lit "GET" else opt.method in
    sprintf "curl -sS%s%s -X %s -o /dev/null -w \"%%{http_code}\" %s 2>/dev/null || echo %s" (
      header_flags opt.headers ∷ option_flags opt.options ∷ method ∷ url ∷ curl_failed_message ∷ [])

-- `ExecInSleepPod`
unfoldable pub exec_in_sleep_pod : ℕ → Text → Text → List CheckFunc → Action Unit
exec_in_sleep_pod h ns command checks =
    until_success_with_options h (max_attempts options (pos 10)) (λ t. do
      exec default_oc t (matching_selector (lit "app=sleep") ns) (lit "sleep") command checks
      pure tt)

-- `assertSleepPodRequestResponse`
unfoldable pub assert_sleep_pod_request_response :
    ℕ → Text → Text → Text → List CurlOpts → Action Unit
unfolding build_curl_cmd exec_in_sleep_pod
assert_sleep_pod_request_response h ns url expected opts =
    exec_in_sleep_pod h ns (build_curl_cmd url opts) (
      Assert.output_contains expected (sprintf "Got expected \"%s\"" (expected ∷ []))
        (sprintf "Expect \"%s\", but got a different response" (expected ∷ []))
      ∷ [])

module _ (h : ℕ) (ns url : Text) (opts : List CurlOpts) where
  unfoldable pub assert_sleep_pod_request_success : Action Unit
  unfolding assert_sleep_pod_request_response
  assert_sleep_pod_request_success = assert_sleep_pod_request_response h ns url (lit "200") opts

  unfoldable pub assert_sleep_pod_request_failure : Action Unit
  unfolding assert_sleep_pod_request_response
  assert_sleep_pod_request_failure =
      assert_sleep_pod_request_response h ns url curl_failed_message opts

  unfoldable pub assert_sleep_pod_request_forbidden : Action Unit
  unfolding assert_sleep_pod_request_response
  assert_sleep_pod_request_forbidden = assert_sleep_pod_request_response h ns url (lit "403") opts

  unfoldable pub assert_sleep_pod_request_unauthorized : Action Unit
  unfolding assert_sleep_pod_request_response
  assert_sleep_pod_request_unauthorized =
      assert_sleep_pod_request_response h ns url (lit "401") opts

  unfoldable pub assert_sleep_pod_zeroes_placeholder : Action Unit
  unfolding assert_sleep_pod_request_response
  assert_sleep_pod_zeroes_placeholder = assert_sleep_pod_request_response h ns url (lit "000") opts

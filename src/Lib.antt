-- ===== src/Lib.antt =====
-- The Maistra test tool: the framework with which the tests of OpenShift Service Mesh are written.
--
-- The program. A test (pkg/util/test) is a Go test with a group and a range of versions; it is skipped if
-- they do not fit the environment (pkg/util/env, pkg/util/version). Its body gets a helper, through which
-- it logs and fails. Bodies retry operations (pkg/util/retry): each attempt gets a helper of its own, whose
-- FailNow is a panic that the attempt recovers. The operations are commands for the cluster (pkg/util/oc,
-- pkg/util/pod), run by the shell (pkg/util/shell) under a kubeconfig, with checks of their output
-- (pkg/util/check).
--
-- The files, and the code that they model:
--   Prelude, Text      what all share; a text is the list of its bytes, Go's strings functions on it
--   World              Go's control flow (return, panic, Goexit, a crash of the process), package testing,
--                      the environment, the clock and the commands run; World/Panics has `defer` and
--                      `recover`, World/Keeps and World/Yields the rules for properties of actions,
--                      World/Onward what no action takes back (with Helper/Still, and a module Onward of each
--                      component), World/Spending what an action spends of the clock and of commands
--   Version, Env       pkg/util/version/version.go, pkg/util/env/env.go
--   Helper             pkg/util/test/test_helper.go, test_helper_retry.go, test_helper_flaky.go,
--                      test_helper_setup.go: the four implementations of the interface TestHelper
--   Retry              pkg/util/retry/retry.go and options.go, and the Attempt of two helpers; Retry/Course
--                      is what a retry may do
--   Check              pkg/util/check/common, assert and require
--   Shell              pkg/util/shell/shell_helper.go
--   Oc                 pkg/util/oc/oc_struct.go, pod_commands.go, service_commands.go, labels.go and
--                      pkg/util/pod/pods.go; Oc/Default is oc.go
--   Case               pkg/util/test/test.go and subtest.go
--   Util               pkg/util/compare.go, common.go, testUtil.go, and the functions of
--                      pkg/util/template/template.go that templates call
--   Template           pkg/util/template/template.go and images.go
--   Request, Request/Send  pkg/util/curl and pkg/util/request
--   Suite              pkg/util/test/suite.go and setup_logger.go
--   Helm, Cert, GatewayApi, Cni, Prometheus  pkg/util/helm, cert, gatewayapi, cni and prometheus
--   Cluster            pkg/util/cluster, and the metrics of pkg/util/istio/istio.go
--   Metallb, Tempo, CertManager  pkg/metallb, pkg/tempo and pkg/certmanageroperator
--   Heredoc            pkg/util/heredoc/heredoc.go
--   App                pkg/app/app.go and the requests of pkg/app/sleep.go; its child modules the applications,
--                      App/Simple those that are one manifest
--   Operator           pkg/util/operator/operators.go, pkg/util/istioctl/istioctl.go, and two commands of
--                      pkg/util/istio/istio.go
--   Tests              worlds to try the model on, and each theorem at a concrete input
--
-- How the state corresponds. A helper and a `testing.T` are addresses into the world, so two helpers of one
-- test share it, and an attempt has an object of its own. An action maps a world to the way it ends and the
-- world after. Variables that a closure of the source assigns are results of the closure, or fields of the
-- world where a retry stands between the closure and the variable. Formatted arguments
-- come as text. The shell with the cluster behind it, the working directory, the clock's formats, files
-- and the diff are the record `Outside`, of which nothing is assumed: the shell answers by all commands so
-- far.
--
-- What is simplified. Names of HTTP headers are set as they are given, where net/http makes them canonical; names of
-- subtests are not rewritten or made unique.
--
-- Bounds. Loops over attempts recurse on the number of attempts left, those over slices on the list, so
-- every function is total. Go's int is an integer without bound in the options of a retry and in versions;
-- strconv.Atoi keeps its bounds.
--
-- Parameters. The engine of text/template, the decoders of JSON, YAML and metrics, RSA, x509 and PEM, the
-- client of net/http with the network, net.ParseIP and package testing's run of the tests are arguments of
-- the definitions that use them; so are the texts of the manifests.
--
-- Not modelled: Cleanup functions of tests and Parallel, which belong to package testing; the login of
-- Bookinfo and IsWithinPercentage, with cookies of net/http and floating point; CreateTempDir; toYaml and the
-- reading of images.yaml; the tests themselves.
pub mod Prelude
pub mod Text
pub mod World
pub mod Version
pub mod Env
pub mod Helper
pub mod Retry
pub mod Util
pub mod Check
pub mod Shell
pub mod Oc
pub mod Case
pub mod App
pub mod Cert
pub mod CertManager
pub mod Cluster
pub mod Cni
pub mod GatewayApi
pub mod Helm
pub mod Heredoc
pub mod Metallb
pub mod Operator
pub mod Prometheus
pub mod Request
pub mod Suite
pub mod Template
pub mod Tempo
pub mod Tests

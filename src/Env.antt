-- ===== src/Env.antt =====
-- pkg/util/env/env.go: the settings that are read from the environment. A getter is a function of the
-- environment; `none` as a result is a panic. The working directory and the start time of the process
-- are arguments.
pub mod RootDir
use mathlib.Core.Option
use maistra_test_tool.Version.{Version, parse_version, equals, to_text}
use maistra_test_tool.Prelude.{
  ℕ, String, Bool, ◌||◌, Option, none, some, [], ◌∷◌, ◌++◌, if◌then◌else◌, ◌/◌, true, false, map,
}
use maistra_test_tool.Text.{Text, lit, teq, is_empty, has_prefix}
use maistra_test_tool.Prelude.Int.{pos}
use maistra_test_tool.Text.Decimal.{itoa}

abbrev pub Environment : Type 0
Environment = Text → Option Text

-- os.Getenv
unfoldable pub os_getenv : Environment → Text → Text
os_getenv e key = elim (e key) [ none ↦ [] | some v ↦ v ]

unfoldable pub getenv : Environment → Text → Text → Text
unfolding os_getenv
getenv e key fallback = let value = os_getenv e key in if is_empty value then fallback else value

abbrev pub marker : Text
marker = lit "/pkg/tests/"

-- `dir[:strings.LastIndex(dir, marker)]`, if the marker stands in the text
before_last : Text → Text → Option Text
before_last sub [] = if has_prefix [] sub then some [] else none
before_last sub (c ∷ s) = elim (before_last sub s) [
  | some p ↦ some (c ∷ p)
  | none ↦ if has_prefix (c ∷ s) sub then some [] else none
]

-- `dir` is the working directory; `none` is an error of os.Getwd.
unfoldable pub get_root_dir : Option Text → Option Text
unfolding before_last
get_root_dir none = none
get_root_dir (some dir) = before_last marker dir

abbrev pub flag : Environment → String → String → Bool
flag e key fallback = teq (getenv e (lit key) (lit fallback)) (lit "true")

unfoldable pub is_rosa : Environment → Bool
is_rosa e = flag e "ROSA" "false"

unfoldable pub is_nightly : Environment → Bool
is_nightly e = flag e "NIGHTLY" "false"

unfoldable pub get_istio_name : Environment → Text
get_istio_name e = getenv e (lit "ISTIO_NAME") (lit "ossm3")

unfoldable pub get_istio_namespace : Environment → Text
get_istio_namespace e = getenv e (lit "ISTIO_NAMESPACE") (lit "istio-system")

unfoldable pub get_default_smcp_name : Environment → Text
get_default_smcp_name e = getenv e (lit "SMCP_NAME") (lit "basic")

unfoldable pub get_default_mesh_namespace : Environment → Text
get_default_mesh_namespace e = getenv e (lit "SMCP_NAMESPACE") (lit "istio-system")

unfoldable pub get_smcp_version : Environment → Option Version
get_smcp_version e = parse_version (getenv e (lit "SMCP_VERSION") (lit "v2.6"))

unfoldable pub get_operator_version : Environment → Option Version
get_operator_version e = parse_version (getenv e (lit "OPERATOR_VERSION") (lit "2.6.0"))

unfoldable pub get_arch : Environment → Text
get_arch e = getenv e (lit "OCP_ARCH") (lit "x86")

unfoldable pub get_test_group : Environment → Text
get_test_group e = getenv e (lit "TEST_GROUP") (lit "full")

-- The fallback is computed before the variable is read, so a bad OPERATOR_VERSION panics in any case.
unfoldable pub get_must_gather_tag : Environment → Option Text
unfolding get_operator_version
get_must_gather_tag e =
    Option.map
      (λ (v : Version).
        getenv e (lit "MUST_GATHER_TAG") (itoa v.major ++ (lit "." ++ itoa v.minor)))
      (get_operator_version e)

unfoldable pub get_must_gather_image : Environment → Option Text
unfolding get_must_gather_tag
get_must_gather_image e =
    Option.map
      (λ tag.
        getenv e (lit "MUST_GATHER_IMAGE")
          (lit "registry.redhat.io/openshift-service-mesh/istio-must-gather-rhel8:" ++ tag))
      (get_must_gather_tag e)

unfoldable pub is_must_gather_enabled : Environment → Bool
is_must_gather_enabled e = flag e "MUST_GATHER" "true"

unfoldable pub get_kubeconfig : Environment → Text
get_kubeconfig e = getenv e (lit "KUBECONFIG") []

unfoldable pub get_kubeconfig2 : Environment → Text
get_kubeconfig2 e = getenv e (lit "KUBECONFIG2") []

unfoldable pub get_operator_namespace : Text
get_operator_namespace = lit "openshift-operators"

unfoldable pub is_log_failed_retry_attempts : Environment → Bool
is_log_failed_retry_attempts e = flag e "LOG_FAILED_RETRY_ATTEMPTS" "true"

-- `stamp` is the start time of the process, formatted.
unfoldable pub get_output_dir : Environment → Option Text → Text → Option Text
unfolding get_root_dir get_smcp_version
get_output_dir e dir stamp = elim (get_root_dir dir) [
  | none ↦ none
  | some root ↦
      Option.map
        (λ v.
          getenv e (lit "OUTPUT_DIR")
            (root ++ (lit "/tests/result-" ++ (stamp ++ (lit "/" ++ to_text v)))))
        (get_smcp_version e)
]

unfoldable pub is_metal_lb_internal_ip_enabled : Environment → Bool
is_metal_lb_internal_ip_enabled e = flag e "METALLB_INTERNAL_IP_ENABLED" "false"

abbrev smcp_2 : ℕ → Version
smcp_2 n = record { major = pos 2; minor = pos n }

kiali_version : Version → Text
kiali_version v =
    if equals v (smcp_2 3)
    then lit "v1.57"
    else if equals v (smcp_2 4)
    then lit "v1.65"
    else if equals v (smcp_2 5)
    then lit "v1.73"
    else if equals v (smcp_2 6)
    then lit "v1.73"
    else lit "v1.73"

unfoldable pub get_kiali_version : Environment → Option Text
unfolding kiali_version get_smcp_version
get_kiali_version e = Option.map kiali_version (get_smcp_version e)

-- The architectures whose sample tokens are hosted elsewhere.
is_power_or_z : Environment → Bool
unfolding get_arch
is_power_or_z e = teq (get_arch e) (lit "z") || teq (get_arch e) (lit "p")

unfoldable pub get_jwks_url : Environment → Text
unfolding is_power_or_z
get_jwks_url e =
    if is_power_or_z e
    then lit "https://gitlab.com/-/snippets/4829480/raw/main/jwks.json"
    else lit
        "https://raw.githubusercontent.com/istio/istio/release-1.19/security/tools/jwt/samples/jwks.json"

unfoldable pub get_groups_scope_jwt_url : Environment → Text
unfolding is_power_or_z
get_groups_scope_jwt_url e =
    if is_power_or_z e
    then lit "https://gitlab.com/-/snippets/4829479/raw/main/groups-scope.jwt"
    else lit
        "https://raw.githubusercontent.com/istio/istio/release-1.19/security/tools/jwt/samples/groups-scope.jwt"

unfoldable pub get_jwt_demo_url : Environment → Text
unfolding is_power_or_z
get_jwt_demo_url e =
    if is_power_or_z e
    then lit "https://gitlab.com/-/snippets/4829478/raw/main/demo.jwt"
    else lit
        "https://raw.githubusercontent.com/istio/istio/release-1.19/security/tools/jwt/samples/demo.jwt"

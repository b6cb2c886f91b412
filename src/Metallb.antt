-- ===== src/Metallb.antt =====
-- pkg/metallb/install.go. net.ParseIP is a parameter, whether a text is an address.
pub mod Pool
use maistra_test_tool.World.{Action, gets, modify, when, for_each, pure, panic, string, ◌>>=◌, ◌>>◌}
use maistra_test_tool.Helper.{log, log_step, error}
use maistra_test_tool.Retry.{until_success}
use maistra_test_tool.Check.Assert
use maistra_test_tool.Version.{Version, parse_version, to_text}
use maistra_test_tool.App.Manifests.{Sources, text}
use maistra_test_tool.Oc.Kubeconfig.{Oc, default_oc, with_location, invoke}
use maistra_test_tool.Oc.Queries.{resource_exists, get_ocp_version}
use maistra_test_tool.Oc.Retrying.{apply_string}
use maistra_test_tool.Oc.Templates.{apply_template_string}
use maistra_test_tool.Oc.Waiting.{wait_for}
use maistra_test_tool.Prelude.{
  ℕ, Bool, not, Option, none, some, List, [], ◌∷◌, ◌++◌, if◌then◌else◌, ◌-◌,
}
use maistra_test_tool.Text.{Text, lit, teq}
use maistra_test_tool.Text.Fields.{fields}
use maistra_test_tool.Text.Format.{sprintf, list_text}

abbrev pub metallb_ns : Text
metallb_ns = lit "metallb-system"

-- `metallbVersions`
abbrev pub metallb_versions : List (Text × Text)
metallb_versions =
    (lit "v4.9", lit "metallb-operator.4.9.0-2023032815534")
    ∷ (lit "v4.10", lit "metallb-operator.4.10.0-202305032028")
    ∷ (lit "v4.11", lit "metallb-operator.4.11.0-202302271715")
    ∷ (lit "v4.12", lit "metallb-operator.4.12.0-202305102015")
    ∷ (lit "v4.13", lit "metallb-operator.v4.13.0-202306141157")
    ∷ []

-- `m[key]`, which is empty where the key is missing.
unfoldable pub version_of : List (Text × Text) → Text → Text
version_of [] key = []
version_of ((k, v) ∷ rest) key = let later = version_of rest key in if teq k key then v else later

-- `ParseVersion` panics with an error that is not modelled in full.
unfoldable pub parsed : Option Version → Action Version
parsed none = panic (string (lit "could not parse version"))
parsed (some v) = pure v

unfoldable pub pool_head : Text
pool_head =
    lit
      "\napiVersion: metallb.io/v1beta1\nkind: IPAddressPool\nmetadata:\n  name: worker-internal-ips\n  namespace: metallb-system\nspec:\n  addresses:\n"

-- The line of an address.
unfoldable pub pool_line : Text → Text
pool_line raw_ip = sprintf "  - %s-%s\n" (raw_ip ∷ raw_ip ∷ [])

module _ (parse_ip : Text → Bool) (h : ℕ) where
  -- The loop of an attempt over the addresses; the variable keeps what the attempts before put there.
  unfoldable pub add_addresses : List Text → Action Unit
  unfolding pool_line
  add_addresses ips = for_each ips (λ raw_ip. do
    when (not (parse_ip raw_ip))
        (error h (sprintf "failed to parse fetched IPs: %s" (list_text ips ∷ [])))
    modify λ w. record w { address_pool = w.address_pool ++ pool_line raw_ip })

  -- An attempt to fetch the addresses.
  unfoldable pub fetch_addresses : Oc → Action Unit
  unfolding add_addresses
  fetch_addresses o = do
    out ←
        invoke o h
          (lit
            "kubectl get nodes -l node-role.kubernetes.io/worker -o jsonpath='{.items[*].status.addresses[?(@.type==\"InternalIP\")].address}'")
          (Assert.output_does_not_contain (lit "Error from server") (lit "Found internal IPs")
              (lit "failed to get internal node IPs")
            ∷ [])
    add_addresses (fields out)

module _ (parse_ip : Text → Bool) (s : Sources) (h : ℕ) (o : Oc) where
  -- `if !oc.ResourceExists(...) { t.Error(msg) }`
  abbrev exists_or_error : Text → Text → ℕ → Action Unit
  exists_or_error name msg t = do
    exists ← resource_exists o t metallb_ns (lit "deployments") name
    when (not exists) (error t msg)

  -- `installOperator`
  unfoldable pub install_operator : Action Unit
  unfolding parsed version_of
  install_operator = do
    log h (lit "Check if MetalLB controller already exists")
    exists ←
        resource_exists o h metallb_ns (lit "deployments")
          (lit "metallb-operator-controller-manager")
    if exists
        then log h (lit "MetalLB operator already exists - skip installation of the operator")
        else (do
          log h (lit "Install MetalLB operator")
          answer ← get_ocp_version o h
          ocp_version ← parsed (parse_version answer)
          let metallb_version = version_of metallb_versions (to_text ocp_version)
          log h (sprintf "MetalLB version: %s" (metallb_version ∷ []))
          apply_template_string s.engine o h metallb_ns s.manifests.metallb_operator
              (some ((lit "Version", text metallb_version) ∷ []))
          until_success h (
              exists_or_error (lit "metallb-operator-controller-manager")
                (lit "metallb-operator-controller-manager not found - waiting until exists"))
          wait_for o h metallb_ns (lit "deployments") (lit "metallb-operator-controller-manager")
              (lit "condition=Available"))

  -- `deployMetalLB`
  unfoldable pub deploy_metallb : Action Unit
  deploy_metallb = do
    log h (lit "Check if MetalLB controller already exists")
    exists ← resource_exists o h metallb_ns (lit "deployments") (lit "controller")
    if exists then log h (lit "MetalLB controller already exists - skip deploying MetalLB") else (do
      log_step h (lit "Deploy MetalLB")
      apply_string o h metallb_ns (s.manifests.metallb ∷ [])
      until_success h (
          exists_or_error (lit "controller")
            (lit "MetalLB controller not found - waiting until exists"))
      wait_for o h metallb_ns (lit "deployments") (lit "controller") (lit "condition=Available"))

  -- `createAddressPool`
  unfoldable pub create_address_pool : Action Unit
  unfolding fetch_addresses pool_head
  create_address_pool = do
    log h (lit "Check if MetalLB controller already exists")
    exists ← resource_exists o h metallb_ns (lit "ipaddresspools") (lit "worker-internal-ips")
    if exists then log h (lit "IPAddressPool already exists - skip applying IPAddressPool") else (do
      log_step h (lit "Fetch worker internal IPs")
      modify λ w. record w { address_pool = pool_head }
      until_success h (λ t. fetch_addresses parse_ip t o)
      pool ← gets λ w. w.address_pool
      log_step h (lit "Create IPAddressPool for MetalLB:\n" ++ pool)
      apply_string o h metallb_ns (pool ∷ []))

  -- `installWithOC`
  unfoldable pub install_with_oc : Action Unit
  unfolding install_operator deploy_metallb create_address_pool
  install_with_oc = do install_operator; deploy_metallb; create_address_pool

-- `InstallIfNotExist`; `WithKubeconfig` never gives nil.
unfoldable pub install_if_not_exist : (Text → Bool) → Sources → ℕ → List Text → Action Unit
unfolding install_with_oc
install_if_not_exist parse_ip s h [] = install_with_oc parse_ip s h default_oc
install_if_not_exist parse_ip s h (config ∷ configs) =
    for_each (config ∷ configs) (λ c. install_with_oc parse_ip s h (with_location c))

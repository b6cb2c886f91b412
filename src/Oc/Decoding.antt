-- ===== src/Oc/Decoding.antt =====
-- pkg/util/oc: the operations that decode what the cluster answers. encoding/json and yaml.v2 are
-- parameters; a decoder gives its error, or the members of the object, each key once.
use maistra_test_tool.World.{Action, pure, panic, runtime_error, ◌>>=◌, ◌>>◌}
use maistra_test_tool.Helper.{fatal}
use maistra_test_tool.Oc.Kubeconfig.{Oc, with_kubeconfig, invokef}
use maistra_test_tool.Oc.Queries.{get_json, get_yaml}
use maistra_test_tool.Oc.Pods.{PodLocatorFunc}
use maistra_test_tool.Prelude.{ℕ, Bool, List, [], ◌∷◌, ◌⊎◌, inl, inr, if◌then◌else◌}
use maistra_test_tool.Text.{Text, lit, teq, is_empty}
use maistra_test_tool.Text.Format.{sprintf}

-- A value that encoding/json decodes into an `interface{}`.
mutual
  pub data Json : Type 0 where
    null : Json
    bool : Bool → Json
    number : Text → Json
    string : Text → Json
    array : Elements → Json
    object : Members → Json

  pub data Elements : Type 0 where
    end : Elements
    element : Json → Elements → Elements

  pub data Members : Type 0 where
    empty : Members
    member : Text → Json → Members → Members

-- `m[key]`; a key that is missing gives nil, as a null does.
unfoldable pub lookup : Text → Members → Json
lookup key empty = null
lookup key (member k v rest) = let later = lookup key rest in if teq k key then v else later

-- `Proxy`
pub record Proxy : Type 0 where
  pub http_proxy : Text
  pub https_proxy : Text
  pub no_proxy : Text

abbrev pub no_proxies : Proxy
no_proxies = record { http_proxy = []; https_proxy = []; no_proxy = [] }

-- `if v != nil { field = v.(string) }`, for a field that is empty before.
unfoldable pub string_or_nil : Json → Action Text
string_or_nil null = pure []
string_or_nil (string s) = pure s
string_or_nil _ = panic (runtime_error (lit "interface conversion: interface {} is not string"))

-- What `GetProxy` makes of the decoded status.
unfoldable pub proxy_of : ℕ → Text ⊎ Members → Action Proxy
unfolding string_or_nil lookup
proxy_of h (inl err) = do fatal h (sprintf "Failed to parse JSON: %s\n" (err ∷ [])); pure no_proxies
proxy_of h (inr data') = do
  http ← string_or_nil (lookup (lit "httpProxy") data')
  https ← string_or_nil (lookup (lit "httpsProxy") data')
  none_for ← string_or_nil (lookup (lit "noProxy") data')
  pure (record { http_proxy = http; https_proxy = https; no_proxy = none_for })

-- The loop of `GetConfigMapData` over `.data`.
unfoldable pub string_entries : ℕ → Members → Action (List (Text × Text))
string_entries h empty = pure []
string_entries h (member k (string v) rest) = do
  entries ← string_entries h rest
  pure ((k, v) ∷ entries)
string_entries h (member k _ rest) = do fatal h (lit "shouldn't happen"); pure []

-- The error that is printed is nil here.
unfoldable pub data_of : ℕ → Json → Action (List (Text × Text))
unfolding string_entries
data_of h (object members) = string_entries h members
data_of h _ = do fatal h (lit "could not get .data from ConfigMap JSON: <nil>"); pure []

unfoldable pub config_map_data : ℕ → Text ⊎ Members → Action (List (Text × Text))
unfolding data_of lookup
config_map_data h (inl err) = do
  fatal h (sprintf "could not unmarshal ConfigMap JSON: %v" (err ∷ []))
  pure []
config_map_data h (inr m) = data_of h (lookup (lit "data") m)

unfoldable pub annotations_of : ℕ → Text ⊎ List (Text × Text) → Action (List (Text × Text))
annotations_of h (inl err) = do fatal h (sprintf "Failed to unmarshal YAML: %s" (err ∷ [])); pure []
annotations_of h (inr annotations) = pure annotations

module _ (unmarshal_json : Text → Text ⊎ Members) (o : Oc) (h : ℕ) where
  -- `GetProxy`
  unfoldable pub get_proxy : Action Proxy
  unfolding proxy_of
  get_proxy = do
    proxy_json ← get_json o h [] (lit "proxy") (lit "cluster") (lit "{.status}") []
    if is_empty proxy_json then pure no_proxies else proxy_of h (unmarshal_json proxy_json)

  -- `GetConfigMapData`
  unfoldable pub get_config_map_data : Text → Text → Action (List (Text × Text))
  unfolding config_map_data
  get_config_map_data ns name = with_kubeconfig o h (do
    manifest ← invokef o h (sprintf "oc get configmap -n %s %s -o json" (ns ∷ name ∷ []))
    config_map_data h (unmarshal_json manifest))

-- `GetPodAnnotations`; the decoder gives the annotations of the metadata.
unfoldable pub get_pod_annotations :
    (Text → Text ⊎ List (Text × Text)) → Oc → ℕ → PodLocatorFunc → Action (List (Text × Text))
unfolding annotations_of
get_pod_annotations unmarshal_yaml o h pod_locator = do
  po ← pod_locator h o
  yaml ← get_yaml o h po.namespace (lit "pod") po.name []
  annotations_of h (unmarshal_yaml yaml)

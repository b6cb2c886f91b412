-- ===== src/Cluster.antt =====
-- pkg/util/cluster/cluster.go, and the labels of metrics of pkg/util/istio/istio.go. The decoders of JSON and of
-- metrics are parameters.
pub mod Labels
use maistra_test_tool.World.{Action, pure, panic, runtime_error, ◌>>=◌, ◌>>◌, gets}
use maistra_test_tool.Helper.{fatal}
use maistra_test_tool.Oc.Kubeconfig.{Oc}
use maistra_test_tool.Oc.Pods.{PodLocatorFunc, exec}
use maistra_test_tool.Oc.Default.Queries.{get_json}
use maistra_test_tool.Prelude.{
  ℕ, Bool, true, false, ◌||◌, Option, none, some, List, [], ◌∷◌, ◌⊎◌, inl, inr, if◌then◌else◌, not,
  length,
}
use maistra_test_tool.Text.{Text, lit, teq, cut}
use maistra_test_tool.Text.Format.{sprintf, list_text}

unfoldable pub any_is : Text → List Text → Bool
any_is name [] = false
any_is name (x ∷ xs) = teq x name || any_is name xs

unfoldable pub has_ipv6 : ℕ → Text ⊎ List Text → Action Bool
unfolding any_is
has_ipv6 h (inl err) = do
  fatal h (sprintf "Unable to marshal ip family resp: %s" (err ∷ []))
  pure false
has_ipv6 h (inr ip_families) = pure (any_is (lit "IPv6") ip_families)

-- `SupportsIPv6`
unfoldable pub supports_ipv6 : (Text → Text ⊎ List Text) → ℕ → Action Bool
unfolding has_ipv6
supports_ipv6 unmarshal h = do
  resp ← get_json h (lit "default") (lit "Service") (lit "kubernetes") (lit "{.spec.ipFamilies}") []
  has_ipv6 h (unmarshal resp)

-- A metric, as far as the tool reads it: its labels, in order.
pub record Metric : Type 0 where
  pub labels : List (Text × Text)

-- `metricLabels[name]`: of labels with the same name the last one counts, and a missing one is empty.
unfoldable pub label_value : Text → List (Text × Text) → Text → Text
label_value found [] name = found
label_value found ((k, v) ∷ rest) name = label_value (if teq k name then v else found) rest name

-- The test of a label that is cut at its `=`, before the rest; the second part of one that has no `=` is an error of
-- the runtime, which is `none`.
unfoldable pub label_matches : Metric → Text × List Text → Option Bool → Option Bool
unfolding label_value
label_matches metric (name, []) rest = none
label_matches metric (name, value ∷ _) rest =
    if teq (label_value [] metric.labels name) value then rest else some false

-- `matchesLabels`
unfoldable pub matches_labels : Metric → List Text → Option Bool
unfolding label_matches
matches_labels metric [] = some true
matches_labels metric (l ∷ labels) =
    label_matches metric (cut b'=' l) (matches_labels metric labels)

-- The loop of `GetProxyMetrics` over the metrics of a family.
unfoldable pub matched_metrics : List Metric → List Text → Action (List Metric)
unfolding matches_labels
matched_metrics [] labels = pure []
matched_metrics (m ∷ metrics) labels = elim (matches_labels m labels) [
  | none ↦ panic (runtime_error (lit "index out of range [1] with length 1"))
  | some b ↦ do rest ← matched_metrics metrics labels; pure (if b then m ∷ rest else rest)
]

-- The families by name; a missing one has no metrics.
unfoldable pub family : List (Text × List Metric) → Text → List Metric
family [] name = []
family ((k, v) ∷ rest) name = let later = family rest name in if teq k name then v else later

unfoldable pub metrics_of :
    ℕ → Text → List Text → Text ⊎ List (Text × List Metric) → Action (List Metric)
unfolding matched_metrics family
metrics_of h metric labels (inl err) = do
  fatal h (sprintf "could not parse Prometheus metrics: %v" (err ∷ []))
  pure []
metrics_of h metric labels (inr families) = matched_metrics (family families metric) labels

module _ (parse : Text → Text ⊎ List (Text × List Metric)) (h : ℕ) (o : Oc)
    (pod_locator : PodLocatorFunc) where
  -- `GetProxyMetrics`
  unfoldable pub get_proxy_metrics : Text → List Text → Action (List Metric)
  unfolding metrics_of
  get_proxy_metrics metric labels = do
    output ←
        exec o h pod_locator (lit "istio-proxy") (lit "curl -sS localhost:15000/stats/prometheus")
          []
    metrics_of h metric labels (parse output)

  unfoldable pub single_metric : Text → List Text → List Metric → Action (Option Metric)
  single_metric metric labels [] = pure none
  single_metric metric labels (m ∷ []) = pure (some m)
  single_metric metric labels (_ ∷ _ ∷ _) = do
    quoted ← gets λ w. w.outside.quote metric
    fatal h (
        sprintf "multiple metrics named %s matched the given labels: %v"
          (quoted ∷ list_text labels ∷ []))
    pure none

  -- `GetProxyMetric`
  unfoldable pub get_proxy_metric : Text → List Text → Action (Option Metric)
  unfolding get_proxy_metrics single_metric
  get_proxy_metric metric labels = do
    metrics ← get_proxy_metrics metric labels
    single_metric metric labels metrics

-- ===== src/Prometheus.antt =====
-- pkg/util/prometheus: queries that are made from a pod of Prometheus. The encoding of a query and the decoding
-- of a response are parameters.
use maistra_test_tool.World.{Action, pure, ◌>>=◌, ◌>>◌}
use maistra_test_tool.Helper.{log, fatal}
use maistra_test_tool.Oc.Pods.{matching_selector_first}
use maistra_test_tool.Oc.Default.Pods.{exec}
use maistra_test_tool.Prelude.{ℕ, List, [], ◌∷◌, ◌++◌, ◌⊎◌, inl, inr}
use maistra_test_tool.Text.{Text, lit, replace_all}
use maistra_test_tool.Text.Format.{sprintf}

-- `prometheus_struct`
pub record Prometheus : Type 0 where
  pub selector : Text
  pub container_name : Text

-- `PrometheusResult`, with its values as they are printed
pub record PrometheusResult : Type 0 where
  pub metric : List (Text × Text)
  pub value : List Text

-- `PrometheusResultData`
pub record PrometheusResultData : Type 0 where
  pub result_type : Text
  pub result : List PrometheusResult

-- `PrometheusResponse`
pub record PrometheusResponse : Type 0 where
  pub status : Text
  pub response_data : PrometheusResultData

abbrev empty_response : PrometheusResponse
empty_response = record { status = []; response_data = record { result_type = []; result = [] } }

-- `NewPrometheus`
unfoldable pub new_prometheus : Text → Text → Prometheus
new_prometheus selector container_name = record {
  selector = selector;
  container_name = container_name;
}

-- `WithSelector`, of a copy
unfoldable pub with_selector : Prometheus → Text → Prometheus
with_selector pi selector = record pi { selector = selector }

-- `WithContainerName`, of a copy
unfoldable pub with_container_name : Prometheus → Text → Prometheus
with_container_name pi container_name = record pi { container_name = container_name }

-- `DefaultPrometheus`
unfoldable pub default_prometheus : Prometheus
unfolding new_prometheus
default_prometheus = new_prometheus (lit "app=prometheus") (lit "prometheus")

-- `DefaultCustomPrometheus`
unfoldable pub default_custom_prometheus : Prometheus
unfolding with_selector default_prometheus
default_custom_prometheus = with_selector default_prometheus (lit "prometheus=prometheus")

-- `DefaultThanos`
unfoldable pub default_thanos : Prometheus
unfolding with_selector with_container_name default_prometheus
default_thanos =
    with_container_name
      (with_selector default_prometheus (lit "app.kubernetes.io/instance=thanos-querier"))
      (lit "thanos-query")

-- What stands for a single quote of a URL, as in `Patch` of the client.
unfoldable pub escaped_url : Text → Text
escaped_url url = replace_all url b'\'' (lit "'\\\\''")

-- `getPrometheusApi`
unfoldable pub get_prometheus_api : ℕ → Prometheus → Text → Text → Action Text
unfolding escaped_url
get_prometheus_api h pi ns endpoint =
    let url = sprintf "http://localhost:9090/api/v1/%s" (endpoint ∷ []) in
    exec h (matching_selector_first pi.selector ns) pi.container_name
      (sprintf "wget -qO- '%s'" (escaped_url url ∷ [])) []

-- `Targets`
unfoldable pub targets : Prometheus → ℕ → Text → Action Text
unfolding get_prometheus_api
targets pi h ns = get_prometheus_api h pi ns (lit "targets?state=active")

module _ (unmarshal : Text → Text ⊎ PrometheusResponse) where
  -- `parsePrometheusResponse`: `Log` puts the response behind the verb.
  unfoldable pub parse_prometheus_response :
      ℕ → Text → Text ⊎ PrometheusResponse → Action PrometheusResponse
  parse_prometheus_response h response (inr result) = pure result
  parse_prometheus_response h response (inl err) = do
    log h (lit "Prometheus response:\n%s" ++ response)
    fatal h (sprintf "could not parse Prometheus response as JSON: %v" (err ∷ []))
    pure empty_response

  module _ (encode : Text → Text) where
    -- `Query` of a Prometheus
    unfoldable pub query_of : Prometheus → ℕ → Text → Text → Action PrometheusResponse
    unfolding get_prometheus_api parse_prometheus_response
    query_of pi h ns query = do
      output ← get_prometheus_api h pi ns (sprintf "query?%s" (encode query ∷ []))
      parse_prometheus_response h output (unmarshal output)

    -- `Query`
    unfoldable pub query : ℕ → Text → Text → Action PrometheusResponse
    unfolding query_of
    query h ns q = query_of default_prometheus h ns q

    -- `CustomPrometheusQuery`
    unfoldable pub custom_prometheus_query : ℕ → Text → Text → Action PrometheusResponse
    unfolding query_of
    custom_prometheus_query h ns q = query_of default_custom_prometheus h ns q

    -- `ThanosQuery`
    unfoldable pub thanos_query : ℕ → Text → Text → Action PrometheusResponse
    unfolding query_of
    thanos_query h ns q = query_of default_thanos h ns q

-- `CustomPrometheusTargets`
unfoldable pub custom_prometheus_targets : ℕ → Text → Action Text
unfolding targets
custom_prometheus_targets h ns = targets default_custom_prometheus h ns

-- `ThanosTargets`
unfoldable pub thanos_targets : ℕ → Text → Action Text
unfolding targets
thanos_targets h ns = targets default_thanos h ns

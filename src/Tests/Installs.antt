-- ===== src/Tests/Installs.antt =====
-- Installers at concrete inputs.
use maistra_test_tool.Oc.Queries.{names_something}
use maistra_test_tool.Text.{contains}
use maistra_test_tool.Tempo
use maistra_test_tool.Tempo.Existing.{Found, lookup, install-Existing}
use maistra_test_tool.App.Manifests.{Sources, Input}
use maistra_test_tool.Template.{Engine}
use maistra_test_tool.Metallb.{pool_head, add_addresses}
use maistra_test_tool.Metallb.Pool.{pool_lines, add_addresses-pool}
use maistra_test_tool.World.{World, returned}
use maistra_test_tool.Check.Leaves.{own_mark}
use maistra_test_tool.Tests.Data.{online}
use maistra_test_tool.Prelude.{
  ◌≡◌, refl, inr, Bool, true, false, none, some, List, [], ◌∷◌, ◌++◌, not,
}
use maistra_test_tool.Text.{Text, lit, is_empty}

-- The pool as it is before the first attempt; one of the two addresses is not valid.
abbrev before_fetching : World
before_fetching = record online { address_pool = pool_head }

abbrev not_empty : Text → Bool
not_empty address = not (is_empty address)

abbrev two_addresses : List Text
two_addresses = lit "10.0.0.1" ∷ [] ∷ []

add_addresses-pool_example :
    let (o, w') = add_addresses not_empty 1 two_addresses before_fetching in
    (o ≡ returned tt)
    × (own_mark (w'.helpers 1) ≡ some true)
    × (w'.address_pool ≡ pool_head ++ pool_lines two_addresses)
unfolding lit
add_addresses-pool_example = add_addresses-pool not_empty 1 two_addresses before_fetching false refl

abbrev an_engine : Engine Input
an_engine = record { parse = λ tmpl. none; execute = λ tmpl input. inr (lit "{}") }

abbrev the_sources : Sources
the_sources = record {
  engine = an_engine;
  manifests = record {
    httpbin = [];
    sleep = [];
    minio = [];
    minio_secret = [];
    bookinfo = [];
    bookinfo_gateway = [];
    bookinfo_rule_all = [];
    bookinfo_rule_all_mtls = [];
    tcp_echo = [];
    tcp_echo_v1 = [];
    tcp_echo_v2 = [];
    fortio = [];
    grpcurl = [];
    redis = [];
    tempo_subscription = [];
    otel_subscription = [];
    tempo_stack = [];
    tempo_ui_route = [];
    cert_manager_subscription = [];
    root_ca = [];
    metallb_operator = [];
    metallb = [];
  };
}

-- A cluster that has all of it.
install-Existing_example :
    let (o, w') = Tempo.install_if_not_exist the_sources 0 online in
    (o ≡ returned tt)
    × Found online w'
        (lookup Tempo.tracing_namespace (lit "app.kubernetes.io/component=query-frontend")
          ∷ lookup Tempo.tracing_namespace (lit "app=minio")
          ∷ lookup Tempo.otel_operators_namespace Tempo.otel_operator_selector
          ∷ lookup Tempo.tempo_operators_namespace Tempo.tempo_operator_selector
          ∷ [])
        true
        true
unfolding names_something lit contains
install-Existing_example =
    install-Existing 0 the_sources online
      (record { succeeds = λ asked. refl; names = λ asked. refl })

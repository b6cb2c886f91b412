-- ===== src/Tests/Parts.antt =====
-- Suites, requests, gateways and metrics at concrete inputs.
use maistra_test_tool.Suite.{run, run_cleanup, new_setup_test_helper}
use maistra_test_tool.Suite.Cleanups.{Step, setup_of, last_of, works, run-last}
use maistra_test_tool.Request.{
  HttpRequest, HttpClient, RequestOption, Certificates, header_modifier, options_list, and_then,
  no_more, apply_to_request, apply_to_client, tls, with_tls,
}
use maistra_test_tool.Request.Flat.{flatten, InTurn, options-flatten}
use maistra_test_tool.GatewayApi.{get_waiting_condition, get_default_service_name}
use maistra_test_tool.GatewayApi.Conditions.{conditions_by_order}
use maistra_test_tool.Cluster.{Metric, matches_labels}
use maistra_test_tool.Cluster.Labels.{label_text, HasAll, matches_labels-HasAll}
use maistra_test_tool.Version.Known
use maistra_test_tool.Version.{less_than}
use maistra_test_tool.World.{◌>>=◌, ◌>>◌}
use maistra_test_tool.Tests.Data.{online}
use maistra_test_tool.Prelude.{
  ◌≡◌, refl, ◌↔◌, Bool, true, none, some, List, [], ◌∷◌, map, arith, if◌then◌else◌,
}
use maistra_test_tool.Text.{Text, lit, teq}
use maistra_test_tool.World.{pure, modify}
use maistra_test_tool.Prelude.Int.{pos}

-- Setup functions that clear the environment when they are done.
abbrev clearing : Text → Step
clearing key = record {
  work = λ t. pure tt;
  cleanup = modify λ w. record w { env = λ k. if teq k key then none else w.env k };
}

abbrev two_steps : List Step
two_steps = clearing (lit "FIRST") ∷ clearing (lit "SECOND") ∷ []

run-last_example :
    run (record { m = pure (pos 0); setup_fns = map setup_of two_steps }) 0 online
    ≡ (do
      h ← new_setup_test_helper 0
      works h two_steps
      exit_code ← pure (pos 0)
      run_cleanup (last_of none two_steps)
      pure exit_code)
        online
run-last_example = run-last (pure (pos 0)) two_steps 0 online

-- A header, and a list with a certificate that cannot be read and a header after it.
abbrev nested : RequestOption
nested = options_list (
    and_then (header_modifier (lit "Accept") (lit "text/html")) (
      and_then
        (options_list (
          and_then
            (tls (with_tls (lit "missing.pem") (lit "example.com") (lit "10.0.0.1") (lit "443")))
            (and_then (header_modifier (lit "End-User") (lit "jason")) no_more)))
        no_more))

abbrev no_certificates : Certificates
no_certificates = record {
  read_error = λ name. some (lit "no such file");
  pair_error = λ cert_file key_file. none;
}

abbrev a_request : HttpRequest
a_request = record { url = lit "https://example.com"; host = []; headers = []; context = none }

abbrev a_client : HttpClient
a_client = record { jar = none; transport = none }

options-flatten_example :
    (let (e, req') = apply_to_request nested a_request in
      InTurn apply_to_request (flatten nested) a_request e req')
    × (let (e, client') = apply_to_client no_certificates nested a_client in
        InTurn (apply_to_client no_certificates) (flatten nested) a_client e client')
options-flatten_example = options-flatten no_certificates nested a_request a_client

conditions_by_order_example :
    (get_waiting_condition Known.smcp_2_4 ≡ lit "Ready")
    × (get_default_service_name Known.smcp_2_4 (lit "gateway") (lit "istio") ≡ lit "gateway")
unfolding less_than
conditions_by_order_example = conditions_by_order 2 4 (lit "gateway") (lit "istio") refl

abbrev a_metric : Metric
a_metric = record {
  labels =
      (lit "response_code", lit "200")
      ∷ (lit "reporter", lit "source")
      ∷ (lit "response_code", lit "503")
      ∷ [];
}

abbrev wanted : List (Text × Text)
wanted = (lit "response_code", lit "503") ∷ (lit "reporter", lit "source") ∷ []

matches_labels-HasAll_example :
    (b : Bool) × (matches_labels a_metric (map label_text wanted) ≡ some b)
    × ((b ≡ true) ↔ HasAll a_metric wanted)
unfolding lit
matches_labels-HasAll_example = matches_labels-HasAll a_metric wanted (ground arith)

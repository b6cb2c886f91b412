-- ===== src/Tests/Tools.antt =====
-- Quotations, commands, locators, the edges of retries and indented documents at concrete inputs.
use maistra_test_tool.World.{World, returned}
use maistra_test_tool.Helper.{fatal}
use maistra_test_tool.Oc.Kubeconfig.{default_oc}
use maistra_test_tool.Oc.Queries.{get_json, ask}
use maistra_test_tool.Oc.Resources.{quoted_patch}
use maistra_test_tool.Oc.Retrying.{ns_flag}
use maistra_test_tool.Oc.Quoting.{
  word, open_quotation, read_word, unquoted, get_json-read_word, quoted_patch-read_word,
}
use maistra_test_tool.Oc.Pods.{matching_selector}
use maistra_test_tool.Oc.Pods.Locating.{Located, matching_selector-Located}
use maistra_test_tool.Shell.{execute, invocation}
use maistra_test_tool.Shell.Outcomes.{NeverReturns, IsGone, fatal-NeverReturns, execute-Outcome}
use maistra_test_tool.Heredoc.{doc}
use maistra_test_tool.Heredoc.Dedent.{pad, doc-pad}
use maistra_test_tool.Tests.Data.{online, world}
use maistra_test_tool.Prelude.{◌+◌, ◌≡◌, refl, none, some, [], ◌∷◌, ◌++◌, map, arith}
use maistra_test_tool.Text.{Text, lit, join}
use maistra_test_tool.Text.Format.{sprintf}

get_json-read_word_example :
    (last : Text) × (get_json default_oc 0 (lit "ns") (lit "pod") (lit "p") (b'\'' ∷ lit "a'") []
      ≡ ask default_oc 0
          (sprintf "oc %s get %s %s -o " (ns_flag (lit "ns") ∷ lit "pod" ∷ lit "p" ∷ []) ++ last)
          [])
    × (read_word unquoted last ≡ word (lit "jsonpath=" ++ b'\'' ∷ lit "a'"))
get_json-read_word_example =
    get_json-read_word default_oc 0 (lit "ns") (lit "pod") (lit "p") b'\'' (lit "a'") []

quoted_patch-read_word_example :
    (read_word unquoted (quoted_patch (lit "{\"a\":\"it")) ≡ word (lit "{\"a\":\"it"))
    × (read_word unquoted (quoted_patch (lit "{\"a\":\"it" ++ b'\'' ∷ lit "s\"")) ≡ open_quotation)
unfolding lit
quoted_patch-read_word_example =
    quoted_patch-read_word (lit "{\"a\":\"it") (lit "s\"") (ground arith)
      ((ground arith, ground arith, refl, refl), ((ground arith, ground arith, refl, refl), tt))

fatal-NeverReturns_example : NeverReturns (fatal 1 (lit "no route"))
fatal-NeverReturns_example = fatal-NeverReturns 1 (lit "no route")

execute-Outcome_example :
    let reply = online.outside.shell (invocation (lit "oc version") none [] online ∷ []) in
    (reply.error ≡ none
      → execute 0 (lit "oc version") [] online ≡ (
        returned reply.output,
        record online {
          trace = invocation (lit "oc version") none [] online ∷ [];
          clock = 0 + reply.took;
        },
      ))
    × ((err : Text) → reply.error ≡ some err → IsGone (execute 0 (lit "oc version") [] online).0)
execute-Outcome_example = execute-Outcome 0 (lit "oc version") [] online

abbrev two_pods : World
two_pods = world (lit "a b") none

matching_selector-Located_example :
    Located
      (lit "ns")
      (lit "a")
      (lit "b" ∷ [])
      (matching_selector (lit "app=x") (lit "ns") 0 default_oc two_pods).0
unfolding lit
matching_selector-Located_example =
    matching_selector-Located 0 (lit "app=x") (lit "ns") (lit "a") (lit "b" ∷ []) two_pods (record {
      succeeds = refl;
      output = unfold join in refl;
      some_output = unfold join in refl;
      separate = ((ground arith, tt), ((ground arith, tt), tt));
    })

doc-pad_example :
    doc (b'\n' ∷ join (b'\n' ∷ []) (map (pad 2) ([] ++ lit "a:" ∷ lit " b" ∷ [])))
    ≡ join (b'\n' ∷ []) ([] ++ lit "a:" ∷ lit " b" ∷ [])
unfolding lit
doc-pad_example =
    doc-pad 2 [] (lit "a:") (lit " b" ∷ []) (omega arith)
      ((ground arith, (ground arith, tt)), ((ground arith, (ground arith, tt)), tt))
      (ground arith, (ground arith, tt)) (ground arith)

-- ===== src/Tests/Client.antt =====
-- Checks and the client of the cluster at concrete inputs.
use maistra_test_tool.World.{panic, panicked, pure, string, returned, ◌>>=◌}
use maistra_test_tool.World.Binds.{by_panic}
use maistra_test_tool.Check.Assert
use maistra_test_tool.Check.Require
use maistra_test_tool.Check.Verdict.{
  Verdict, AnyOccurs, attempt_over, output_contains_any-Verdict, output_does_not_contain-Verdict,
  count_expected-Verdict,
}
use maistra_test_tool.Env.{get_kubeconfig, getenv, os_getenv}
use maistra_test_tool.Oc.Kubeconfig.{Oc, with_kubeconfig, is_valid_value, set_var}
use maistra_test_tool.Oc.Kubeconfig.Restore.{
  with_kubeconfig-returned, with_kubeconfig-Unfinished, within,
}
use maistra_test_tool.Oc.Retrying.{apply_string}
use maistra_test_tool.Oc.Retrying.Bypass.{IsOver, apply_string-not_retried}
use maistra_test_tool.Tests.Data.{online, offline, the_helper}
use maistra_test_tool.Prelude.{ℕ, ◌≡◌, ◌≢◌, refl, true, false, [], ◌∷◌, arith}
use maistra_test_tool.Text.{lit, count, is_empty}
use maistra_test_tool.Text.Search.{Occurs}
use maistra_test_tool.Prelude.Int.{pos}

output_contains_any-Verdict_example :
    Verdict 1 online
      (returned tt)
      (AnyOccurs (lit "productpage") (lit "page" ∷ []))
      (Assert.output_contains_any (lit "page" ∷ []) [] (lit "no page") 1 (lit "productpage"))
    × Verdict 1 online attempt_over
        (AnyOccurs (lit "productpage") (lit "page" ∷ []))
        (Require.output_contains_any (lit "page" ∷ []) [] (lit "no page") 1 (lit "productpage"))
output_contains_any-Verdict_example =
    output_contains_any-Verdict 1 online false refl (lit "productpage") (lit "page" ∷ []) []
      (lit "no page")

output_does_not_contain-Verdict_example :
    Verdict 1 online
      (returned tt)
      (¬ Occurs (lit "page") (lit "productpage"))
      (Assert.output_does_not_contain (lit "page") [] (lit "a page") 1 (lit "productpage"))
    × Verdict 1 online attempt_over
        (¬ Occurs (lit "page") (lit "productpage"))
        (Require.output_does_not_contain (lit "page") [] (lit "a page") 1 (lit "productpage"))
output_does_not_contain-Verdict_example =
    output_does_not_contain-Verdict 1 online false refl (lit "productpage") (lit "page") []
      (lit "a page")

count_expected-Verdict_example :
    Verdict 1 online
      (returned tt)
      (pos (count (lit "v1 v1 v2") (lit "v1")) ≢ pos 2)
      (Assert.count_expected (lit "v1") (pos 2) [] (lit "not twice") 1 (lit "v1 v1 v2"))
count_expected-Verdict_example =
    count_expected-Verdict 1 online false refl (lit "v1 v1 v2") (lit "v1") (pos 2) []
      (lit "not twice")

abbrev pub second_cluster : Oc
second_cluster = record { kubeconfig = lit "/kube2" }

pub second_cluster_valid : is_valid_value second_cluster.kubeconfig ≡ true
unfolding is_valid_value lit
second_cluster_valid = refl

pub second_cluster_used : is_empty second_cluster.kubeconfig ≡ false
unfolding lit
second_cluster_used = refl

pub no_kubeconfig_valid : is_valid_value (get_kubeconfig online.env) ≡ true
unfolding is_valid_value get_kubeconfig getenv os_getenv lit
no_kubeconfig_valid = refl

with_kubeconfig-returned_example : with_kubeconfig {A = ℕ} second_cluster 0 (pure 5) online ≡ (
  returned 5,
  record online {
    env = set_var (within second_cluster online).env (lit "KUBECONFIG") (get_kubeconfig online.env);
  },
)
unfolding ◌>>=◌
with_kubeconfig-returned_example =
    with_kubeconfig-returned second_cluster 0 (pure 5) online 5 (within second_cluster online)
      second_cluster_used second_cluster_valid no_kubeconfig_valid refl

with_kubeconfig-Unfinished_example :
    with_kubeconfig second_cluster 0 (panic {A = Unit} (string [])) online
    ≡ (panicked (string []), within second_cluster online)
unfolding ◌>>=◌
with_kubeconfig-Unfinished_example =
    with_kubeconfig-Unfinished second_cluster 0 (panic (string [])) online (panicked (string []))
      (panicked (string [])) (within second_cluster online) second_cluster_used second_cluster_valid
      refl (by_panic (string []))

apply_string-not_retried_example :
    IsOver the_helper 1 (apply_string second_cluster 0 (lit "bookinfo") (lit "{}" ∷ []) offline)
apply_string-not_retried_example =
    apply_string-not_retried second_cluster 0 the_helper (lit "bookinfo") (lit "{}" ∷ []) offline
      refl (omega arith) second_cluster_valid (λ trace. (lit "exit status 1", refl))

-- ===== src/Oc/Pods/Locating.antt =====
-- pkg/util/pod/pods.go: the pods that the locators find, by what the cluster answers.
use maistra_test_tool.World.{World, Outcome, returned, ◌>>=◌}
use maistra_test_tool.Shell.{invocation, reply_to, after_command}
use maistra_test_tool.Shell.Outcomes.{IsGone, execute-Outcome, bind-stays, fatal-NeverReturns}
use maistra_test_tool.Oc.Kubeconfig.{default_oc, with_kubeconfig}
use maistra_test_tool.Oc.Retrying.{ns_flag}
use maistra_test_tool.Oc.Queries.{get_all_resources_names}
use maistra_test_tool.Oc.Pods.{
  NamespacedName, new_namespaced_name, get_pods, only_pod, matching_selector, fatal,
}
use maistra_test_tool.Prelude.{ℕ, ◌≡◌, ◌≢◌, refl, false, none, List, [], ◌∷◌, map, All, arith}
use maistra_test_tool.Text.{Text, lit, is_empty, join}
use maistra_test_tool.Text.Parts.{Lacks, split-join}
use maistra_test_tool.Text.Format.{sprintf}

-- The command that asks for the names.
abbrev pub names_command : Text → Text → Text → Text
names_command ns kind label =
    sprintf "oc %s get %s -l '%s' -o jsonpath='{.items[*].metadata.name}' || true"
      (ns_flag ns ∷ kind ∷ label ∷ [])

-- The cluster answers with the names, separated by blanks; there is at least one, and none has a blank.
pub record Answers (command : Text) (names : List Text) (w : World) : Type 0 where
  pub succeeds : (w.outside.shell (invocation command none [] w ∷ w.trace)).error ≡ none
  pub output :
      (w.outside.shell (invocation command none [] w ∷ w.trace)).output ≡ join (b' ' ∷ []) names
  pub some_output : is_empty (join (b' ' ∷ []) names) ≡ false
  pub separate : All (Lacks b' ') names

names-ne-nil : (names : List Text) → is_empty (join (b' ' ∷ []) names) ≡ false → names ≢ []
unfolding join
names-ne-nil [] e = ground (arith, e)
names-ne-nil (n ∷ names) e = ground arith

names_found :
    (h : ℕ) (ns kind label : Text) (names : List Text) (w : World)
    → Answers (names_command ns kind label) names w
    → get_all_resources_names default_oc h ns kind label w
      ≡ (returned names, after_command (names_command ns kind label) none [] w)
unfolding get_all_resources_names with_kubeconfig after_command reply_to ◌>>=◌
names_found h ns kind label names w a =
    rw ((execute-Outcome h (names_command ns kind label) [] w).0 a.succeeds) (
      rw a.output (
        rw a.some_output
          (rw (split-join b' ' names (names-ne-nil names a.some_output) a.separate) refl)))

-- With one name the pod is returned, and with more the call does not return.
abbrev pub Located : Text → Text → List Text → Outcome NamespacedName → Type 0
Located ns name [] o = o ≡ returned (new_namespaced_name ns name)
Located ns name (_ ∷ _) o = IsGone o

only_pod-Located :
    (h : ℕ) (quoted ns name : Text) (more : List Text) (w : World)
    → Located ns name more (only_pod h quoted ns (map (new_namespaced_name ns) (name ∷ more)) w).0
unfolding only_pod ◌>>=◌
only_pod-Located h quoted ns name [] w = refl
only_pod-Located h quoted ns name (x ∷ more) w =
    bind-stays _ (fatal h _) w (fatal-NeverReturns h _ w)

-- If the cluster answers the request for the pods of a selector with their names, `MatchingSelector`
-- returns the pod of the namespace with that name where there is just one, and does not return where there
-- are more, on any helper.
pub matching_selector-Located :
    (h : ℕ) (selector ns name : Text) (more : List Text) (w : World)
    → Answers (names_command ns (lit "pods") selector) (name ∷ more) w
    → Located ns name more (matching_selector selector ns h default_oc w).0
unfolding matching_selector get_pods ◌>>=◌
matching_selector-Located h selector ns name more w a =
    rw (names_found h ns (lit "pods") selector (name ∷ more) w a)
      (only_pod-Located h _ ns name more _)

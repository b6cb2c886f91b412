-- ===== src/Oc/Queries.antt =====
-- pkg/util/oc/oc_struct.go: the operations that ask the cluster.
pub mod ServerVersion
use maistra_test_tool.World.{Action, pure, panic, runtime_error, ◌>>=◌, ◌>>◌, when}
use maistra_test_tool.Helper.{fatal}
use maistra_test_tool.Shell.{execute}
use maistra_test_tool.Check.Common.{CheckFunc}
use maistra_test_tool.Oc.Kubeconfig.{Oc, with_kubeconfig, invokef}
use maistra_test_tool.Oc.Retrying.{ns_flag}
use maistra_test_tool.Prelude.{
  ℕ, Bool, not, ◌||◌, Option, none, some, List, [], ◌∷◌, if◌then◌else◌, true, length,
}
use maistra_test_tool.Text.{Text, lit, is_empty, contains, split, replace_all, trim_space}
use maistra_test_tool.Text.Format.{sprintf}

unfoldable pub second_part : List Text → Option Text
second_part (_ ∷ p ∷ _) = some (trim_space p)
second_part _ = none

-- The first line with the mark, and what follows its first colon up to the next one. A line with no
-- colon has no second part, which is an error of the runtime.
unfoldable pub server_version : List Text → Option (Option Text)
unfolding second_part
server_version [] = none
server_version (line ∷ lines) =
    let rest = server_version lines in
    if contains line (lit "Server Version") then some (second_part (split b':' line)) else rest

unfoldable pub answer_version : ℕ → Option (Option Text) → Action Text
answer_version h none = do fatal h (lit "Unable to get OCP version"); pure []
answer_version h (some none) = panic (runtime_error (lit "index out of range [1] with length 1"))
answer_version h (some (some version)) = pure version

-- Whether the answer of `oc get` names something.
unfoldable pub names_something : Text → Bool
names_something output = not (
    contains output (lit "Error from server (NotFound)")
    || contains output (lit "No resources found"))

-- In `GetJson`, a single quote of the path ends the quotation, and comes in double quotes.
unfoldable pub quoted_path : Text → Text
quoted_path path = replace_all path b'\'' (lit "'\"'\"'")

module _ (o : Oc) (h : ℕ) where
  -- A closure of the source that runs one command under the kubeconfig.
  abbrev pub ask : Text → List CheckFunc → Action Text
  ask command checks = with_kubeconfig o h (execute h command checks)

  -- `GetOCPVersion`
  unfoldable pub get_ocp_version : Action Text
  unfolding server_version answer_version
  get_ocp_version = do
    output ← ask (lit "oc version") []
    answer_version h (server_version (split b'\n' output))

  -- `GetRouteURL`
  unfoldable pub get_route_url : Text → Text → Action Text
  get_route_url ns name =
      with_kubeconfig o h
        (invokef o h (sprintf "oc -n %s get route %s -o jsonpath='{.spec.host}'" (ns ∷ name ∷ [])))

  -- `Get`
  unfoldable pub get : Text → Text → Text → List CheckFunc → Action Text
  get ns kind name checks =
      let element = if is_empty name then kind else sprintf "%s/%s" (kind ∷ name ∷ []) in
      ask (sprintf "oc %s get %s" (ns_flag ns ∷ element ∷ [])) checks

  -- `GetYaml`
  unfoldable pub get_yaml : Text → Text → Text → List CheckFunc → Action Text
  get_yaml ns kind name checks =
      ask (sprintf "oc %s get %s/%s -oyaml" (ns_flag ns ∷ kind ∷ name ∷ [])) checks

  -- `GetJson`
  unfoldable pub get_json : Text → Text → Text → Text → List CheckFunc → Action Text
  unfolding quoted_path
  get_json ns kind name path checks =
      if is_empty path
      then ask (sprintf "oc %s get %s %s -o json" (ns_flag ns ∷ kind ∷ name ∷ [])) checks
      else ask
          (sprintf "oc %s get %s %s -o jsonpath='%s'"
            (ns_flag ns ∷ kind ∷ name ∷ quoted_path path ∷ []))
          checks

  -- `ResourceExists`
  unfoldable pub resource_exists : Text → Text → Text → Action Bool
  unfolding names_something
  resource_exists ns kind name = do
    output ← ask (sprintf "oc %s get %s/%s || true" (ns_flag ns ∷ kind ∷ name ∷ [])) []
    pure (names_something output)

  -- `ResourceByLabelExists`
  unfoldable pub resource_by_label_exists : Text → Text → Text → Action Bool
  unfolding names_something
  resource_by_label_exists ns kind label = do
    output ← ask (sprintf "oc %s get %s -l %s || true" (ns_flag ns ∷ kind ∷ label ∷ [])) []
    pure (names_something output)

  -- `AnyResourceExist`
  unfoldable pub any_resource_exist : Text → Text → Action Bool
  unfolding names_something
  any_resource_exist ns kind = do
    output ← ask (sprintf "oc %s get %s || true" (ns_flag ns ∷ kind ∷ [])) []
    pure (names_something output)

  -- `GetAllResourcesNames`
  unfoldable pub get_all_resources_names : Text → Text → Text → Action (List Text)
  get_all_resources_names ns kind label = with_kubeconfig o h (do
    output ←
        execute h
          (sprintf "oc %s get %s -l '%s' -o jsonpath='{.items[*].metadata.name}' || true"
            (ns_flag ns ∷ kind ∷ label ∷ []))
          []
    when (is_empty output) (
        fatal h (
          sprintf "Could not find resource %s with label %s in namespace %s"
            (kind ∷ label ∷ ns ∷ [])))
    pure (split b' ' output))

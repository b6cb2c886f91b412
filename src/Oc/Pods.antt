-- ===== src/Oc/Pods.antt =====
-- pkg/util/oc/pod_commands.go: commands on pods. pkg/util/pod/pods.go makes the locators, which are
-- `PodLocatorFunc`s.
pub mod Locating
use maistra_test_tool.World.{
  Action, pure, panic, string, runtime_error, gets, for_each, ◌>>=◌, ◌>>◌, when,
}
use maistra_test_tool.Helper.{fatal}
use maistra_test_tool.Shell.{execute, executef}
use maistra_test_tool.Check.Common.{CheckFunc}
use maistra_test_tool.Oc.Kubeconfig.{Oc, invoke, invokef}
use maistra_test_tool.Oc.Queries.{get_all_resources_names}
use maistra_test_tool.Prelude.{
  ℕ, ◌+◌, ◌-◌, ◌/◌, ◌||◌, List, [], ◌∷◌, ◌++◌, map, if◌then◌else◌, not, length,
}
use maistra_test_tool.Text.{Text, lit, is_empty}
use maistra_test_tool.Text.Decimal.{decimal}
use maistra_test_tool.Text.Format.{sprintf, list_text}

pub record NamespacedName : Type 0 where
  pub namespace : Text
  pub name : Text

-- `NewNamespacedName`
abbrev pub new_namespaced_name : Text → Text → NamespacedName
new_namespaced_name ns name = record { namespace = ns; name = name }

abbrev pub PodLocatorFunc : Type 0
PodLocatorFunc = ℕ → Oc → Action NamespacedName

-- `getPods`
unfoldable pub get_pods : ℕ → Oc → Text → Text → Action (List NamespacedName)
get_pods h oc selector ns = do
  pods ← get_all_resources_names oc h ns (lit "pods") selector
  pure (map (new_namespaced_name ns) pods)

pod_text : NamespacedName → Text
pod_text pod = b'{' ∷ (pod.namespace ++ (lit " " ++ (pod.name ++ lit "}")))

abbrev never_reached : Text
never_reached =
    lit
      "should never reach this point because the preceding code either returns or calls t.Fatalf(), "
    ++ lit "which causes a panic"

-- What `MatchingSelector` does with the pods that it found.
unfoldable pub only_pod : ℕ → Text → Text → List NamespacedName → Action NamespacedName
unfolding pod_text
only_pod h quoted ns (pod ∷ []) = pure pod
only_pod h quoted ns pods = do
  fatal h (
      sprintf "more than one pod found using selector %s in namespace %s: %v"
        (quoted ∷ ns ∷ list_text (map pod_text pods) ∷ []))
  panic (string never_reached)

-- `MatchingSelector`
unfoldable pub matching_selector : Text → Text → PodLocatorFunc
unfolding only_pod get_pods
matching_selector selector ns h oc = do
  pods ← get_pods h oc selector ns
  quoted ← gets λ w. w.outside.quote selector
  only_pod h quoted ns pods

-- `MatchingSelectorFirst`
unfoldable pub matching_selector_first : Text → Text → PodLocatorFunc
unfolding get_pods
matching_selector_first selector ns h oc = do
  pods ← get_pods h oc selector ns
  elim pods [
    | [] ↦ panic (runtime_error (lit "index out of range [0] with length 0"))
    | pod ∷ _ ↦ pure pod
  ]

-- `MatchingName`
unfoldable pub matching_name : Text → Text → PodLocatorFunc
matching_name ns name h oc = pure (new_namespaced_name ns name)

module _ (o : Oc) where
  -- `Exec`
  unfoldable pub exec : ℕ → PodLocatorFunc → Text → Text → List CheckFunc → Action Text
  exec h pod_locator container cmd checks = do
    pod ← pod_locator h o
    when (is_empty pod.name || is_empty pod.namespace)
        (fatal h (lit "could not find pod using podLocatorFunc"))
    let container_flag = if is_empty container then [] else lit "-c " ++ container
    invoke o h
        (sprintf "kubectl exec -n %s %s %s -- %s"
          (pod.namespace ∷ pod.name ∷ container_flag ∷ cmd ∷ []))
        checks

  -- `GetPodIP`
  unfoldable pub get_pod_ip : ℕ → PodLocatorFunc → Action Text
  get_pod_ip h pod_locator = do
    pod ← pod_locator h o
    invoke o h
        (sprintf "kubectl get pod -n %s %s -o jsonpath='{.status.podIP}'"
          (pod.namespace ∷ pod.name ∷ []))
        []

  -- `Logs`
  unfoldable pub logs : ℕ → PodLocatorFunc → Text → List CheckFunc → Action Unit
  logs h pod_locator container checks = do
    pod ← pod_locator h o
    invoke o h (sprintf "kubectl logs -n %s %s -c %s" (pod.namespace ∷ pod.name ∷ container ∷ []))
        checks
    pure tt

  -- Whole seconds, rounded up.
  seconds_up : ℕ → ℕ
  seconds_up d = (d + 999_999_999) / 1_000_000_000

  -- `LogsSince`, for a start that is not in the future
  unfoldable pub logs_since : ℕ → ℕ → PodLocatorFunc → Text → List CheckFunc → Action Unit
  unfolding seconds_up
  logs_since h start pod_locator container checks = do
    pod ← pod_locator h o
    now ← gets λ w. w.clock
    invoke o h
        (sprintf "kubectl logs -n %s %s -c %s --since=%ds"
          (pod.namespace ∷ pod.name ∷ container ∷ decimal (seconds_up (now - start)) ∷ []))
        checks
    pure tt

  -- `LogsFromPods`
  unfoldable pub logs_from_pods : ℕ → Text → Text → List CheckFunc → Action Unit
  logs_from_pods h ns selector checks = do
    invoke o h (sprintf "kubectl -n %s logs -l %s --all-containers --tail=-1" (ns ∷ selector ∷ []))
        checks
    pure tt

  -- `RestartDeployments`
  unfoldable pub restart_deployments : ℕ → Text → List Text → Action Unit
  restart_deployments h ns names = for_each names (λ name. do
    invokef o h (sprintf "kubectl -n %s rollout restart deployment %s" (ns ∷ name ∷ []))
    pure tt)

  -- `RestartAllPods`
  unfoldable pub restart_all_pods : ℕ → List Text → Action Unit
  restart_all_pods h namespaces =
      for_each namespaces
        (λ ns. do invokef o h (sprintf "oc -n %s delete pod --all" (ns ∷ [])); pure tt)

  -- `DeletePodNoWait`: the kubeconfig is used by the locator only.
  unfoldable pub delete_pod_no_wait : ℕ → PodLocatorFunc → Action Unit
  delete_pod_no_wait h pod_locator = do
    pod ← pod_locator h o
    executef h (sprintf "oc -n %s delete pod %s --wait=false" (pod.namespace ∷ pod.name ∷ []))
    pure tt

  -- `GetAllResources`: the kubeconfig is not used.
  unfoldable pub get_all_resources : ℕ → Text → List CheckFunc → Action Unit
  get_all_resources h ns checks = do
    execute h (sprintf "oc get all -n %s" (ns ∷ [])) checks
    pure tt

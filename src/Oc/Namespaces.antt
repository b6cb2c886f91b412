-- ===== src/Oc/Namespaces.antt =====
-- pkg/util/oc/oc_struct.go: namespaces, with the labels of labels.go.
use maistra_test_tool.World.{Action, pure, ◌>>◌}
use maistra_test_tool.Helper.{log}
use maistra_test_tool.Oc.Kubeconfig.{Oc, with_kubeconfig, invokef}
use maistra_test_tool.Oc.Retrying.{apply_string}
use maistra_test_tool.Prelude.{ℕ, List, [], ◌∷◌, ◌++◌}
use maistra_test_tool.Text.{Text, lit, join}
use maistra_test_tool.Text.Format.{sprintf, list_text}

-- `MaistraTestLabel`
abbrev pub maistra_test_label : Text
maistra_test_label = lit "maistra.io/maistra-test-tool"

-- `testBoundNSLabelValue`
abbrev pub test_bound_ns_label_value : Text
test_bound_ns_label_value = lit "test-bound-ns"

-- `testBoundNamespacesSelector`
abbrev pub test_bound_namespaces_selector : Text
test_bound_namespaces_selector = maistra_test_label ++ (lit "=" ++ test_bound_ns_label_value)

-- The text that the loop of `CreateNamespace` makes of the namespaces.
unfoldable pub namespaces_yaml : List Text → Text
namespaces_yaml [] = []
namespaces_yaml (ns ∷ namespaces) =
    sprintf "\napiVersion: v1\nkind: Namespace\nmetadata:\n  labels:\n    %s: %s\n  name: %s\n---"
      (maistra_test_label ∷ test_bound_ns_label_value ∷ ns ∷ [])
    ++ namespaces_yaml namespaces

module _ (o : Oc) (h : ℕ) where
  -- `DeleteNamespace`
  unfoldable pub delete_namespace : List Text → Action Unit
  delete_namespace namespaces = with_kubeconfig o h (do
    log h (sprintf "Deleting namespaces: %v" (list_text namespaces ∷ []))
    invokef o h (sprintf "kubectl delete ns --ignore-not-found %s" (join (lit " ") namespaces ∷ []))
    pure tt)

  -- `DeleteTestBoundNamespaces`
  unfoldable pub delete_test_bound_namespaces : Action Unit
  delete_test_bound_namespaces = with_kubeconfig o h (do
    log h
        (sprintf "Deleting namespaces matching selector: %v" (test_bound_namespaces_selector ∷ []))
    invokef o h (sprintf "kubectl delete ns -l %s" (test_bound_namespaces_selector ∷ []))
    pure tt)

  -- `CreateNamespace`
  unfoldable pub create_namespace : List Text → Action Unit
  unfolding namespaces_yaml
  create_namespace namespaces = with_kubeconfig o h (do
    log h (sprintf "Creating namespaces: %v" (list_text namespaces ∷ []))
    apply_string o h [] (namespaces_yaml namespaces ∷ []))

  -- `RecreateNamespace`
  unfoldable pub recreate_namespace : List Text → Action Unit
  unfolding delete_namespace create_namespace
  recreate_namespace namespaces =
      with_kubeconfig o h (do delete_namespace namespaces; create_namespace namespaces)

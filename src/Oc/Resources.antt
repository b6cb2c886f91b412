-- ===== src/Oc/Resources.antt =====
-- pkg/util/oc/oc_struct.go: the operations that create, change and delete resources.
use maistra_test_tool.World.{Action, pure, ◌>>◌}
use maistra_test_tool.Helper.{log}
use maistra_test_tool.Retry.{until_success_with_options}
use maistra_test_tool.Retry.Options.{options, max_attempts, log_attempts}
use maistra_test_tool.Shell.{execute, executef, execute_with_input}
use maistra_test_tool.Oc.Kubeconfig.{Oc, with_kubeconfig, invokef}
use maistra_test_tool.Oc.Retrying.{ns_flag, concatenate_yamls}
use maistra_test_tool.Prelude.{ℕ, false, List, [], ◌∷◌, ◌++◌, if◌then◌else◌}
use maistra_test_tool.Text.{Text, lit, teq, is_empty, join, replace_all}
use maistra_test_tool.Text.Format.{sprintf}
use maistra_test_tool.Prelude.Int.{pos}
use maistra_test_tool.Text.Decimal.{decimal}

-- The single quotes that `Patch` puts around the patch, and in place of each single quote in it.
unfoldable pub quoted_patch : Text → Text
quoted_patch patch = sprintf "'%s'" (replace_all patch b'\'' (lit "'\\\\''") ∷ [])

module _ (o : Oc) where
  -- A closure of the source that runs one command under the kubeconfig and drops its output.
  abbrev pub run : ℕ → Text → Action Unit
  run h command = with_kubeconfig o h (do executef h command; pure tt)

  -- `DeleteFromString`
  unfoldable pub delete_from_string : ℕ → Text → List Text → Action Unit
  delete_from_string h ns yamls = do
    log h (sprintf "Deleting resources from namespace %s" (ns ∷ []))
    with_kubeconfig o h (do
      execute_with_input h (sprintf "oc %s delete -f - --ignore-not-found" (ns_flag ns ∷ []))
          (concatenate_yamls yamls) []
      pure tt)

  -- `DeleteFile`
  unfoldable pub delete_file : ℕ → Text → Text → Action Unit
  delete_file h ns file = do
    log h (sprintf "Deleting file %s from namespace %s" (file ∷ ns ∷ []))
    run h (sprintf "kubectl delete %s -f %s --ignore-not-found" (ns_flag ns ∷ file ∷ []))

  -- `DeleteResource`
  unfoldable pub delete_resource : ℕ → Text → Text → List Text → Action Unit
  delete_resource h ns kind names = run h (
      sprintf "kubectl %s delete %s %s --ignore-not-found"
        (ns_flag ns ∷ kind ∷ join (lit " ") names ∷ []))

  -- `DeleteSecret`
  unfoldable pub delete_secret : ℕ → Text → List Text → Action Unit
  unfolding delete_resource
  delete_secret h ns names = delete_resource h ns (lit "secret") names

  -- `DeleteConfigMap`
  unfoldable pub delete_config_map : ℕ → Text → List Text → Action Unit
  unfolding delete_resource
  delete_config_map h ns names = delete_resource h ns (lit "configmap") names

  -- `DeleteResourcesByLabel`
  unfoldable pub delete_resources_by_label : ℕ → Text → Text → Text → Action Unit
  delete_resources_by_label h ns kind label =
      let ns_msg = if is_empty ns then [] else lit " in namespace " ++ ns in
      with_kubeconfig o h (do
        log h (sprintf "Deleting %s resources matching selector %s%s" (kind ∷ label ∷ ns_msg ∷ []))
        executef h (sprintf "kubectl %s delete %s -l %s" (ns_flag ns ∷ kind ∷ label ∷ []))
        pure tt)

  -- The text that the loop over the files appends to the command.
  from_files : List Text → Text
  from_files [] = []
  from_files (file ∷ files) = sprintf " --from-file=%s" (file ∷ []) ++ from_files files

  -- `createSecretOrConfigMapFromFiles`: the deletion is retried through the helper of the attempt.
  unfoldable pub create_from_files : ℕ → Text → Text → Text → List Text → Action Unit
  unfolding delete_resource from_files
  create_from_files h ns kind name files =
      let k = if teq kind (lit "secret generic") then lit "secret" else kind in
      with_kubeconfig o h (do
        until_success_with_options h (log_attempts (max_attempts options (pos 5)) false)
            (λ t. delete_resource t ns k (name ∷ []))
        execute h (sprintf "oc create %s %s -n %s " (kind ∷ name ∷ ns ∷ []) ++ from_files files) []
        pure tt)

  -- `CreateGenericSecretFromFiles`
  unfoldable pub create_generic_secret_from_files : ℕ → Text → Text → List Text → Action Unit
  unfolding create_from_files
  create_generic_secret_from_files h ns name files =
      create_from_files h ns (lit "secret generic") name files

  -- `CreateConfigMapFromFiles`
  unfoldable pub create_config_map_from_files : ℕ → Text → Text → List Text → Action Unit
  unfolding create_from_files
  create_config_map_from_files h ns name files = create_from_files h ns (lit "configmap") name files

  -- `CreateTLSSecret`
  unfoldable pub create_tls_secret : ℕ → Text → Text → Text → Text → Action Unit
  unfolding delete_secret
  create_tls_secret h ns name key_file cert_file = do
    delete_secret h ns (name ∷ [])
    run h (
        sprintf "oc %s create secret tls %s --key %s --cert %s"
          (ns_flag ns ∷ name ∷ key_file ∷ cert_file ∷ []))

  -- `Patch`
  unfoldable pub patch : ℕ → Text → Text → Text → Text → Text → Action Unit
  unfolding quoted_patch
  patch h ns kind name merge_type change = with_kubeconfig o h (do
    invokef o h (
        sprintf "oc -n %s patch %s/%s --type %s -p %s"
          (ns ∷ kind ∷ name ∷ merge_type ∷ quoted_patch change ∷ []))
    pure tt)

  -- `TouchSMCP`, given the random number
  unfoldable pub touch_smcp : ℕ → ℕ → Text → Text → Action Unit
  unfolding patch
  touch_smcp random h ns name =
      patch h ns (lit "smcp") name (lit "merge")
        (sprintf "{\"spec\":{\"techPreview\":{\"foo\":\"foo%d\"}}}" (decimal random ∷ []))

  -- `ExposeSvc`
  unfoldable pub expose_svc : ℕ → Text → Text → Text → Text → Action Unit
  expose_svc h ns svc_name service_port route_name = with_kubeconfig o h (do
    log h (sprintf "Exposing svc: %v" (svc_name ∷ []))
    invokef o h (
        sprintf "oc -n %s expose svc %s --port=%s --name=%s"
          (ns ∷ svc_name ∷ service_port ∷ route_name ∷ []))
    pure tt)

  -- `UndoRollout`: the kubeconfig is not used.
  unfoldable pub undo_rollout : ℕ → Text → Text → Text → Action Unit
  undo_rollout h ns kind name = do
    executef h (sprintf "kubectl -n %s rollout undo %s %s" (ns ∷ kind ∷ name ∷ []))
    pure tt

  -- `TaintNode`
  unfoldable pub taint_node : ℕ → Text → List Text → Action Unit
  taint_node h name taints =
      run h (sprintf "oc adm taint nodes %s %s" (name ∷ join (lit " ") taints ∷ []))

  -- `Label`
  unfoldable pub label : ℕ → Text → Text → Text → Text → Action Unit
  label h ns kind name labels =
      let flag = if is_empty ns then [] else sprintf "-n %s " (ns ∷ []) in
      run h (sprintf "oc %slabel %s %s %s" (flag ∷ kind ∷ name ∷ labels ∷ []))

  -- `RemoveLabel`
  unfoldable pub remove_label : ℕ → Text → Text → Text → Text → Action Unit
  unfolding label
  remove_label h ns kind name l = label h ns kind name (l ++ lit "-")

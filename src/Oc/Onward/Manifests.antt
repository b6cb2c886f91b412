-- ===== src/Oc/Onward/Manifests.antt =====
-- pkg/util/oc/oc_struct.go: manifests, resources, namespaces and queries, as actions that go on under the
-- kubeconfig of the client.
use maistra_test_tool.Shell.{execute_with_input}
use maistra_test_tool.Helper.Onward.{failed-Onward}
use maistra_test_tool.Retry.Onward.{sleep-Onward}
use maistra_test_tool.World.{World, Action}
use maistra_test_tool.World.Keeps.{Keeps, Keeps-bind, Keeps-if}
use maistra_test_tool.World.Onward.{After}
use maistra_test_tool.Helper.Onward.{failed-Onward}
use maistra_test_tool.Shell.Onward.{execute_with_input-Onward}
use maistra_test_tool.Retry.Onward.{attempt-Onward, until_success_with_options-Onward, sleep-Onward}
use maistra_test_tool.Oc.Kubeconfig.{Oc}
use maistra_test_tool.Oc.Onward.{Fits, with_kubeconfig-Onward, client_rules}
use maistra_test_tool.Oc.Retrying
use maistra_test_tool.Oc.Resources
use maistra_test_tool.Oc.Namespaces
use maistra_test_tool.Oc.Queries
use maistra_test_tool.Prelude.{ℕ, zero, suc, ◌+◌, List, []}
use maistra_test_tool.Text.{Text}

module _ {w0 : World} where
  module _ (o : Oc) (fits : Fits o w0) (h : ℕ) where
    module _ (f : Action Unit) (k : Keeps (After w0) f) where
      one_attempt-Onward : Keeps (After w0) (Retrying.one_attempt o h f)
      unfolding Retrying.one_attempt
      one_attempt-Onward = attempt-Onward _ (λ t. with_kubeconfig-Onward o t f k fits) h

      retry_rounds-Onward : (n i a : ℕ) → Keeps (After w0) (Retrying.retry_rounds o h f n i a)
      unfolding Retrying.retry_rounds
      retry_rounds-Onward zero i a = search client_rules
      retry_rounds-Onward (suc n) i _ = Keeps-bind _ _ one_attempt-Onward (λ a.
          Keeps-bind _ _ (failed-Onward a) (λ has_failed.
            Keeps-if has_failed _ _
              (Keeps-bind _ _ (sleep-Onward _) (λ _. retry_rounds-Onward n (i + 1) a))
              (search client_rules)))

      pub retry_function-Onward : Keeps (After w0) (Retrying.retry_function o h f)
      unfolding Retrying.retry_function
      retry_function-Onward = retry_rounds-Onward Retrying.max_attempts 0 0

    pub apply_string-Onward :
        (ns : Text) (yamls : List Text) → Keeps (After w0) (Retrying.apply_string o h ns yamls)
    unfolding Retrying.apply_string
    apply_string-Onward ns yamls =
        retry_function-Onward _
          (Keeps-bind _ _ (execute_with_input-Onward h _ _ [] tt) (λ _. search client_rules))

    pub apply_file-Onward : (ns file : Text) → Keeps (After w0) (Retrying.apply_file o h ns file)
    unfolding Retrying.apply_file
    apply_file-Onward ns file = retry_function-Onward _ (search client_rules)

    input-Onward : (cmd input : Text) → Keeps (After w0) (execute_with_input h cmd input [])
    input-Onward cmd input = execute_with_input-Onward h cmd input [] tt

    pub delete_from_string-Onward :
        (ns : Text) (yamls : List Text)
        → Keeps (After w0) (Resources.delete_from_string o h ns yamls)
    unfolding Resources.delete_from_string
    delete_from_string-Onward ns yamls = search (client_rules, input-Onward) depth 20

    pub delete_file-Onward : (ns file : Text) → Keeps (After w0) (Resources.delete_file o h ns file)
    unfolding Resources.delete_file
    delete_file-Onward ns file = search client_rules depth 20

    pub delete_resource-Onward :
        (ns kind : Text) (names : List Text)
        → Keeps (After w0) (Resources.delete_resource o h ns kind names)
    unfolding Resources.delete_resource
    delete_resource-Onward ns kind names = search client_rules depth 20

    pub delete_secret-Onward :
        (ns : Text) (names : List Text) → Keeps (After w0) (Resources.delete_secret o h ns names)
    unfolding Resources.delete_secret
    delete_secret-Onward ns names = search (client_rules, delete_resource-Onward) depth 20

    pub delete_config_map-Onward :
        (ns : Text) (names : List Text)
        → Keeps (After w0) (Resources.delete_config_map o h ns names)
    unfolding Resources.delete_config_map
    delete_config_map-Onward ns names = search (client_rules, delete_resource-Onward) depth 20

    pub delete_resources_by_label-Onward :
        (ns kind l : Text) → Keeps (After w0) (Resources.delete_resources_by_label o h ns kind l)
    unfolding Resources.delete_resources_by_label
    delete_resources_by_label-Onward ns kind l = search client_rules depth 20

    pub create_tls_secret-Onward :
        (ns name key_file cert_file : Text)
        → Keeps (After w0) (Resources.create_tls_secret o h ns name key_file cert_file)
    unfolding Resources.create_tls_secret
    create_tls_secret-Onward ns name key_file cert_file =
        search (client_rules, delete_secret-Onward) depth 20

    pub patch-Onward :
        (ns kind name merge_type change : Text)
        → Keeps (After w0) (Resources.patch o h ns kind name merge_type change)
    unfolding Resources.patch
    patch-Onward ns kind name merge_type change = search client_rules depth 20

    pub expose_svc-Onward :
        (ns svc_name service_port route_name : Text)
        → Keeps (After w0) (Resources.expose_svc o h ns svc_name service_port route_name)
    unfolding Resources.expose_svc
    expose_svc-Onward ns svc_name service_port route_name = search client_rules depth 20

    pub undo_rollout-Onward :
        (ns kind name : Text) → Keeps (After w0) (Resources.undo_rollout o h ns kind name)
    unfolding Resources.undo_rollout
    undo_rollout-Onward ns kind name = search client_rules depth 20

    pub taint_node-Onward :
        (name : Text) (taints : List Text) → Keeps (After w0) (Resources.taint_node o h name taints)
    unfolding Resources.taint_node
    taint_node-Onward name taints = search client_rules depth 20

    pub label-Onward :
        (ns kind name labels : Text) → Keeps (After w0) (Resources.label o h ns kind name labels)
    unfolding Resources.label
    label-Onward ns kind name labels = search client_rules depth 20

    pub remove_label-Onward :
        (ns kind name l : Text) → Keeps (After w0) (Resources.remove_label o h ns kind name l)
    unfolding Resources.remove_label
    remove_label-Onward ns kind name l = search (client_rules, label-Onward) depth 20

    pub delete_namespace-Onward :
        (namespaces : List Text) → Keeps (After w0) (Namespaces.delete_namespace o h namespaces)
    unfolding Namespaces.delete_namespace
    delete_namespace-Onward namespaces = search client_rules depth 20

    pub delete_test_bound_namespaces-Onward :
        Keeps (After w0) (Namespaces.delete_test_bound_namespaces o h)
    unfolding Namespaces.delete_test_bound_namespaces
    delete_test_bound_namespaces-Onward = search client_rules depth 20

    pub create_namespace-Onward :
        (namespaces : List Text) → Keeps (After w0) (Namespaces.create_namespace o h namespaces)
    unfolding Namespaces.create_namespace
    create_namespace-Onward namespaces = search (client_rules, apply_string-Onward) depth 20

    pub recreate_namespace-Onward :
        (namespaces : List Text) → Keeps (After w0) (Namespaces.recreate_namespace o h namespaces)
    unfolding Namespaces.recreate_namespace
    recreate_namespace-Onward namespaces =
        search (client_rules, delete_namespace-Onward, create_namespace-Onward) depth 20

    pub get_route_url-Onward :
        (ns name : Text) → Keeps (After w0) (Queries.get_route_url o h ns name)
    unfolding Queries.get_route_url
    get_route_url-Onward ns name = search client_rules depth 20

    pub resource_exists-Onward :
        (ns kind name : Text) → Keeps (After w0) (Queries.resource_exists o h ns kind name)
    unfolding Queries.resource_exists
    resource_exists-Onward ns kind name = search client_rules depth 20

    pub resource_by_label_exists-Onward :
        (ns kind l : Text) → Keeps (After w0) (Queries.resource_by_label_exists o h ns kind l)
    unfolding Queries.resource_by_label_exists
    resource_by_label_exists-Onward ns kind l = search client_rules depth 20

    pub any_resource_exist-Onward :
        (ns kind : Text) → Keeps (After w0) (Queries.any_resource_exist o h ns kind)
    unfolding Queries.any_resource_exist
    any_resource_exist-Onward ns kind = search client_rules depth 20

    pub get_all_resources_names-Onward :
        (ns kind l : Text) → Keeps (After w0) (Queries.get_all_resources_names o h ns kind l)
    unfolding Queries.get_all_resources_names
    get_all_resources_names-Onward ns kind l = search client_rules depth 20

  module _ (o : Oc) (fits : Fits o w0) (h : ℕ) where
    create_from_files-Onward :
        (ns kind name : Text) (files : List Text)
        → Keeps (After w0) (Resources.create_from_files o h ns kind name files)
    unfolding Resources.create_from_files
    create_from_files-Onward ns kind name files =
        with_kubeconfig-Onward o h _
          (Keeps-bind _ _
            (until_success_with_options-Onward _ (λ t. delete_resource-Onward o fits t ns _ _) h _)
            (λ _. search client_rules))
          fits

    pub create_generic_secret_from_files-Onward :
        (ns name : Text) (files : List Text)
        → Keeps (After w0) (Resources.create_generic_secret_from_files o h ns name files)
    unfolding Resources.create_generic_secret_from_files
    create_generic_secret_from_files-Onward ns name files = create_from_files-Onward ns _ name files

    pub create_config_map_from_files-Onward :
        (ns name : Text) (files : List Text)
        → Keeps (After w0) (Resources.create_config_map_from_files o h ns name files)
    unfolding Resources.create_config_map_from_files
    create_config_map_from_files-Onward ns name files = create_from_files-Onward ns _ name files

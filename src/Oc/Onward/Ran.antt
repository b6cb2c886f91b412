-- ===== src/Oc/Onward/Ran.antt =====
-- pkg/util/oc/oc_struct.go: the KUBECONFIG of the commands that an operation of a client runs.
use maistra_test_tool.World.{
  World, Action, Outcome, Invocation, returned, panicked, exited, crashed, continue, ◌>>=◌, ◌>>◌,
  pure,
}
use maistra_test_tool.World.Onward.{RanUnder, After, After-refl}
use maistra_test_tool.Env.{get_kubeconfig}
use maistra_test_tool.Oc.Kubeconfig.{Oc, with_kubeconfig, is_valid_value, set_env}
use maistra_test_tool.Oc.Kubeconfig.Restore.{within}
use maistra_test_tool.Oc.Onward.{Fits, as_set, invokef-Onward, not_set}
use maistra_test_tool.Prelude.{ℕ, ◌≡◌, true, false, refl, Option, List, ◌++◌, All, ◌∙◌, some, ap}
use maistra_test_tool.Text.{Text, lit, is_empty, teq_refl}
use maistra_test_tool.World.Keeps.{Keeps, Keeps-bind}
use maistra_test_tool.Oc.Onward.Waiting.{wait_for-Onward, wait_deployment_rollout_complete-Onward}
use maistra_test_tool.Oc.Namespaces.{recreate_namespace}
use maistra_test_tool.Oc.Waiting.{wait_smcp_ready, scale_deployment_and_wait}
use maistra_test_tool.Oc.Kubeconfig.{default_oc}
use mathlib.Core.Path.{subst}
use maistra_test_tool.Oc.Onward.Manifests.{delete_namespace-Onward, create_namespace-Onward}
use maistra_test_tool.Prelude.Int.{ℤ}

-- The commands that an action runs from a world, all with the given KUBECONFIG, are put before those that were
-- run, however it ends.
pub record RunsUnder {A : Type 0} (kubeconfig : Option Text) (w : World) (m : Action A)
    : Type 0 where
  pub newer : List Invocation
  pub trace : (m w).1.trace ≡ newer ++ w.trace
  pub under : All (RanUnder kubeconfig) newer

module _ (o : Oc) (h : ℕ) (w : World) (used : is_empty o.kubeconfig ≡ false)
    (valid : is_valid_value o.kubeconfig ≡ true)
    (old : is_valid_value (get_kubeconfig w.env) ≡ true) where
  within-Fits : Fits o (within o w)
  within-Fits = as_set valid (rw (teq_refl (lit "KUBECONFIG")) refl)

  module _ {A : Type 0} (f : Action A) where
    -- What is left to do when the function has ended.
    abbrev restoring : Outcome A → Action A
    restoring = continue (λ a. set_env h (lit "KUBECONFIG") (get_kubeconfig w.env) >> pure a)

    restoring-trace : (r : Outcome A) (w' : World) → (restoring r w').1.trace ≡ w'.trace
    unfolding set_env ◌>>=◌
    restoring-trace (returned a) w' = rw old refl
    restoring-trace (panicked p) w' = refl
    restoring-trace exited w' = refl
    restoring-trace (crashed p) w' = refl

    steps : with_kubeconfig o h f w ≡ (let (r, w') = f (within o w) in restoring r w')
    unfolding with_kubeconfig set_env ◌>>=◌
    steps = rw used (rw valid refl)

    within_value : (within o w).env (lit "KUBECONFIG") ≡ some o.kubeconfig
    within_value = rw (teq_refl (lit "KUBECONFIG")) refl

    with_kubeconfig-RunsUnder :
        Keeps (After (within o w)) f → RunsUnder (some o.kubeconfig) w (with_kubeconfig o h f)
    with_kubeconfig-RunsUnder k =
        let a = k.at (within o w) (After-refl (within o w)) in
        record {
          newer = a.newer;
          trace =
              ap (λ (r : Outcome A × World). r.1.trace) steps
              ∙ (restoring-trace (f (within o w)).0 (f (within o w)).1 ∙ a.trace);
          under = subst (λ x. All (RanUnder x) a.newer) within_value a.under;
        }

  -- With a kubeconfig of the client that is set and valid, and an old value that is valid: every command that
  -- RecreateNamespace, WaitSMCPReady or ScaleDeploymentAndWait runs, however the call ends, runs with KUBECONFIG set
  -- to that of the client, also where it is run by a function that is nested in it, by a retry, or by the client
  -- of the package.
  pub operations-RunsUnder :
      (ns name : Text) (namespaces : List Text) (replicas : ℤ)
      → RunsUnder (some o.kubeconfig) w (recreate_namespace o h namespaces)
        × RunsUnder (some o.kubeconfig) w (wait_smcp_ready o h ns name)
        × RunsUnder (some o.kubeconfig) w (scale_deployment_and_wait o h ns name replicas)
  unfolding recreate_namespace wait_smcp_ready scale_deployment_and_wait
  operations-RunsUnder ns name namespaces replicas = (
    with_kubeconfig-RunsUnder _ (
        Keeps-bind _ _ (delete_namespace-Onward o within-Fits h namespaces)
          (λ _. create_namespace-Onward o within-Fits h namespaces)),
    with_kubeconfig-RunsUnder _ (wait_for-Onward o h ns _ name _),
    with_kubeconfig-RunsUnder _ (
        Keeps-bind _ _ (invokef-Onward o within-Fits h _)
          (λ _. wait_deployment_rollout_complete-Onward default_oc (not_set refl) h ns _)),
  )

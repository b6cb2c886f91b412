-- ===== src/Oc/Kubeconfig/Restore.antt =====
-- pkg/util/oc/oc_struct.go: the variable KUBECONFIG before, during and after `withKubeconfig`.
use maistra_test_tool.Env.{get_kubeconfig}
use maistra_test_tool.World.{World, Action, Outcome, returned, ◌>>=◌}
use maistra_test_tool.World.Binds.{Unfinished, Unfinished-bind}
use maistra_test_tool.Oc.Kubeconfig.{Oc, with_kubeconfig, is_valid_value, set_env, set_var}
use maistra_test_tool.Prelude.{ℕ, ◌≡◌, true, false, refl}
use maistra_test_tool.Text.{lit, is_empty}

-- The world in which the function runs.
abbrev pub within : Oc → World → World
within o w = record w { env = set_var w.env (lit "KUBECONFIG") o.kubeconfig }

module _ {A : Type 0} (o : Oc) (h : ℕ) (f : Action A) (w : World) where
  -- With a kubeconfig that is set and valid, and an old value that is valid: the function runs with
  -- KUBECONFIG set to that of the `Oc`, and once it returns the result is passed on and KUBECONFIG is the
  -- old value (the empty text if it was not set), with the rest of the world as the function left it.
  pub with_kubeconfig-returned :
      (a : A) (w' : World)
      → is_empty o.kubeconfig ≡ false
      → is_valid_value o.kubeconfig ≡ true
      → is_valid_value (get_kubeconfig w.env) ≡ true
      → f (within o w) ≡ (returned a, w')
      → with_kubeconfig o h f w
        ≡ (returned a, record w' { env = set_var w'.env (lit "KUBECONFIG") (get_kubeconfig w.env) })
  unfolding with_kubeconfig set_env ◌>>=◌
  with_kubeconfig-returned a w' used valid old run = rw used (rw valid (rw run (rw old refl)))

  -- With a kubeconfig that is set and valid: if the function does not return, as when a command fails, the
  -- call ends in the same way and in the world that the function left, so that KUBECONFIG still has the
  -- value of the `Oc` unless the function changed it.
  pub with_kubeconfig-Unfinished :
      (r r' : Outcome A) (w' : World)
      → is_empty o.kubeconfig ≡ false
      → is_valid_value o.kubeconfig ≡ true
      → f (within o w) ≡ (r, w')
      → Unfinished r r'
      → with_kubeconfig o h f w ≡ (r', w')
  unfolding with_kubeconfig set_env ◌>>=◌
  with_kubeconfig-Unfinished r r' w' used valid run over =
      rw used (rw valid (Unfinished-bind _ f run over))

-- ===== src/Oc/Onward.antt =====
-- pkg/util/oc: the operations of a client go on under the kubeconfig of the client.
pub mod Manifests
pub mod Pods
pub mod Waiting
pub mod Scripts
pub mod Ran
use maistra_test_tool.Oc.Kubeconfig.{invoke, invokef}
use maistra_test_tool.Check.Onward.{IsOnwardCheck}
use maistra_test_tool.Shell.{execute}
use maistra_test_tool.Check.Common.{CheckFunc}
use maistra_test_tool.Helper.Onward.{onward_rules}
use maistra_test_tool.World.{World, pure, Action, ◌>>=◌}
use maistra_test_tool.World.Keeps.{Keeps-modify, Keeps, keeps_rules}
use maistra_test_tool.World.Onward.{After}
use maistra_test_tool.Env.{get_kubeconfig, getenv, os_getenv}
use maistra_test_tool.Oc.Kubeconfig.{
  Oc, with_kubeconfig, set_env, set_var, is_valid_value, invoke, invokef,
}
use maistra_test_tool.Prelude.{
  ℕ, ◌≡◌, refl, ap, sym, ◌∙◌, fun_ext, Bool, true, false, Option, some, [], if◌then◌else◌, sym,
  none, List, All,
}
use maistra_test_tool.Text.{Text, lit, is_empty, teq, teq_iff}
use maistra_test_tool.Retry.Onward.{sleep-Onward}
use maistra_test_tool.Shell.Onward.{execute-Onward, executef-Onward}

-- The client needs no change of KUBECONFIG in the world: it has no kubeconfig, or it is the one that is set.
pub data Fits (o : Oc) (w : World) : Type 0 where
  not_set : o.kubeconfig ≡ [] → Fits o w
  as_set :
      is_valid_value o.kubeconfig ≡ true → w.env (lit "KUBECONFIG") ≡ some o.kubeconfig → Fits o w

set_var-same :
    (env : Text → Option Text) (key v : Text) → env key ≡ some v → set_var env key v ≡ env
set_var-same env key v e = fun_ext λ k. each k (teq key k) refl
  where
    each : (k : Text) (b : Bool) → teq key k ≡ b → (if b then some v else env k) ≡ env k
    each k true t = sym e ∙ ap env ((teq_iff key k).0 t)
    each k false t = refl

os_getenv-some :
    (env : Text → Option Text) (key v : Text) → env key ≡ some v → os_getenv env key ≡ v
unfolding os_getenv
os_getenv-some env key v e = ap (λ x. elim x [ none ↦ [] | some u ↦ u ]) e

getenv-some :
    (env : Text → Option Text) (key v : Text)
    → is_empty v ≡ false
    → env key ≡ some v
    → getenv env key [] ≡ v
unfolding getenv
getenv-some env key v used e = let found = os_getenv-some env key v e in rw found (rw used refl)

module _ {w0 : World} where
  -- Setting KUBECONFIG to the value that it has changes nothing.
  set_env-Onward :
      (h : ℕ) (v : Text)
      → is_valid_value v ≡ true
      → w0.env (lit "KUBECONFIG") ≡ some v
      → Keeps (After w0) (set_env h (lit "KUBECONFIG") v)
  unfolding set_env
  set_env-Onward h v valid e = rw valid (
      Keeps-modify _ (λ w a. record {
        outside = a.outside;
        env =
            set_var-same w.env (lit "KUBECONFIG") v (ap (λ x. x (lit "KUBECONFIG")) a.env ∙ e)
            ∙ a.env;
        clock = a.clock;
        newer = a.newer;
        trace = a.trace;
        under = a.under;
      }))

  old_value :
      (v : Text) (w : World)
      → is_empty v ≡ false
      → After w0 w
      → w0.env (lit "KUBECONFIG") ≡ some v
      → get_kubeconfig w.env ≡ v
  unfolding get_kubeconfig
  old_value v w used a e =
      getenv-some w.env (lit "KUBECONFIG") v used (ap (λ x. x (lit "KUBECONFIG")) a.env ∙ e)

  module _ {A : Type 0} (o : Oc) (h : ℕ) (f : Action A) (k : Keeps (After w0) f) where
    around :
        {m : Action Unit}
        → Keeps (After w0) m
        → Keeps (After w0) (m >>= λ _. f >>= λ a. m >>= λ _. pure a)
    around km = search (keeps_rules, km, k) depth 20

    set-Onward :
        is_empty o.kubeconfig ≡ false
        → is_valid_value o.kubeconfig ≡ true
        → w0.env (lit "KUBECONFIG") ≡ some o.kubeconfig
        → Keeps (After w0) (with_kubeconfig o h f)
    unfolding with_kubeconfig ◌>>=◌
    set-Onward used valid e = record {
      at = λ w a. rw used (
          rw (old_value o.kubeconfig w used a e)
            ((around (set_env-Onward h o.kubeconfig valid e)).at w a));
    }

    unset-Onward : is_empty o.kubeconfig ≡ true → Keeps (After w0) (with_kubeconfig o h f)
    unfolding with_kubeconfig
    unset-Onward e = rw e k

    -- What goes on in a world that the client fits goes on in `withKubeconfig`.
    pub with_kubeconfig-Onward : Fits o w0 → Keeps (After w0) (with_kubeconfig o h f)
    with_kubeconfig-Onward (not_set e) = unset-Onward (ap is_empty e)
    with_kubeconfig-Onward (as_set valid e) = by_use (is_empty o.kubeconfig) refl
      where
        by_use : (b : Bool) → is_empty o.kubeconfig ≡ b → Keeps (After w0) (with_kubeconfig o h f)
        by_use true unused = unset-Onward unused
        by_use false used = set-Onward used valid e

-- A command that is not checked.
pub plain_execute-Onward : {w0 : World} (h : ℕ) (cmd : Text) → Keeps (After w0) (execute h cmd [])
plain_execute-Onward h cmd = execute-Onward h cmd [] tt

module _ {w0 : World} (o : Oc) (fits : Fits o w0) (h : ℕ) where
  pub invoke-Onward :
      (command : Text) (checks : List CheckFunc)
      → All (IsOnwardCheck w0) checks
      → Keeps (After w0) (invoke o h command checks)
  unfolding invoke
  invoke-Onward command checks k =
      with_kubeconfig-Onward o h _ (execute-Onward h command checks k) fits

  pub invokef-Onward : (command : Text) → Keeps (After w0) (invokef o h command)
  unfolding invokef
  invokef-Onward command = with_kubeconfig-Onward o h _ (invoke-Onward command [] tt) fits

pub ruleset client_rules = (
  onward_rules, plain_execute-Onward, executef-Onward, invokef-Onward, with_kubeconfig-Onward,
  sleep-Onward,
)

-- ===== src/Oc/Kubeconfig.antt =====
-- pkg/util/oc/oc_struct.go: `withKubeconfig` and the two ways to invoke a command under it.
pub mod Restore
use maistra_test_tool.World.{World, Action, gets, modify, pure, returned, ◌>>=◌, ◌>>◌}
use maistra_test_tool.Env.{get_kubeconfig}
use maistra_test_tool.Helper.{fatal}
use maistra_test_tool.Shell.{execute}
use maistra_test_tool.Check.Common.{CheckFunc}
use maistra_test_tool.Prelude.{
  ℕ, Bool, true, not, ◌&&◌, Option, some, List, [], ◌∷◌, ◌++◌, ◌==◌, if◌then◌else◌,
}
use maistra_test_tool.Text.{Text, lit, teq, is_empty}

pub record Oc : Type 0 where
  pub kubeconfig : Text

abbrev pub default_oc : Oc
default_oc = record { kubeconfig = [] }

-- `NewOC` and `WithKubeconfig`
unfoldable pub with_location : Text → Oc
with_location location = record { kubeconfig = location }

-- Whether a value of an environment variable is valid: it holds no zero byte.
unfoldable pub is_valid_value : Text → Bool
is_valid_value [] = true
is_valid_value (c ∷ s) = not (c == 0) && is_valid_value s

abbrev pub set_var : (Text → Option Text) → Text → Text → Text → Option Text
set_var env key value k = if teq key k then some value else env k

-- `setEnv`, for a valid key
unfoldable pub set_env : ℕ → Text → Text → Action Unit
unfolding is_valid_value
set_env h key value =
    if is_valid_value value
    then modify (λ w. record w { env = set_var w.env key value })
    else fatal h (lit "could not set " ++ (key ++ lit ": setenv: invalid argument"))

-- `withKubeconfig`: the old value is set again only if the function returns. What the function assigns
-- to a variable of the caller is its result here.
unfoldable pub with_kubeconfig : {A : Type 0} → Oc → ℕ → Action A → Action A
unfolding set_env
with_kubeconfig o h f = if is_empty o.kubeconfig then f else do
  old_value ← gets λ w. get_kubeconfig w.env
  set_env h (lit "KUBECONFIG") o.kubeconfig
  a ← f
  set_env h (lit "KUBECONFIG") old_value
  pure a

-- `Invoke`
unfoldable pub invoke : Oc → ℕ → Text → List CheckFunc → Action Text
unfolding with_kubeconfig
invoke o h command checks = with_kubeconfig o h (execute h command checks)

-- `Invokef`, with the command formatted
unfoldable pub invokef : Oc → ℕ → Text → Action Text
unfolding with_kubeconfig invoke
invokef o h command = with_kubeconfig o h (invoke o h command [])

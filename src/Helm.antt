-- ===== src/Helm.antt =====
-- pkg/util/helm/helm.go: releases and repositories of Helm.
use maistra_test_tool.World.{Action, when, ◌>>◌, pure}
use maistra_test_tool.Helper.{fatal}
use maistra_test_tool.Shell.{execute, executef}
use maistra_test_tool.Prelude.{ℕ, List, [], ◌∷◌, ◌++◌, if◌then◌else◌}
use maistra_test_tool.Text.{Text, lit, is_empty}
use maistra_test_tool.Text.Format.{sprintf}

-- `cmd`
pub record Cmd : Type 0 where
  pub chart : Text
  pub namespace : Text
  pub release : Text
  pub set_values : List Text
  pub values_std_in : Text
  pub version : Text

-- `Namespace`
unfoldable pub in_namespace : Text → Cmd
in_namespace ns = record {
  chart = [];
  namespace = ns;
  release = [];
  set_values = [];
  values_std_in = [];
  version = [];
}

module _ (c : Cmd) where
  -- `Release`
  unfoldable pub with_release : Text → Cmd
  with_release name = record c { release = name }

  -- `Chart`
  unfoldable pub with_chart : Text → Cmd
  with_chart chart = record c { chart = chart }

  -- `Version`
  unfoldable pub with_version : Text → Cmd
  with_version ver = record c { version = ver }

  -- `Set`
  unfoldable pub set : Text → Cmd
  set key_value = record c { set_values = c.set_values ++ key_value ∷ [] }

  -- `ValuesString`
  unfoldable pub values_string : Text → Cmd
  values_string values = record c { values_std_in = values }

  -- `if c.field == "" { t.Fatalf(msg) }`
  abbrev required : ℕ → Text → Text → Action Unit
  required h field msg = when (is_empty field) (fatal h msg)

  set_flags : List Text → Text
  set_flags [] = []
  set_flags (val ∷ vals) = sprintf " --set %s" (val ∷ []) ++ set_flags vals

  -- The command of `Install`.
  unfoldable pub install_command : Text
  unfolding set_flags
  install_command =
      sprintf "helm install %s %s -n %s" (c.release ∷ c.chart ∷ c.namespace ∷ [])
      ++ ((if is_empty c.version then [] else sprintf " --version %s" (c.version ∷ []))
          ++ (set_flags c.set_values
              ++ (if is_empty c.values_std_in
                  then []
                  else sprintf " -f - <<EOF\n%s\nEOF" (c.values_std_in ∷ []))))

  -- `Install`
  unfoldable pub install : ℕ → Action Unit
  unfolding install_command
  install h = do
    required h c.chart (lit "chart must be specified to install helm release")
    required h c.release (lit "release name must be specified to install helm release")
    required h c.namespace (lit "namespace must be specified to install helm release")
    execute h install_command []
    pure tt

  -- `Uninstall`
  unfoldable pub uninstall : ℕ → Action Unit
  uninstall h = do
    required h c.release (lit "release name must be specified to uninstall helm release")
    required h c.namespace (lit "namespace must be specified to uninstall helm release")
    executef h (sprintf "helm uninstall %s -n %s" (c.release ∷ c.namespace ∷ []))
    pure tt

-- `repo`
pub record Repo : Type 0 where
  pub url : Text

-- `Add`
unfoldable pub add_repo : Repo → ℕ → Text → Action Unit
add_repo r h name = do
  when (is_empty name) (fatal h (lit "repo name must be specified"))
  executef h (sprintf "helm repo add %s %s" (name ∷ r.url ∷ []))
  pure tt

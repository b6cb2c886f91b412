-- ===== src/Oc/Templates.antt =====
-- pkg/util/oc/oc_struct.go: the operations on manifests that are made from a template.
use maistra_test_tool.World.{Action, pure, gets, ◌>>=◌, ◌>>◌}
use maistra_test_tool.Helper.{fatal}
use maistra_test_tool.Template.{Engine, run}
use maistra_test_tool.Oc.Kubeconfig.{Oc}
use maistra_test_tool.Oc.Retrying.{retry_function, apply_string}
use maistra_test_tool.Oc.Resources.{delete_from_string}
use maistra_test_tool.Prelude.{ℕ, Option, none, some, [], ◌∷◌}
use maistra_test_tool.Text.{Text}
use maistra_test_tool.Text.Format.{sprintf}

unfoldable pub file_text : ℕ → Text → Option Text → Action Text
file_text h file (some text) = pure text
file_text h file none = do
  fatal h (
      sprintf "could not read template file %s: open %s: no such file or directory"
        (file ∷ file ∷ []))
  pure []

module _ {V : Type 0} (engine : Engine V) (o : Oc) (h : ℕ) where
  -- `ApplyTemplateString`
  unfoldable pub apply_template_string : Text → Text → V → Action Unit
  apply_template_string ns tmpl input =
      retry_function o h (do yaml ← run engine h tmpl input; apply_string o h ns (yaml ∷ []))

  -- `ApplyTemplateFile`; the one error of reading a file that is modelled is that there is none.
  unfoldable pub apply_template_file : Text → Text → V → Action Unit
  unfolding apply_template_string file_text
  apply_template_file ns tmpl_file input = retry_function o h (do
    found ← gets λ w. w.outside.file tmpl_file
    tmpl ← file_text h tmpl_file found
    apply_template_string ns tmpl input)

  -- `DeleteFromTemplate`
  unfoldable pub delete_from_template : Text → Text → V → Action Unit
  delete_from_template ns tmpl input = do
    yaml ← run engine h tmpl input
    delete_from_string o h ns (yaml ∷ [])

-- ===== src/Template.antt =====
-- pkg/util/template/template.go: running a template. The engine, text/template with the functions of
-- `TemplateFuncMap`, is a parameter.
use maistra_test_tool.Env.{get_arch}
use maistra_test_tool.World.{◌>>=◌, ◌>>◌, Action, pure, ◌>>◌, panic, gets, string}
use maistra_test_tool.Helper.{fatal}
use maistra_test_tool.Prelude.{
  ℕ, ◌+◌, Option, none, some, List, [], ◌∷◌, ◌++◌, ◌⊎◌, inl, inr, ◌==◌, if◌then◌else◌, ltb,
}
use maistra_test_tool.Text.{Text, lit, split, teq}
use maistra_test_tool.Text.Decimal.{decimal}
use maistra_test_tool.Text.Format.{sprintf}

-- `parse` gives the error of a template, if it has one; `execute` the error or the text that a
-- template makes of a value.
pub record Engine (V : Type 0) : Type 0 where
  pub parse : Text → Option Text
  pub execute : Text → V → Text ⊎ Text

-- bufio.ScanLines drops a carriage return at the end of a line.
unfoldable pub drop_cr : Text → Text
drop_cr [] = []
drop_cr (c ∷ []) = if c == b'\r' then [] else c ∷ []
drop_cr (c ∷ d ∷ s) = c ∷ drop_cr (d ∷ s)

-- There is no line after the last line break.
unfoldable pub scanned : List Text → List Text
unfolding drop_cr
scanned [] = []
scanned ([] ∷ []) = []
scanned (line ∷ lines) = drop_cr line ∷ scanned lines

-- `%3d`
unfoldable pub pad_3 : ℕ → Text
pad_3 n = (if ltb n 10 then lit "  " else if ltb n 100 then lit " " else []) ++ decimal n

unfoldable pub numbered : ℕ → List Text → Text
unfolding pad_3
numbered i [] = []
numbered i (line ∷ lines) = sprintf "%s: %s\n" (pad_3 i ∷ line ∷ []) ++ numbered (i + 1) lines

-- `addLineNumbers`, for lines that the scanner takes, which are shorter than 64 KB
unfoldable pub add_line_numbers : Text → Text
unfolding scanned numbered
add_line_numbers str = numbered 1 (scanned (split b'\n' str))

unfoldable pub check_parsed : ℕ → Text → Option Text → Action Unit
unfolding add_line_numbers
check_parsed h tmpl none = pure tt
check_parsed h tmpl (some err) =
    fatal h (sprintf "could not execute template: %v:\n%s" (err ∷ add_line_numbers tmpl ∷ []))

unfoldable pub executed : ℕ → Text ⊎ Text → Action Text
executed h (inl err) = do fatal h err; pure []
executed h (inr text) = pure text

-- `Run`
unfoldable pub run : {V : Type 0} → Engine V → ℕ → Text → V → Action Text
unfolding check_parsed executed
run engine h tmpl vars = do
  check_parsed h tmpl (engine.parse tmpl)
  executed h (engine.execute tmpl vars)

unfoldable pub find : {A : Type 0} → List (Text × A) → Text → Option A
find [] key = none
find ((k, v) ∷ rest) key = let later = find rest key in if teq k key then some v else later

-- `panic(fmt.Sprintf(...))`, where the value is not found
unfoldable pub or_panic : {A : Type 0} → Text → Option A → Action A
or_panic msg (some a) = pure a
or_panic msg none = panic (string msg)

-- `image`, with the map of the file images.yaml and the name of that file
unfoldable pub image : List (Text × List (Text × Text)) → Text → Text → Action Text
unfolding find or_panic
image image_map yaml_file name = do
  quoted ← gets λ w. w.outside.quote name
  is ←
      or_panic (sprintf "could not find image %s in %s" (quoted ∷ yaml_file ∷ []))
        (find image_map name)
  arch ← gets λ w. get_arch w.env
  quoted_arch ← gets λ w. w.outside.quote arch
  or_panic
      (sprintf "could not find image %s for architecture %s in %s"
        (quoted ∷ quoted_arch ∷ yaml_file ∷ []))
      (find is arch)

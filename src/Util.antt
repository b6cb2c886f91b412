-- ===== src/Util.antt =====
-- pkg/util: comparison with expected files, membership, and the small text helpers of pkg/util/testUtil.go,
-- pkg/util/shell and pkg/util/template. An error is the text of it; `none` is no error.
use maistra_test_tool.World.{Action, string, pure, panic, gets, modify, ◌>>=◌, ◌>>◌}
use maistra_test_tool.Env.{get_root_dir}
use maistra_test_tool.Prelude.{
  ℕ, zero, suc, ◌+◌, Bool, false, ◌||◌, Option, none, some, List, [], ◌∷◌, ◌++◌, map, if◌then◌else◌,
}
use maistra_test_tool.Text.{Text, lit, teq, is_empty, has_suffix, count, split, join, trim_space}
use maistra_test_tool.Text.Decimal.{decimal}

-- `Compare`
unfoldable pub compare_texts : (Text → Text → Text) → Text → Text → Option Text
compare_texts diff out model =
    let data' = trim_space out in
    let expected = trim_space model in
    if teq data' expected then none else some (diff expected data')

-- `CompareToFile`
unfoldable pub compare_to_file : Text → Text → Action (Option Text)
unfolding compare_texts
compare_to_file out model_file = gets λ w. elim (w.outside.file model_file) [
  | none ↦ some (lit "open " ++ (model_file ++ lit ": no such file or directory"))
  | some model ↦ compare_texts w.outside.diff out model
]

write_diff_body : Text → Option Text → Action (Option Text)
write_diff_body body none = pure none
write_diff_body body (some err) = do modify λ w. record w { diff_body = some body }; pure (some err)

-- What this panic carries is not modelled in full.
or_panic : Option Text → Action Text
or_panic none = panic (string (lit "expected working dir to be a subdir of .../pkg/tests/"))
or_panic (some root) = pure root

-- `CompareHTTPResponse`; `filepath.Join` of a clean root and a plain file name
unfoldable pub compare_http_response : Text → Text → Action (Option Text)
unfolding write_diff_body compare_to_file or_panic
compare_http_response body model_file = do
  root ← gets λ w. get_root_dir w.outside.working_dir
  dir ← or_panic root
  err ← compare_to_file body (dir ++ (lit "/testdata/resources/html/" ++ model_file))
  write_diff_body body err

-- `Contains`, over the equality of the type
unfoldable pub contains_elem {ℓ} : {A : Type ℓ} → (A → A → Bool) → List A → A → Bool
contains_elem eq [] e = false
contains_elem eq (v ∷ s) e = eq v e || contains_elem eq s e

-- `GenerateStrings`, from the index `i` on
generate_from : Text → ℕ → ℕ → List Text
generate_from prefix i zero = []
generate_from prefix i (suc n) = (prefix ++ decimal i) ∷ generate_from prefix (i + 1) n

unfoldable pub generate_strings : Text → ℕ → List Text
unfolding generate_from
generate_strings prefix count = generate_from prefix 0 count

-- `appendNewLine` of pkg/util/shell
unfoldable pub append_new_line : Text → Text
append_new_line str =
    if is_empty str then [] else if has_suffix str (lit "\n") then str else str ++ lit "\n"

-- `until` of pkg/util/template
until_from : ℕ → ℕ → List ℕ
until_from i zero = []
until_from i (suc n) = i ∷ until_from (i + 1) n

unfoldable pub until : ℕ → List ℕ
unfolding until_from
until n = until_from 0 n

spaces : ℕ → Text
spaces zero = []
spaces (suc n) = b' ' ∷ spaces n

-- `indent` of pkg/util/template: all lines but the first one are moved to the right.
unfoldable pub indent_lines : ℕ → Text → Text
unfolding spaces
indent_lines n source = join (lit "\n") (indent_rest (split 10 source))
  where
    indent_rest : List Text → List Text
    indent_rest [] = []
    indent_rest (line ∷ lines) = line ∷ map (λ l. spaces n ++ l) lines

-- `NewNonce`, given the random number
unfoldable pub new_nonce : ℕ → Text
new_nonce random = lit "nonce-" ++ decimal random

-- `containsSessionCookie`, of the names of the cookies
unfoldable pub contains_session_cookie : List Text → Bool
contains_session_cookie [] = false
contains_session_cookie (c ∷ cookies) = teq c (lit "session") || contains_session_cookie cookies

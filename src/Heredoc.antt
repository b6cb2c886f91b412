-- ===== src/Heredoc.antt =====
-- pkg/util/heredoc/heredoc.go: documents that are indented in the source.
pub mod Dedent
use maistra_test_tool.Prelude.{
  ℕ, ◌+◌, ◌-◌, ◌^◌, Bool, ◌||◌, List, [], ◌∷◌, ◌==◌, ltb, if◌then◌else◌, length, drop,
}
use maistra_test_tool.Text.{Text, is_empty, split, join}

abbrev pub is_blank : ℕ → Bool
is_blank c = c == b' ' || c == b'\t'

-- The inner loop of `getBaseIndent`
unfoldable pub indent_of : Text → ℕ
indent_of [] = 0
indent_of (c ∷ line) = let rest = indent_of line in if is_blank c then rest + 1 else 0

abbrev pub lower : ℕ → ℕ → ℕ
lower indent base = if ltb indent base then indent else base

-- The loop of `getBaseIndent`, with the base so far
unfoldable pub smallest_indent : List Text → ℕ → ℕ
unfolding indent_of
smallest_indent [] base = base
smallest_indent (line ∷ lines) base = smallest_indent lines (lower (indent_of line) base)

abbrev pub max_int : ℕ
max_int = 2 ^ 63 - 1

-- `getBaseIndent`
unfoldable pub get_base_indent : List Text → ℕ
unfolding smallest_indent
get_base_indent lines = smallest_indent lines max_int

-- `removeBaseIndent`
unfoldable pub remove_base_indent : List Text → ℕ → List Text
remove_base_indent [] base = []
remove_base_indent (line ∷ lines) base =
    (if ltb base (length line) then drop base line else line) ∷ remove_base_indent lines base

-- A first line that is empty is left out.
unfoldable pub without_first : List Text → List Text
without_first [] = []
without_first (line ∷ lines) = if is_empty line then lines else line ∷ lines

-- `Doc`; `Docf` formats its text first.
unfoldable pub doc : Text → Text
unfolding get_base_indent remove_base_indent without_first
doc indented =
    let lines = without_first (split b'\n' indented) in
    join (b'\n' ∷ []) (remove_base_indent lines (get_base_indent lines))

-- ===== src/Text/Format.antt =====
-- fmt.Sprintf, as far as the tool uses it: every verb is one of `%s`, `%d` and `%v` and takes the next
-- argument, which is given as it is printed; `%%` prints one percent sign.
use maistra_test_tool.Prelude.{
  ℕ, true, false, Bool, List, [], ◌∷◌, ◌++◌, ◌==◌, if◌then◌else◌, String,
}
use maistra_test_tool.Text.{Text, lit, join}

-- The text for a verb, and the arguments that are left.
verb_text : ℕ → List Text → Text
verb_text c [] = lit "%!" ++ (c ∷ lit "(MISSING)")
verb_text c (a ∷ args) = a

args_left : List Text → List Text
args_left [] = []
args_left (a ∷ args) = args

-- The flag is set after a `%`.
sprintf_at : Bool → Text → List Text → Text
unfolding verb_text args_left
sprintf_at b [] args = []
sprintf_at false (c ∷ s) args =
    let after = sprintf_at true s args in
    let rest = sprintf_at false s args in if c == b'%' then after else c ∷ rest
sprintf_at true (c ∷ s) args =
    let same_args = sprintf_at false s args in
    let next_args = sprintf_at false s (args_left args) in
    if c == b'%' then c ∷ same_args else verb_text c args ++ next_args

-- Arguments beyond the verbs do not occur.
unfoldable pub sprintf : String → List Text → Text
unfolding sprintf_at
sprintf format args = sprintf_at false (lit format) args

-- How `%v` prints a slice of strings.
unfoldable pub list_text : List Text → Text
list_text texts = b'[' ∷ (join (lit " ") texts ++ lit "]")

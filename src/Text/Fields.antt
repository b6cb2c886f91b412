-- ===== src/Text/Fields.antt =====
-- strings.Fields: the parts of a text between white space, as far as `Text` knows it.
use maistra_test_tool.Text.{Text, is_empty, is_space}
use maistra_test_tool.Prelude.{List, [], ◌∷◌, if◌then◌else◌}

-- The first part, which may be empty, and the parts behind it.
unfoldable pub spaced : Text → Text × List Text
spaced [] = ([], [])
spaced (c ∷ s) =
    let (p, ps) = spaced s in
    if is_space c then ([], if is_empty p then ps else p ∷ ps) else (c ∷ p, ps)

unfoldable pub fields : Text → List Text
unfolding spaced
fields s = let (p, ps) = spaced s in if is_empty p then ps else p ∷ ps

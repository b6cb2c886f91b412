-- ===== src/Env/RootDir.antt =====
-- pkg/util/env/env.go: `GetRootDir` and the place of /pkg/tests/ in the working directory.
use maistra_test_tool.Env.{before_last, marker, get_root_dir}
use maistra_test_tool.Prelude.{
  ◌≡◌, refl, false, true, Bool-cases, inl, inr, none, some, ap, append-nil, ◌∙◌, Bool, ◌||◌, [],
  ◌∷◌, ◌++◌, arith,
}
use maistra_test_tool.Text.{Text, lit, has_prefix, contains}
use maistra_test_tool.Text.Search.{Occurs, contains_iff}

or_false : (a b : Bool) → (a || b) ≡ false → (a ≡ false) × (b ≡ false)
or_false false b e = (refl, e)
or_false true b e = ground (arith, e)

before_last-none : (sub s : Text) → contains s sub ≡ false → before_last sub s ≡ none
unfolding before_last contains
before_last-none sub [] h = rw h refl
before_last-none sub (c ∷ s) h =
    let (gone, later_gone) = or_false (has_prefix (c ∷ s) sub) (contains s sub) h in
    rw (before_last-none sub s later_gone) (rw gone refl)

absent : (s sub : Text) → ¬ Occurs sub s → contains s sub ≡ false
absent s sub never = elim (Bool-cases (contains s sub)) [
  | inl here ↦ absurd (never ((contains_iff s sub).0 here))
  | inr gone ↦ gone
]

before_last-append :
    (sub root x p : Text)
    → before_last sub x ≡ some p
    → before_last sub (root ++ x) ≡ some (root ++ p)
unfolding before_last
before_last-append sub [] x p e = e
before_last-append sub (c ∷ root) x p e = rw (before_last-append sub root x p e) refl

-- The text behind the first character of the marker and of what follows.
abbrev pub later : Text → Text
later rest = lit "pkg/tests/" ++ rest

at_marker :
    (rest : Text) → ¬ Occurs marker (later rest) → before_last marker (marker ++ rest) ≡ some []
unfolding before_last lit has_prefix
at_marker rest once =
    rw (before_last-none marker (later rest) (absent (later rest) marker once)) refl

-- `GetRootDir` in a directory root/pkg/tests/rest in which /pkg/tests/ does not occur again is the root; and
-- in a directory in which it does not occur it panics.
pub get_root_dir-marker :
    (root rest other : Text)
    → ¬ Occurs marker (later rest)
    → ¬ Occurs marker other
    → (get_root_dir (some (root ++ (marker ++ rest))) ≡ some root)
      × (get_root_dir (some other) ≡ none)
unfolding get_root_dir
get_root_dir-marker root rest other once never = (
  before_last-append marker root (marker ++ rest) [] (at_marker rest once)
      ∙ ap some (append-nil root),
  before_last-none marker other (absent other marker never),
)

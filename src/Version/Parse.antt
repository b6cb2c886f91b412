-- ===== src/Version/Parse.antt =====
-- pkg/util/version/version.go: `ParseVersion` on texts that `String` writes.
use maistra_test_tool.Version.{Version, parse_version, strip_v, from_parts, to_text}
use maistra_test_tool.Prelude.{
  suc, ◌≡◌, refl, ap, ◌∙◌, ◌≢◌, some, List, [], ◌∷◌, ◌++◌, append_assoc, append-nil, arith, All,
}
use maistra_test_tool.Text.{Text, lit, split}
use maistra_test_tool.Prelude.Int.{ℤ, pos, negsuc}
use maistra_test_tool.Text.Parts.{Lacks, split-Lacks, split-append}
use maistra_test_tool.Text.Decimal.{
  decimal, itoa, IsInt, IsDigit, decimal-IsDigit, atoi-itoa, decimal-ne-nil,
}

-- The end of a version text: nothing, or a dot and anything.
pub data Patch : Text → Type 0 where
  none_given : Patch []
  given : (rest : Text) → Patch (b'.' ∷ rest)

digits-Lacks : (s : Text) → All IsDigit s → Lacks b'.' s
digits-Lacks [] h = tt
digits-Lacks (c ∷ s) h = (ground arith, digits-Lacks s h.1)

itoa-Lacks : (i : ℤ) → Lacks b'.' (itoa i)
unfolding itoa
itoa-Lacks (pos n) = digits-Lacks (decimal n) (decimal-IsDigit n)
itoa-Lacks (negsuc n) = (ground arith, digits-Lacks (decimal (suc n)) (decimal-IsDigit (suc n)))

first_part :
    (p s : Text) → Lacks b'.' p → Patch s → (ps : List Text) × (split b'.' (p ++ s) ≡ p ∷ ps)
first_part p s h none_given = ([], ap (split b'.') (append-nil p) ∙ split-Lacks b'.' p h)
first_part p s h (given rest) = (split b'.' rest, split-append b'.' p rest h)

-- The two numbers of a version, before any patch.
abbrev numbers : Version → Text → Text
numbers v patch = itoa v.major ++ b'.' ∷ (itoa v.minor ++ patch)

from_parts-numbers :
    (v : Version) (patch : Text)
    → IsInt v.major
    → IsInt v.minor
    → Patch patch
    → from_parts (split b'.' (numbers v patch)) ≡ some v
unfolding from_parts
from_parts-numbers v patch hm hn p =
    let (ps, e) = first_part (itoa v.minor) patch (itoa-Lacks v.minor) p in
    rw (
      split-append b'.' (itoa v.major) _ (itoa-Lacks v.major),
      e,
      atoi-itoa v.major hm,
      atoi-itoa v.minor hn,
    )

digits-strip_v : (s t : Text) → s ≢ [] → All IsDigit s → strip_v (s ++ t) ≡ s ++ t
unfolding strip_v
digits-strip_v [] t ne h = absurd (ne refl)
digits-strip_v (c ∷ s) t ne h = ground arith

-- A number does not begin with a v.
strip_v-itoa : (i : ℤ) (t : Text) → strip_v (itoa i ++ t) ≡ itoa i ++ t
unfolding itoa
strip_v-itoa (pos n) t = digits-strip_v (decimal n) t (decimal-ne-nil n) (decimal-IsDigit n)
strip_v-itoa (negsuc n) t = unfold strip_v in refl

to_text-numbers : (v : Version) (patch : Text) → to_text v ++ patch ≡ b'v' ∷ numbers v patch
unfolding to_text lit
to_text-numbers v patch = simp append_assoc

-- `ParseVersion` reads the major and the minor number of every version whose numbers are ints, with or
-- without the v in front, as `String` prints it or with a patch number or anything else behind a further dot.
pub parse_version-to_text :
    (v : Version) (patch : Text)
    → IsInt v.major
    → IsInt v.minor
    → Patch patch
    → (parse_version (to_text v ++ patch) ≡ some v)
      × (parse_version (itoa v.major ++ b'.' ∷ (itoa v.minor ++ patch)) ≡ some v)
unfolding parse_version
parse_version-to_text v patch hm hn p = (
  rw to_text-numbers (from_parts-numbers v patch hm hn p),
  rw strip_v-itoa (from_parts-numbers v patch hm hn p),
)

-- ===== src/Version.antt =====
-- pkg/util/version: versions of the control plane, the operator and the cluster. Only the major and
-- the minor number are kept.
pub mod Order
pub mod Parse
pub mod Known
use maistra_test_tool.Prelude.{
  Bool, ◌||◌, ◌&&◌, not, ◌∷◌, Option, List, if◌then◌else◌, ◌++◌, ◌==◌, none, true, false, some, [],
}
use maistra_test_tool.Prelude.Int.{ℤ, ltb_ℤ, eqb_ℤ}
use maistra_test_tool.Text.{Text, lit, split}
use maistra_test_tool.Text.Decimal.{atoi, itoa}

pub record Version : Type 0 where
  pub major : ℤ
  pub minor : ℤ

strip_v : Text → Text
strip_v [] = []
strip_v (c ∷ s) = if c == b'v' then s else c ∷ s

major_minor : Option ℤ → Option ℤ → Option Version
major_minor (some a) (some b) = some (record { major = a; minor = b })
major_minor _ _ = none

from_parts : List Text → Option Version
unfolding major_minor
from_parts (a ∷ b ∷ rest) = major_minor (atoi a) (atoi b)
from_parts _ = none

-- `ParseVersion`; `none` is a panic.
unfoldable pub parse_version : Text → Option Version
unfolding strip_v from_parts
parse_version version = from_parts (split b'.' (strip_v version))

unfoldable pub equals : Version → Version → Bool
equals this that = eqb_ℤ this.major that.major && eqb_ℤ this.minor that.minor

unfoldable pub less_than : Version → Version → Bool
less_than this that =
    if ltb_ℤ this.major that.major
    then true
    else if ltb_ℤ that.major this.major
    then false
    else ltb_ℤ this.minor that.minor

unfoldable pub less_than_or_equal : Version → Version → Bool
unfolding less_than equals
less_than_or_equal this that = less_than this that || equals this that

unfoldable pub greater_than : Version → Version → Bool
unfolding less_than_or_equal
greater_than this that = not (less_than_or_equal this that)

unfoldable pub greater_than_or_equal : Version → Version → Bool
unfolding less_than
greater_than_or_equal this that = not (less_than this that)

-- `Version.String`
unfoldable pub to_text : Version → Text
to_text this = lit "v" ++ (itoa this.major ++ (lit "." ++ itoa this.minor))

-- ===== src/Version/Order.antt =====
-- pkg/util/version/version.go: the five comparisons and the lexicographic order on (major, minor).
use maistra_test_tool.Version.{
  Version, equals, less_than, less_than_or_equal, greater_than, greater_than_or_equal,
}
use Prim.Native.Nat.{suc}
use maistra_test_tool.Prelude.{◌+◌, ◌≤◌, ◌≡◌, ◌↔◌, ◌⊎◌, true, arith}
use maistra_test_tool.Prelude.Int.{pos_part, neg_part, eq_of_parts}

-- The lexicographic order.
abbrev pub Precedes : Version → Version → Type 0
Precedes a b =
    (suc (pos_part a.major + neg_part b.major) ≤ pos_part b.major + neg_part a.major)
    ⊎ ((a.major ≡ b.major)
        × (suc (pos_part a.minor + neg_part b.minor) ≤ pos_part b.minor + neg_part a.minor))

equals_iff : (a b : Version) → (equals a b ≡ true) ↔ (a ≡ b)
unfolding equals
equals_iff a b = ground (arith, eq_of_parts a.major b.major, eq_of_parts a.minor b.minor)

less_than_iff : (a b : Version) → (less_than a b ≡ true) ↔ Precedes a b
unfolding less_than
less_than_iff a b = ground (arith, eq_of_parts a.major b.major)

less_than_or_equal_iff :
    (a b : Version) → (less_than_or_equal a b ≡ true) ↔ (Precedes a b ⊎ (a ≡ b))
unfolding less_than_or_equal less_than
less_than_or_equal_iff a b =
    ground (arith, equals_iff a b, eq_of_parts a.major b.major, eq_of_parts a.minor b.minor)

greater_than_iff : (a b : Version) → (greater_than a b ≡ true) ↔ Precedes b a
unfolding greater_than less_than
greater_than_iff a b =
    ground (arith, equals_iff a b, eq_of_parts a.major b.major, eq_of_parts a.minor b.minor)

greater_than_or_equal_iff :
    (a b : Version) → (greater_than_or_equal a b ≡ true) ↔ (Precedes b a ⊎ (a ≡ b))
unfolding greater_than_or_equal less_than
greater_than_or_equal_iff a b =
    ground (arith, eq_of_parts a.major b.major, eq_of_parts a.minor b.minor)

-- Each comparison of two versions says what the lexicographic order of the major and minor numbers
-- says: `Equals` equality, `LessThan` that the first precedes, `LessThanOrEqual` that it precedes or is
-- equal, `GreaterThan` that the second precedes, `GreaterThanOrEqual` that the second precedes or is equal.
pub comparisons_lexicographic :
    (a b : Version)
    → ((equals a b ≡ true) ↔ (a ≡ b))
      × ((less_than a b ≡ true) ↔ Precedes a b)
      × ((less_than_or_equal a b ≡ true) ↔ (Precedes a b ⊎ (a ≡ b)))
      × ((greater_than a b ≡ true) ↔ Precedes b a)
      × ((greater_than_or_equal a b ≡ true) ↔ (Precedes b a ⊎ (a ≡ b)))
comparisons_lexicographic a b = (
  equals_iff a b,
  less_than_iff a b,
  less_than_or_equal_iff a b,
  greater_than_iff a b,
  greater_than_or_equal_iff a b,
)

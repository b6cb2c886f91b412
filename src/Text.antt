-- ===== src/Text.antt =====
-- Text as the list of its bytes, with the functions of Go's `strings` and `strconv` that the tool
-- calls. Separators and replaced texts are single bytes, as in every call. `trim_space` knows the
-- ASCII white space only, and `count` of an empty text counts the bytes that begin a character.
pub mod Search
pub mod Parts
pub mod Decimal
pub mod Format
pub mod Fields
use Prim.Native.Char.{code}
use maistra_test_tool.Prelude.{
  ℕ, zero, suc, ◌+◌, ◌-◌, String, Bool, true, false, ◌&&◌, ◌||◌, not, List, [], ◌∷◌, ◌++◌, ltb, leb,
  ◌==◌, if◌then◌else◌, ◌≡◌, refl, ◌↔◌, arith, length,
}

abbrev pub Text : Type 0
Text = List ℕ

codes : String → Text
codes String.[] = []
codes (String.◌∷◌ c s) = code c ∷ codes s

-- A literal of the source. It stays folded in proofs.
unfoldable pub lit : String → Text
unfolding codes
lit s = codes s

unfoldable pub teq : Text → Text → Bool
teq [] [] = true
teq [] (_ ∷ _) = false
teq (_ ∷ _) [] = false
teq (a ∷ s) (b ∷ t) = (a == b) && teq s t

pub teq_iff : (s t : Text) → (teq s t ≡ true) ↔ (s ≡ t)
unfolding teq
teq_iff [] [] = ground arith
teq_iff [] (b ∷ t) = ground arith
teq_iff (a ∷ s) [] = ground arith
teq_iff (a ∷ s) (b ∷ t) = ground (arith, teq_iff s t)

pub teq_refl : (s : Text) → teq s s ≡ true
teq_refl s = (teq_iff s s).1 refl

abbrev pub is_empty : Text → Bool
is_empty [] = true
is_empty (_ ∷ _) = false

unfoldable pub has_prefix : Text → Text → Bool
has_prefix s [] = true
has_prefix [] (_ ∷ _) = false
has_prefix (c ∷ s) (d ∷ p) = (c == d) && has_prefix s p

unfoldable pub contains : Text → Text → Bool
unfolding has_prefix
contains [] p = has_prefix [] p
contains (c ∷ s) p = has_prefix (c ∷ s) p || contains s p

unfoldable pub has_suffix : Text → Text → Bool
unfolding teq
has_suffix [] p = teq [] p
has_suffix (c ∷ s) p = teq (c ∷ s) p || has_suffix s p

-- The bytes that begin a character.
characters : Text → ℕ
characters [] = 0
characters (c ∷ s) = (if leb 128 c && ltb c 192 then 0 else 1) + characters s

-- The occurrences that do not overlap; the number is how many bytes of the last one are left.
occurrences : Text → Text → ℕ → ℕ
occurrences p [] _ = 0
occurrences p (c ∷ s) (suc k) = occurrences p s k
occurrences p (c ∷ s) zero =
    let found = 1 + occurrences p s (length p - 1) in
    let other = occurrences p s 0 in if has_prefix (c ∷ s) p then found else other

unfoldable pub count : Text → Text → ℕ
unfolding characters occurrences has_prefix
count s p = if is_empty p then characters s + 1 else occurrences p s 0

cons_head : ℕ → List Text → List Text
cons_head c [] = (c ∷ []) ∷ []
cons_head c (p ∷ ps) = (c ∷ p) ∷ ps

unfoldable pub split : ℕ → Text → List Text
unfolding cons_head
split sep [] = [] ∷ []
split sep (c ∷ s) = let rest = split sep s in if c == sep then [] ∷ rest else cons_head c rest

-- `strings.SplitN(s, sep, 2)`, as its first part and its second one, if there is one.
unfoldable pub cut : ℕ → Text → Text × List Text
cut sep [] = ([], [])
cut sep (c ∷ s) = let (p, q) = cut sep s in if c == sep then ([], s ∷ []) else (c ∷ p, q)

unfoldable pub join : Text → List Text → Text
join sep [] = []
join sep (p ∷ []) = p
join sep (p ∷ q ∷ ps) = p ++ (sep ++ join sep (q ∷ ps))

unfoldable pub replace_all : Text → ℕ → Text → Text
replace_all [] old new = []
replace_all (c ∷ s) old new = (if c == old then new else c ∷ []) ++ replace_all s old new

abbrev pub is_space : ℕ → Bool
is_space c = c == b' ' || (leb 9 c && leb c 13)

trim_left : Text → Text
trim_left [] = []
trim_left (c ∷ s) = let rest = trim_left s in if is_space c then rest else c ∷ s

-- A byte is dropped where only white space follows it.
trim_right : Text → Text
trim_right [] = []
trim_right (c ∷ s) = let r = trim_right s in if is_space c && is_empty r then [] else c ∷ r

unfoldable pub trim_space : Text → Text
unfolding trim_left trim_right
trim_space s = trim_right (trim_left s)

-- ===== src/Text/Search.antt =====
-- What `strings.Contains` decides.
use maistra_test_tool.Prelude.{
  ◌≡◌, refl, ap, ◌∙◌, true, Bool-cases, [], ◌∷◌, ◌++◌, inl, inr, ◌↔◌, arith,
}
use maistra_test_tool.Text.{Text, has_prefix, contains}

pub has_prefix-append : (p q : Text) → has_prefix (p ++ q) p ≡ true
unfolding has_prefix
has_prefix-append [] q = refl
has_prefix-append (c ∷ p) q = ground (arith, has_prefix-append p q)

has_prefix_split : (s p : Text) → has_prefix s p ≡ true → (q : Text) × (s ≡ p ++ q)
unfolding has_prefix
has_prefix_split s [] h = (s, refl)
has_prefix_split [] (d ∷ p) h = cc
has_prefix_split (c ∷ s) (d ∷ p) h =
    let (q, e) = has_prefix_split s p (ground arith) in (q, ground (arith, e))

-- Where the wanted text stands.
abbrev pub Occurs : Text → Text → Type 0
Occurs p s = (before : Text) × (after : Text) × (s ≡ before ++ (p ++ after))

contains-append : (before p after : Text) → contains (before ++ (p ++ after)) p ≡ true
unfolding contains
contains-append [] [] [] = refl
contains-append [] [] (c ∷ after) = refl
contains-append [] (d ∷ p) after = ground (arith, has_prefix-append (d ∷ p) after)
contains-append (c ∷ before) p after = ground (arith, contains-append before p after)

contains_split : (s p : Text) → contains s p ≡ true → Occurs p s
unfolding contains
contains_split [] p h = let (q, e) = has_prefix_split [] p h in ([], q, e)
contains_split (c ∷ s) p h = elim (Bool-cases (has_prefix (c ∷ s) p)) [
  | inl here ↦ let (q, e) = has_prefix_split (c ∷ s) p here in ([], q, e)
  | inr later ↦
      let (before, after, e) = contains_split s p (ground arith) in
      (c ∷ before, after, ap (λ t. c ∷ t) e)
]

-- `contains` is true exactly where the text occurs.
pub contains_iff : (s p : Text) → (contains s p ≡ true) ↔ Occurs p s
contains_iff s p = (
  contains_split s p,
  λ o. let (before, after, e) = o in ap (λ t. contains t p) e ∙ contains-append before p after,
)

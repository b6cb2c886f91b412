-- ===== src/Heredoc/Dedent.antt =====
-- pkg/util/heredoc/heredoc.go: `Doc` on a block whose lines share an indentation.
use maistra_test_tool.Heredoc.{
  is_blank, indent_of, smallest_indent, get_base_indent, max_int, remove_base_indent, without_first,
  doc, lower,
}
use maistra_test_tool.Prelude.{
  ℕ, zero, suc, ◌+◌, ◌-◌, ◌≤◌, ◌≡◌, ◌≢◌, refl, ap, ◌∙◌, false, List, [], ◌∷◌, ◌++◌, map, All, arith,
  length, drop, true, ltb,
}
use maistra_test_tool.Text.{Text, split, join}
use maistra_test_tool.Text.Parts.{Lacks, split-join}

-- The line behind `n` blanks.
abbrev pub pad : ℕ → Text → Text
pad zero line = line
pad (suc n) line = b' ' ∷ pad n line

-- A line that does not begin with a blank.
abbrev pub IsFlush : Text → Type 0
IsFlush [] = ⊥
IsFlush (c ∷ line) = is_blank c ≡ false

indent_of-pad : (n : ℕ) (line : Text) → indent_of (pad n line) ≡ n + indent_of line
unfolding indent_of
indent_of-pad zero line = omega arith
indent_of-pad (suc n) line = omega (arith, indent_of-pad n line)

lower-pad :
    (n : ℕ) (line : Text) (base : ℕ)
    → lower (indent_of (pad n line)) (n + base) ≡ n + lower (indent_of line) base
lower-pad n line base = rw (indent_of-pad n line) (ground arith)

smallest_indent-pad :
    (n : ℕ) (lines : List Text) (base : ℕ)
    → smallest_indent (map (pad n) lines) (n + base) ≡ n + smallest_indent lines base
unfolding smallest_indent
smallest_indent-pad n [] base = refl
smallest_indent-pad n (line ∷ lines) base =
    ap (smallest_indent (map (pad n) lines)) (lower-pad n line base)
    ∙ smallest_indent-pad n lines (lower (indent_of line) base)

smallest_indent-zero : (lines : List Text) → smallest_indent lines 0 ≡ 0
unfolding smallest_indent
smallest_indent-zero [] = refl
smallest_indent-zero (line ∷ lines) =
    let none_lower : lower (indent_of line) 0 ≡ 0 = ground arith in
    ap (smallest_indent lines) none_lower ∙ smallest_indent-zero lines

indent_of-IsFlush : (line : Text) → IsFlush line → indent_of line ≡ 0
unfolding indent_of
indent_of-IsFlush [] flush = elim flush [ ]
indent_of-IsFlush (c ∷ line) flush = rw flush refl

smallest_indent-IsFlush :
    (before : List Text) (line : Text) (lines : List Text) (base : ℕ)
    → IsFlush line
    → smallest_indent (before ++ line ∷ lines) base ≡ 0
unfolding smallest_indent
smallest_indent-IsFlush [] line lines base flush =
    let lowest : lower (indent_of line) base ≡ 0 =
      rw (indent_of-IsFlush line flush) (ground arith) in
    ap (smallest_indent lines) lowest ∙ smallest_indent-zero lines
smallest_indent-IsFlush (x ∷ before) line lines base flush =
    smallest_indent-IsFlush before line lines _ flush

length-pad : (n : ℕ) (line : Text) → length (pad n line) ≡ n + length line
length-pad zero line = omega arith
length-pad (suc n) line = omega (arith, length-pad n line)

drop-pad : (n : ℕ) (line : Text) → drop n (pad n line) ≡ line
drop-pad zero line = refl
drop-pad (suc n) line = drop-pad n line

abbrev pub IsFilled : Text → Type 0
IsFilled line = line ≢ []

filled : (n : ℕ) (line : Text) → IsFilled line → ltb n (n + length line) ≡ true
filled n [] h = absurd (h refl)
filled n (c ∷ line) h = ground arith

remove_base_indent-pad :
    (n : ℕ) (lines : List Text)
    → All IsFilled lines
    → remove_base_indent (map (pad n) lines) n ≡ lines
unfolding remove_base_indent
remove_base_indent-pad n [] h = refl
remove_base_indent-pad n (line ∷ lines) h =
    let longer : ltb n (length (pad n line)) ≡ true = rw (length-pad n line) (filled n line h.0) in
    rw longer (rw (drop-pad n line) (rw (remove_base_indent-pad n lines h.1) refl))

pad-Lacks : (n : ℕ) (line : Text) → Lacks b'\n' line → Lacks b'\n' (pad n line)
pad-Lacks zero line h = h
pad-Lacks (suc n) line h = (ground arith, pad-Lacks n line h)

All-pad-Lacks :
    (n : ℕ) (lines : List Text) → All (Lacks b'\n') lines → All (Lacks b'\n') (map (pad n) lines)
All-pad-Lacks n [] h = tt
All-pad-Lacks n (line ∷ lines) h = (pad-Lacks n line h.0, All-pad-Lacks n lines h.1)

map-ne-nil :
    (n : ℕ) (before : List Text) (line : Text) (after : List Text)
    → map (pad n) (before ++ line ∷ after) ≢ []
map-ne-nil n [] line after = ground arith
map-ne-nil n (x ∷ before) line after = ground arith

-- The smallest indentation of the block is `n`.
base_indent-pad :
    (n : ℕ) (before : List Text) (line : Text) (after : List Text)
    → n ≤ max_int
    → IsFlush line
    → smallest_indent (map (pad n) (before ++ line ∷ after)) max_int ≡ n
base_indent-pad n before line after small flush =
    let lines = before ++ line ∷ after in
    let split_off : max_int ≡ n + (max_int - n) = omega arith in
    ap (smallest_indent (map (pad n) lines)) split_off
    ∙ (smallest_indent-pad n lines (max_int - n)
        ∙ (ap (λ b. n + b) (smallest_indent-IsFlush before line after (max_int - n) flush)
            ∙ omega arith))

-- `Doc` of a text that begins with a line break and in which every line is indented by `n` blanks, fewer than
-- an int can count: the lines without these blanks, provided that none of them is then empty and
-- that one does not begin with a blank.
pub doc-pad :
    (n : ℕ) (before : List Text) (line : Text) (after : List Text)
    → n ≤ max_int
    → All (Lacks b'\n') (before ++ line ∷ after)
    → All IsFilled (before ++ line ∷ after)
    → IsFlush line
    → doc (b'\n' ∷ join (b'\n' ∷ []) (map (pad n) (before ++ line ∷ after)))
      ≡ join (b'\n' ∷ []) (before ++ line ∷ after)
unfolding doc get_base_indent without_first split
doc-pad n before line after small lacks filled_all flush =
    let lines = before ++ line ∷ after in
    rw
      (split-join b'\n' (map (pad n) lines) (map-ne-nil n before line after)
        (All-pad-Lacks n lines lacks))
      (rw (base_indent-pad n before line after small flush)
        (rw (remove_base_indent-pad n lines filled_all) refl))

-- ===== src/Oc/Quoting.antt =====
-- pkg/util/oc/oc_struct.go: how texts are quoted for the shell in `GetJson` and in `Patch`, and how a
-- POSIX shell reads one word.
use maistra_test_tool.Oc.Kubeconfig.{Oc}
use maistra_test_tool.Oc.Retrying.{ns_flag}
use maistra_test_tool.Check.Common.{CheckFunc}
use maistra_test_tool.Oc.Queries.{get_json, ask, quoted_path, get_json}
use maistra_test_tool.Oc.Resources.{quoted_patch}
use maistra_test_tool.Text.{Text, lit, replace_all}
use maistra_test_tool.Text.Format.{sprintf}
use maistra_test_tool.Text.Parts.{Lacks}
use maistra_test_tool.Prelude.{
  ℕ, ◌≡◌, refl, Bool, false, Bool-cases, inl, inr, append_assoc, arith, ◌||◌, All, List, [], ◌∷◌,
  ◌++◌, ◌==◌, if◌then◌else◌, append_assoc, arith, ◌≢◌,
}

-- Where a shell is in a word: outside of quotations, behind a backslash there, within single quotes, or
-- within double quotes.
pub data Mode : Type 0 where
  unquoted : Mode
  escaped : Mode
  single : Mode
  double : Mode

-- What a reading of a word gives: what the word denotes; that the text ends within a quotation; or that the reading
-- does not go further, at what ends a word or expands, and at a backslash that nothing follows.
pub data Reading : Type 0 where
  word : Text → Reading
  open_quotation : Reading
  beyond : Reading

abbrev pub put : ℕ → Reading → Reading
put c (word s) = word (c ∷ s)
put c open_quotation = open_quotation
put c beyond = beyond

-- The characters with a meaning of their own outside of quotations, apart from the quotes and the backslash: operators,
-- blanks, expansions, patterns, comments and braces.
abbrev special : Text
special = lit "|&;<>()$` \t\n*?[]#~{}!"

abbrev is_in : ℕ → Text → Bool
is_in c [] = false
is_in c (d ∷ ds) = c == d || is_in c ds

abbrev pub is_special : ℕ → Bool
is_special c = is_in c special

abbrev is_special_in_double : ℕ → Bool
is_special_in_double c = c == b'$' || c == b'`' || c == b'\\'

unfoldable pub read_word : Mode → Text → Reading
read_word unquoted [] = word []
read_word escaped [] = beyond
read_word single [] = open_quotation
read_word double [] = open_quotation
read_word unquoted (c ∷ s) =
    let u = read_word unquoted s in
    let e = read_word escaped s in
    let q = read_word single s in
    let d = read_word double s in
    if c == b'\''
    then q
    else if c == b'"'
    then d
    else if c == b'\\'
    then e
    else if is_special c
    then beyond
    else put c u
read_word escaped (c ∷ s) = put c (read_word unquoted s)
read_word single (c ∷ s) =
    let u = read_word unquoted s in let q = read_word single s in if c == b'\'' then u else put c q
read_word double (c ∷ s) =
    let u = read_word unquoted s in
    let d = read_word double s in
    if c == b'"' then u else if is_special_in_double c then beyond else put c d

path_read : (path : Text) → read_word single (quoted_path path ++ b'\'' ∷ []) ≡ word path
unfolding read_word quoted_path replace_all lit
path_read [] = refl
path_read (c ∷ path) = elim (Bool-cases (c == b'\'')) [
  | inl e ↦ let same : c ≡ b'\'' = ground (arith, e) in rw same (rw (path_read path) refl)
  | inr e ↦ rw e (rw e (rw (path_read path) refl))
]

-- The word of the command in which `GetJson` puts the path.
abbrev json_word : Text → Text
json_word path = lit "jsonpath='" ++ (quoted_path path ++ lit "'")

json_word_read :
    (path : Text) → read_word unquoted (json_word path) ≡ word (lit "jsonpath=" ++ path)
unfolding read_word lit
json_word_read path = rw (path_read path) refl

get_json-word :
    (o : Oc) (h : ℕ) (ns kind name : Text) (c : ℕ) (path : Text) (checks : List CheckFunc)
    → get_json o h ns kind name (c ∷ path) checks
      ≡ ask o h
          (sprintf "oc %s get %s %s -o " (ns_flag ns ∷ kind ∷ name ∷ []) ++ json_word (c ∷ path))
          checks
unfolding get_json sprintf lit
get_json-word o h ns kind name c path checks = simp append_assoc

-- `GetJson` for a path that is not empty: the command ends in a word that the shell reads as jsonpath=
-- and the path itself, whatever quotes and other characters the path has.
pub get_json-read_word :
    (o : Oc) (h : ℕ) (ns kind name : Text) (c : ℕ) (path : Text) (checks : List CheckFunc)
    → (last : Text) × (get_json o h ns kind name (c ∷ path) checks
        ≡ ask o h (sprintf "oc %s get %s %s -o " (ns_flag ns ∷ kind ∷ name ∷ []) ++ last) checks)
      × (read_word unquoted last ≡ word (lit "jsonpath=" ++ c ∷ path))
get_json-read_word o h ns kind name c path checks =
    (json_word (c ∷ path), get_json-word o h ns kind name c path checks, json_word_read (c ∷ path))

differs : {c d : ℕ} → c ≢ d → (c == d) ≡ false
differs ne = ground arith

unchanged : (p new : Text) → Lacks b'\'' p → replace_all p b'\'' new ≡ p
unfolding replace_all
unchanged [] new lacks = refl
unchanged (c ∷ p) new lacks = rw (differs lacks.0) (rw (unchanged p new lacks.1) refl)

-- A text with no single quote stays as it is, and a quotation of it is read as the text.
kept :
    (p rest : Text)
    → Lacks b'\'' p
    → replace_all (p ++ rest) b'\'' (lit "'\\\\''") ≡ p ++ replace_all rest b'\'' (lit "'\\\\''")
unfolding replace_all
kept [] rest lacks = refl
kept (c ∷ p) rest lacks = ground (arith, kept p rest lacks.1)

quotation_read : (p : Text) → Lacks b'\'' p → read_word single (p ++ b'\'' ∷ []) ≡ word p
unfolding read_word
quotation_read [] lacks = refl
quotation_read (c ∷ p) lacks = rw (differs lacks.0) (rw (quotation_read p lacks.1) refl)

-- A quotation that does not end behind a text does not end with the text in front.
unread :
    (a rest : Text)
    → Lacks b'\'' a
    → read_word single rest ≡ open_quotation
    → read_word single (a ++ rest) ≡ open_quotation
unfolding read_word
unread [] rest lacks e = e
unread (c ∷ a) rest lacks e = ground (arith, unread a rest lacks.1 e)

-- Neither a character that is special outside of quotations nor a quote or a backslash, but maybe a double quote.
abbrev pub IsCalm : ℕ → Type 0
IsCalm c = (c ≢ b'\'') × (c ≢ b'\\') × (is_special c ≡ false) × (is_special_in_double c ≡ false)

Lacks-quote : (b : Text) → All IsCalm b → Lacks b'\'' b
Lacks-quote [] calm = tt
Lacks-quote (c ∷ b) calm = (calm.0.0, Lacks-quote b calm.1)

-- A single quote behind such a text, which is not in single quotes, opens a quotation or stands in one.
open_end :
    (b : Text)
    → All IsCalm b
    → (read_word unquoted (b ++ b'\'' ∷ []) ≡ open_quotation)
      × (read_word double (b ++ b'\'' ∷ []) ≡ open_quotation)
unfolding read_word
open_end [] calm = (refl, refl)
open_end (c ∷ b) calm =
    let (u, d) = open_end b calm.1 in
    let (q, s, out, within) = calm.0 in
    elim (Bool-cases (c == b'"')) [
      | inl e ↦ (rw (differs q) (rw e d), rw e u)
      | inr e ↦ (
        rw (differs q) (rw e (rw (differs s) (rw out (rw u refl)))),
        rw e (rw within (rw d refl)),
      )
    ]

-- `Patch`: a patch with no single quote is read by the shell as it is; the quotation of a patch with one single quote
-- in it, behind which no backslash and no character stands that is special to the shell outside of quotations, a
-- double quote apart, does not end.
pub quoted_patch-read_word :
    (a b : Text)
    → Lacks b'\'' a
    → All IsCalm b
    → (read_word unquoted (quoted_patch a) ≡ word a)
      × (read_word unquoted (quoted_patch (a ++ b'\'' ∷ b)) ≡ open_quotation)
unfolding quoted_patch sprintf lit read_word replace_all
quoted_patch-read_word a b qa calm = (
  rw (unchanged a _ qa) (quotation_read a qa),
  rw (kept a (b'\'' ∷ b) qa) (
      rw (unchanged b _ (Lacks-quote b calm)) (
        rw append_assoc (
          unread a (b'\'' ∷ b'\\' ∷ b'\\' ∷ b'\'' ∷ b'\'' ∷ (b ++ b'\'' ∷ [])) qa
            (rw ((open_end b calm).0) refl)))),
)

-- ===== src/Text/Decimal.antt =====
-- `%d` and `strconv.Atoi`.
use maistra_test_tool.Prelude.{
  ℕ, zero, suc, ◌+◌, ◌-◌, ◌*◌, ◌/◌, ◌%◌, ◌^◌, ◌≤◌, ◌<◌, Option, none, some, ◌||◌, [], ◌∷◌, ltb, leb,
  ◌==◌, if◌then◌else◌, ◌≡◌, ◌≢◌, refl, arith, All, ◌∙◌,
}
use maistra_test_tool.Prelude.Int.{ℤ, pos, negsuc, sub_ℕ}
use maistra_test_tool.Text.{Text}

-- The digits of `n` before `out`; the fuel `n + 1` is enough, since each round divides by ten.
digits : ℕ → ℕ → Text → Text
digits zero n out = out
digits (suc f) n out =
    let more = digits f (n / 10) ((b'0' + n % 10) ∷ out) in
    if n / 10 == 0 then (b'0' + n % 10) ∷ out else more

unfoldable pub decimal : ℕ → Text
unfolding digits
decimal n = digits (n + 1) n []

-- `%d` of an int
unfoldable pub itoa : ℤ → Text
itoa (pos n) = decimal n
itoa (negsuc n) = b'-' ∷ decimal (suc n)

scan : Text → ℕ → Option ℕ
scan [] n = some n
scan (c ∷ s) n = if ltb c b'0' || ltb b'9' c then none else scan s (n * 10 + (c - b'0'))

unsigned : Text → Option ℕ
unsigned [] = none
unsigned (c ∷ s) = scan (c ∷ s) 0

in_range : ℕ → Option ℕ → (ℕ → ℤ) → Option ℤ
in_range bound none sign = none
in_range bound (some n) sign = if leb n bound then some (sign n) else none

-- `none` is any error of `strconv.Atoi`.
unfoldable pub atoi : Text → Option ℤ
unfolding in_range unsigned scan
atoi [] = none
atoi (c ∷ s) =
    if c == b'-'
    then in_range (2 ^ 63) (unsigned s) (λ n. sub_ℕ 0 n)
    else if c == b'+'
    then in_range (2 ^ 63 - 1) (unsigned s) pos
    else in_range (2 ^ 63 - 1) (unsigned (c ∷ s)) pos

-- An `int` of 64 bits.
abbrev pub IsInt : ℤ → Type 0
IsInt (pos n) = n < 2 ^ 63
IsInt (negsuc n) = n < 2 ^ 63

abbrev pub IsDigit : ℕ → Type 0
IsDigit c = (b'0' ≤ c) × (c ≤ b'9')

scan-digits : (f n : ℕ) (out : Text) → n < f → scan (digits f n out) 0 ≡ scan out n
unfolding digits scan
scan-digits zero n out h = elim h [ ]
scan-digits (suc f) n out h = ground (arith, scan-digits f (n / 10) ((b'0' + n % 10) ∷ out))

digits-IsDigit : (f n : ℕ) (out : Text) → All IsDigit out → All IsDigit (digits f n out)
unfolding digits
digits-IsDigit zero n out h = h
digits-IsDigit (suc f) n out h = ground (arith, digits-IsDigit f (n / 10) ((b'0' + n % 10) ∷ out))

-- A decimal print is digits only.
pub decimal-IsDigit : (n : ℕ) → All IsDigit (decimal n)
unfolding decimal
decimal-IsDigit n = digits-IsDigit (n + 1) n [] tt

digits-ne-nil : (f n : ℕ) (out : Text) → n < f → digits f n out ≢ []
unfolding digits
digits-ne-nil zero n out h = elim h [ ]
digits-ne-nil (suc f) n out h = ground (arith, digits-ne-nil f (n / 10) ((b'0' + n % 10) ∷ out))

pub decimal-ne-nil : (n : ℕ) → decimal n ≢ []
unfolding decimal
decimal-ne-nil n = digits-ne-nil (n + 1) n [] (omega arith)

unsigned-scan : (s : Text) → s ≢ [] → unsigned s ≡ scan s 0
unfolding unsigned
unsigned-scan [] h = absurd (h refl)
unsigned-scan (c ∷ s) h = refl

unsigned-decimal : (n : ℕ) → unsigned (decimal n) ≡ some n
unsigned-decimal n =
    unsigned-scan (decimal n) (decimal-ne-nil n)
    ∙ unfold decimal scan in scan-digits (n + 1) n [] (omega arith)

-- Text that begins with a digit is read without a sign.
atoi-unsigned :
    (s : Text) (n : ℕ) → All IsDigit s → n < 2 ^ 63 → unsigned s ≡ some n → atoi s ≡ some (pos n)
unfolding atoi
atoi-unsigned [] n h r e = cc
atoi-unsigned (c ∷ s) n h r e = ground arith

-- `strconv.Atoi` reads every `int` back from its decimal print.
pub atoi-itoa : (i : ℤ) → IsInt i → atoi (itoa i) ≡ some i
unfolding itoa
atoi-itoa (pos n) h = atoi-unsigned (decimal n) n (decimal-IsDigit n) h (unsigned-decimal n)
atoi-itoa (negsuc n) h = unfold atoi in ground (arith, unsigned-decimal (suc n))

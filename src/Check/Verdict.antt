-- ===== src/Check/Verdict.antt =====
-- pkg/util/check/common/output.go on the helper of a retry: when a check passes, how the call ends, and
-- the mark that the helper is left with.
use maistra_test_tool.World.{World, Action, Outcome, returned, panicked, string}
use maistra_test_tool.Helper.{retry_panic_key}
use maistra_test_tool.Check.Common.{FailureFunc, assert_failure, require_failure}
use maistra_test_tool.Check.Output.{
  check_output_contains_any, check_output_does_not_contain, count_expected_string, find_expected,
  contains_any_of,
}
use maistra_test_tool.Check.Leaves.{
  own_mark, Leaves, same, set, Leaves-detail, log_success-Leaves, assert_failure-Leaves,
  require_failure-Leaves,
}
use maistra_test_tool.Check.Assert
use maistra_test_tool.Check.Require
use maistra_test_tool.Prelude.{
  ℕ, ◌≡◌, sym, ◌∙◌, ◌⊎◌, inl, inr, Bool, true, Option, none, some, List, [], ◌∷◌, ◌≢◌, false, arith,
  Bool-cases,
}
use maistra_test_tool.Text.{Text, contains, count}
use maistra_test_tool.Text.Search.{Occurs, contains_iff}
use maistra_test_tool.Prelude.Int.{ℤ, eqb_ℤ, eq_of_parts, pos}

-- The failure function marks the helper, and ends with the outcome.
abbrev pub FailsWith : FailureFunc → Outcome Unit → Type 0
FailsWith failure o = (r : ℕ) (msg detail : Text) → Leaves r o set (failure r msg detail)

-- How an attempt ends that a requirement has failed in.
abbrev pub attempt_over : Outcome Unit
attempt_over = panicked (string retry_panic_key)

-- The check passes and leaves the mark alone, which means `good`; or it fails with the outcome and sets
-- the mark, which means that `good` is false.
abbrev pub Verdict : ℕ → World → Outcome Unit → Type 0 → Action Unit → Type 0
Verdict r w o Good m =
    (Good × ((m w).0 ≡ returned tt) × (own_mark ((m w).1.helpers r) ≡ own_mark (w.helpers r)))
    ⊎ ((¬ Good) × ((m w).0 ≡ o) × (own_mark ((m w).1.helpers r) ≡ some true))

module _ (r : ℕ) (w : World) (b : Bool) (h : own_mark (w.helpers r) ≡ some b) {Good : Type 0}
    {o : Outcome Unit} {m : Action Unit} where
  pub passed : Good → Leaves r (returned tt) same m → Verdict r w o Good m
  passed good l = let (returns, marked) = l.at w b h in inl (good, returns, marked ∙ sym h)

  pub refused : ¬ Good → Leaves r o set m → Verdict r w o Good m
  refused bad l = let (ends, marked) = l.at w b h in inr (bad, ends, marked)

-- One of the texts stands in the output.
abbrev pub AnyOccurs : Text → List Text → Type 0
AnyOccurs output [] = ⊥
AnyOccurs output (str ∷ strs) = Occurs str output ⊎ AnyOccurs output strs

abbrev Found : Text → List Text → Option Text → Type 0
Found output strs none = ¬ AnyOccurs output strs
Found output strs (some str) = AnyOccurs output strs

-- A text that is not contained does not occur.
pub absent : (output str : Text) → contains output str ≡ false → ¬ Occurs str output
absent output str e occurs = cc ((contains_iff output str).1 occurs)

Found-later :
    (output str : Text) (strs : List Text) (o : Option Text)
    → ¬ Occurs str output
    → Found output strs o
    → Found output (str ∷ strs) o
Found-later output str strs none no_str rest =
    λ a. elim a [ inl here ↦ no_str here | inr later ↦ rest later ]
Found-later output str strs (some _) no_str rest = inr rest

find_expected-Found :
    (output : Text) (strs : List Text) → Found output strs (find_expected output strs)
unfolding find_expected
find_expected-Found output [] = λ a. a
find_expected-Found output (str ∷ strs) = elim (Bool-cases (contains output str)) [
  | inl here ↦ rw here (inl ((contains_iff output str).0 here))
  | inr gone ↦
      rw gone
        (Found-later output str strs _ (absent output str gone) (find_expected-Found output strs))
]

module _ (r : ℕ) (w : World) (b : Bool) (h : own_mark (w.helpers r) ≡ some b) where
  module _ (failure : FailureFunc) {o : Outcome Unit} (fails : FailsWith failure o) where
    contains_any-Verdict :
        (output : Text) (strs : List Text) (success_msg failure_msg : Text)
        → Verdict r w o
            (AnyOccurs output strs)
            (check_output_contains_any r output strs success_msg failure_msg failure)
    unfolding check_output_contains_any
    contains_any-Verdict output strs s f =
        judge (find_expected output strs) (find_expected-Found output strs)
      where
        judge :
            (found : Option Text)
            → Found output strs found
            → Verdict r w o
                (AnyOccurs output strs)
                (contains_any_of r output strs s f failure found)
        judge none no_text =
            refused r w b h no_text
              (unfold contains_any_of in Leaves-detail _ _ _ (λ detail. fails r f detail))
        judge (some str) some_text =
            passed r w b h some_text (unfold contains_any_of in log_success-Leaves _)

    does_not_contain-Verdict :
        (output str success_msg failure_msg : Text)
        → Verdict r w o
            (¬ Occurs str output)
            (check_output_does_not_contain r output str success_msg failure_msg failure)
    unfolding check_output_does_not_contain
    does_not_contain-Verdict output str s f = elim (Bool-cases (contains output str)) [
      | inl here ↦ rw here (
          refused r w b h (λ gone. gone ((contains_iff output str).0 here))
            (Leaves-detail _ _ _ (λ detail. fails r f detail)))
      | inr gone ↦ rw gone (passed r w b h (absent output str gone) (log_success-Leaves _))
    ]

    count-Verdict :
        (output str : Text) (n : ℤ) (success_msg failure_msg : Text)
        → Verdict r w o
            (pos (count output str) ≢ n)
            (count_expected_string r output str n success_msg failure_msg failure)
    unfolding count_expected_string
    count-Verdict output str n s f = elim (Bool-cases (eqb_ℤ (pos (count output str)) n)) [
      | inl equal ↦ rw equal (
          refused r w b h (λ ne. ne (eq_of_parts _ n (ground arith)))
            (Leaves-detail _ _ _ (λ detail. fails r f detail)))
      | inr other ↦ rw other (passed r w b h (ground arith) (log_success-Leaves _))
    ]

  -- On the helper of a retry, `OutputContainsAny` of assert and of require passes, leaving the mark of
  -- the helper as it was, exactly if one of the texts stands in the output; otherwise it marks the helper as
  -- failed, and the assertion returns while the requirement ends the attempt.
  pub output_contains_any-Verdict :
      (output : Text) (strs : List Text) (success_msg failure_msg : Text)
      → Verdict r w
          (returned tt)
          (AnyOccurs output strs)
          (Assert.output_contains_any strs success_msg failure_msg r output)
        × Verdict r w attempt_over
            (AnyOccurs output strs)
            (Require.output_contains_any strs success_msg failure_msg r output)
  unfolding Assert.output_contains_any Require.output_contains_any
  output_contains_any-Verdict output strs s f = (
    contains_any-Verdict assert_failure (λ r'. assert_failure-Leaves {r = r'}) output strs s f,
    contains_any-Verdict require_failure (λ r'. require_failure-Leaves {r = r'}) output strs s f,
  )

  -- On the helper of a retry, `OutputDoesNotContain` of assert and of require passes, leaving the mark
  -- of the helper as it was, exactly if the text does not stand in the output; otherwise it marks the
  -- helper as failed, and the assertion returns while the requirement ends the attempt.
  pub output_does_not_contain-Verdict :
      (output str success_msg failure_msg : Text)
      → Verdict r w
          (returned tt)
          (¬ Occurs str output)
          (Assert.output_does_not_contain str success_msg failure_msg r output)
        × Verdict r w attempt_over
            (¬ Occurs str output)
            (Require.output_does_not_contain str success_msg failure_msg r output)
  unfolding Assert.output_does_not_contain Require.output_does_not_contain
  output_does_not_contain-Verdict output str s f = (
    does_not_contain-Verdict assert_failure (λ r'. assert_failure-Leaves {r = r'}) output str s f,
    does_not_contain-Verdict require_failure (λ r'. require_failure-Leaves {r = r'}) output str s f,
  )

  -- On the helper of a retry, `CountExpectedString` passes exactly if the text does NOT occur the expected
  -- number of times in the output, and marks the helper as failed if it does.
  pub count_expected-Verdict :
      (output str : Text) (n : ℤ) (success_msg failure_msg : Text)
      → Verdict r w
          (returned tt)
          (pos (count output str) ≢ n)
          (Assert.count_expected str n success_msg failure_msg r output)
  unfolding Assert.count_expected
  count_expected-Verdict output str n s f =
      count-Verdict assert_failure (λ r'. assert_failure-Leaves {r = r'}) output str n s f

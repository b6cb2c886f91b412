-- ===== src/Check/Still.antt =====
-- pkg/util/check/common/output.go: the checks of outputs change helpers and tests only.
use maistra_test_tool.World.{World}
use maistra_test_tool.World.Keeps.{Keeps}
use maistra_test_tool.World.Onward.{Same}
use maistra_test_tool.Helper.Still.{still_rules}
use maistra_test_tool.Check.Common.{
  CheckFunc, FailureFunc, assert_failure, require_failure, detail_unless_retried,
}
use maistra_test_tool.Check.Output.{
  check_output_contains_any, check_output_does_not_contain, contains_any_of,
}
use maistra_test_tool.Check.Assert
use maistra_test_tool.Check.Require
use maistra_test_tool.Prelude.{ℕ, Option, none, some, List}
use maistra_test_tool.Text.{Text}

abbrev pub IsStillCheck : World → CheckFunc → Type 0
IsStillCheck w0 check = (h : ℕ) (output : Text) → Keeps (Same w0) (check h output)

module _ {w0 : World} where
  assert_failure-Still : (h : ℕ) (msg detail : Text) → Keeps (Same w0) (assert_failure h msg detail)
  unfolding assert_failure
  assert_failure-Still h msg detail = search still_rules

  require_failure-Still :
      (h : ℕ) (msg detail : Text) → Keeps (Same w0) (require_failure h msg detail)
  unfolding require_failure
  require_failure-Still h msg detail = search still_rules

  detail-Still : (h : ℕ) (a b : Text) → Keeps (Same w0) (detail_unless_retried h a b)
  unfolding detail_unless_retried
  detail-Still h a b = search still_rules

  module _ (failure : FailureFunc)
      (fails : (h : ℕ) (msg detail : Text) → Keeps (Same w0) (failure h msg detail)) where
    contains_any_of-Still :
        (h : ℕ) (output : Text) (strs : List Text) (s f : Text) (found : Option Text)
        → Keeps (Same w0) (contains_any_of h output strs s f failure found)
    unfolding contains_any_of
    contains_any_of-Still h output strs s f none = search (still_rules, detail-Still, fails)
    contains_any_of-Still h output strs s f (some str) = search still_rules

    contains_any-Still :
        (h : ℕ) (output : Text) (strs : List Text) (s f : Text)
        → Keeps (Same w0) (check_output_contains_any h output strs s f failure)
    unfolding check_output_contains_any
    contains_any-Still h output strs s f = contains_any_of-Still h output strs s f _

    does_not_contain-Still :
        (h : ℕ) (output str s f : Text)
        → Keeps (Same w0) (check_output_does_not_contain h output str s f failure)
    unfolding check_output_does_not_contain
    does_not_contain-Still h output str s f = search (still_rules, detail-Still, fails)

  pub output_contains-Still : (str s f : Text) → IsStillCheck w0 (Assert.output_contains str s f)
  unfolding Assert.output_contains
  output_contains-Still str s f h output =
      contains_any-Still assert_failure assert_failure-Still h output _ s f

  pub require_contains-Still : (str s f : Text) → IsStillCheck w0 (Require.output_contains str s f)
  unfolding Require.output_contains
  require_contains-Still str s f h output =
      contains_any-Still require_failure require_failure-Still h output _ s f

  pub output_does_not_contain-Still :
      (str s f : Text) → IsStillCheck w0 (Assert.output_does_not_contain str s f)
  unfolding Assert.output_does_not_contain
  output_does_not_contain-Still str s f h output =
      does_not_contain-Still assert_failure assert_failure-Still h output str s f

-- ===== src/Check/Isolation.antt =====
-- pkg/util/check/common/output.go: through which helper the checks report.
use maistra_test_tool.World.Keeps.{Keeps}
use maistra_test_tool.Helper.Isolation.{Isolated, isolated_rules}
use maistra_test_tool.Check.Common.{
  CheckFunc, FailureFunc, assert_failure, require_failure, detail_unless_retried,
}
use maistra_test_tool.Check.Output.{
  check_output_contains_any, check_output_does_not_contain, contains_any_of,
}
use maistra_test_tool.Check.Assert
use maistra_test_tool.Check.Require
use maistra_test_tool.Prelude.{ℕ, Bool, Option, none, some, List}
use maistra_test_tool.Text.{Text}

-- On the helper of a retry, the check marks no test as failed, whatever the output.
abbrev pub IsIsolatedCheck : CheckFunc → Type 0
IsIsolatedCheck check =
    (r : ℕ) (marks : ℕ → Bool) (output : Text) → Keeps (Isolated r marks) (check r output)

module _ {r : ℕ} {marks : ℕ → Bool} where
  assert_failure-Isolated :
      (msg detail : Text) → Keeps (Isolated r marks) (assert_failure r msg detail)
  unfolding assert_failure
  assert_failure-Isolated msg detail = search isolated_rules

  require_failure-Isolated :
      (msg detail : Text) → Keeps (Isolated r marks) (require_failure r msg detail)
  unfolding require_failure
  require_failure-Isolated msg detail = search isolated_rules

  detail-Isolated : (a b : Text) → Keeps (Isolated r marks) (detail_unless_retried r a b)
  unfolding detail_unless_retried
  detail-Isolated a b = search isolated_rules

  module _ (failure : FailureFunc)
      (fails : (msg detail : Text) → Keeps (Isolated r marks) (failure r msg detail)) where
    contains_any_of-Isolated :
        (output : Text) (strs : List Text) (s f : Text) (found : Option Text)
        → Keeps (Isolated r marks) (contains_any_of r output strs s f failure found)
    unfolding contains_any_of
    contains_any_of-Isolated output strs s f none = search (isolated_rules, detail-Isolated, fails)
    contains_any_of-Isolated output strs s f (some str) = search isolated_rules

    contains_any-Isolated :
        (output : Text) (strs : List Text) (s f : Text)
        → Keeps (Isolated r marks) (check_output_contains_any r output strs s f failure)
    unfolding check_output_contains_any
    contains_any-Isolated output strs s f = contains_any_of-Isolated output strs s f _

    does_not_contain-Isolated :
        (output str s f : Text)
        → Keeps (Isolated r marks) (check_output_does_not_contain r output str s f failure)
    unfolding check_output_does_not_contain
    does_not_contain-Isolated output str s f = search (isolated_rules, detail-Isolated, fails)

pub output_contains_any-Isolated :
    (strs : List Text) (s f : Text) → IsIsolatedCheck (Assert.output_contains_any strs s f)
unfolding Assert.output_contains_any
output_contains_any-Isolated strs s f r marks output =
    contains_any-Isolated assert_failure assert_failure-Isolated output strs s f

pub require_contains_any-Isolated :
    (strs : List Text) (s f : Text) → IsIsolatedCheck (Require.output_contains_any strs s f)
unfolding Require.output_contains_any
require_contains_any-Isolated strs s f r marks output =
    contains_any-Isolated require_failure require_failure-Isolated output strs s f

pub output_does_not_contain-Isolated :
    (str s f : Text) → IsIsolatedCheck (Assert.output_does_not_contain str s f)
unfolding Assert.output_does_not_contain
output_does_not_contain-Isolated str s f r marks output =
    does_not_contain-Isolated assert_failure assert_failure-Isolated output str s f

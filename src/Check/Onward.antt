-- ===== src/Check/Onward.antt =====
-- pkg/util/check/common/output.go: the checks of outputs, as actions that only go on.
use maistra_test_tool.World.{World}
use maistra_test_tool.World.Keeps.{Keeps}
use maistra_test_tool.World.Onward.{After, Still-Onward}
use maistra_test_tool.Check.Common.{CheckFunc}
use maistra_test_tool.Check.Assert
use maistra_test_tool.Check.Require
use maistra_test_tool.Check.Still.{
  output_contains-Still, require_contains-Still, output_does_not_contain-Still,
}
use maistra_test_tool.Prelude.{ℕ}
use maistra_test_tool.Text.{Text}

abbrev pub IsOnwardCheck : World → CheckFunc → Type 0
IsOnwardCheck w0 check = (h : ℕ) (output : Text) → Keeps (After w0) (check h output)

module _ {w0 : World} where
  pub output_contains-Onward : (str s f : Text) → IsOnwardCheck w0 (Assert.output_contains str s f)
  output_contains-Onward str s f h output =
      Still-Onward _ λ w. output_contains-Still str s f h output

  pub require_contains-Onward :
      (str s f : Text) → IsOnwardCheck w0 (Require.output_contains str s f)
  require_contains-Onward str s f h output =
      Still-Onward _ λ w. require_contains-Still str s f h output

  pub output_does_not_contain-Onward :
      (str s f : Text) → IsOnwardCheck w0 (Assert.output_does_not_contain str s f)
  output_does_not_contain-Onward str s f h output =
      Still-Onward _ λ w. output_does_not_contain-Still str s f h output

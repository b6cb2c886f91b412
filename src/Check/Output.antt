-- ===== src/Check/Output.antt =====
-- pkg/util/check/common/output.go
use maistra_test_tool.World.{Action, ◌>>=◌}
use maistra_test_tool.Helper.{log_success}
use maistra_test_tool.Check.Common.{FailureFunc, detail_unless_retried}
use maistra_test_tool.Prelude.{
  ℕ, String, not, Option, none, some, List, [], ◌∷◌, ◌++◌, if◌then◌else◌,
}
use maistra_test_tool.Text.{Text, lit, is_empty, contains, count, join}
use maistra_test_tool.Prelude.Int.{ℤ, eqb_ℤ, pos}

-- `%v` of a list of texts
unfoldable pub sprint_list : List Text → Text
sprint_list xs = lit "[" ++ (join (lit " ") xs ++ lit "]")

abbrev quoted : String → Text → String → Text
quoted before str after = lit before ++ (str ++ lit after)

-- The first expected text that the output contains.
unfoldable pub find_expected : Text → List Text → Option Text
find_expected output [] = none
find_expected output (str ∷ rest) =
    let later = find_expected output rest in if contains output str then some str else later

not_found : List Text → Text
not_found (str ∷ []) =
    quoted "expected to find the string '" str "' in the output, but it wasn't found"
not_found expected =
    quoted "expected to find any of '" (sprint_list expected)
      "' in the output, but none wasn't found"

abbrev full_output : Text → Text
full_output output = lit "; full output:\n" ++ output

abbrev or_default : Text → Text → Text
or_default msg default = if is_empty msg then default else msg

unfoldable pub contains_any_of :
    ℕ → Text → List Text → Text → Text → FailureFunc → Option Text → Action Unit
unfolding not_found
contains_any_of h output expected success_msg failure_msg failure (some str) =
    log_success h (or_default success_msg (quoted "string '" str "' found in output"))
contains_any_of h output expected success_msg failure_msg failure none = do
  detail ← detail_unless_retried h (not_found expected) (full_output output)
  failure h failure_msg detail

-- `CheckOutputContainsAny`
unfoldable pub check_output_contains_any :
    ℕ → Text → List Text → Text → Text → FailureFunc → Action Unit
unfolding contains_any_of find_expected
check_output_contains_any h output expected success_msg failure_msg failure =
    contains_any_of h output expected success_msg failure_msg failure
      (find_expected output expected)

-- `CheckOutputDoesNotContain`
unfoldable pub check_output_does_not_contain :
    ℕ → Text → Text → Text → Text → FailureFunc → Action Unit
check_output_does_not_contain h output str success_msg failure_msg failure =
    if contains output str
    then (do
      detail ←
          detail_unless_retried h
            (quoted "expected the string '" str
              "' to be absent from the command output, but it was present")
            (full_output output)
      failure h failure_msg detail)
    else log_success h (or_default success_msg (quoted "string '" str "' not found in output"))

-- `CountExpectedString`
unfoldable pub count_expected_string : ℕ → Text → Text → ℤ → Text → Text → FailureFunc → Action Unit
count_expected_string h output expected occurrences success_msg failure_msg failure =
    if not (eqb_ℤ (pos (count output expected)) occurrences)
    then log_success h (or_default success_msg (quoted "string '" expected "' found in output"))
    else do
      detail ←
          detail_unless_retried h
            (quoted "expected to find the string '" expected "' in the output, but it wasn't found")
            (full_output output)
      failure h failure_msg detail

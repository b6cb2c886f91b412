-- ===== src/Tests/Core.antt =====
-- Versions, retries, checks and tests at concrete inputs.
use maistra_test_tool.World.{World, string, panic, crashed, returned, ◌>>=◌, PanicValue, Action}
use maistra_test_tool.Version.{
  Version, parse_version, to_text, equals, less_than, less_than_or_equal, greater_than,
  greater_than_or_equal,
}
use maistra_test_tool.Version.Order.{comparisons_lexicographic, Precedes}
use maistra_test_tool.Version.Parse.{parse_version-to_text, given}
use maistra_test_tool.Env.{get_smcp_version, getenv}
use maistra_test_tool.Helper.{fail}
use maistra_test_tool.Helper.Isolation.{failures, fail-Isolated}
use maistra_test_tool.Retry.{until_success_with_options}
use maistra_test_tool.Retry.Options.{RetryOptions, second}
use maistra_test_tool.Retry.Runs.{Failing}
use maistra_test_tool.Retry.Course.{Course}
use maistra_test_tool.Retry.Course.Told.{until_success-Course}
use maistra_test_tool.Retry.Isolation.{until_success-failures}
use maistra_test_tool.Case.{TopLevelTest, new_test, skip_if_necessary, run}
use maistra_test_tool.Case.Subtest.{SubTest, run_sub}
use maistra_test_tool.Case.Skipping.{run-Skipped, Suits, IsSkipped}
use maistra_test_tool.Case.Recovery.{run_sub-crashes, started}
use maistra_test_tool.Tests.Data.{online}
use maistra_test_tool.Prelude.{ℕ, ◌≡◌, refl, ◌⊎◌, ◌↔◌, true, some, [], ◌∷◌, ◌++◌, arith}
use maistra_test_tool.Text.{lit, split}
use maistra_test_tool.Prelude.Int.{pos}
use maistra_test_tool.Text.Decimal.{itoa, atoi}

abbrev v2_5 : Version
v2_5 = record { major = pos 2; minor = pos 5 }

abbrev v2_6 : Version
v2_6 = record { major = pos 2; minor = pos 6 }

comparisons_lexicographic_example :
    ((equals v2_5 v2_6 ≡ true) ↔ (v2_5 ≡ v2_6))
    × ((less_than v2_5 v2_6 ≡ true) ↔ Precedes v2_5 v2_6)
    × ((less_than_or_equal v2_5 v2_6 ≡ true) ↔ (Precedes v2_5 v2_6 ⊎ (v2_5 ≡ v2_6)))
    × ((greater_than v2_5 v2_6 ≡ true) ↔ Precedes v2_6 v2_5)
    × ((greater_than_or_equal v2_5 v2_6 ≡ true) ↔ (Precedes v2_6 v2_5 ⊎ (v2_5 ≡ v2_6)))
comparisons_lexicographic_example = comparisons_lexicographic v2_5 v2_6

abbrev three_attempts : RetryOptions
three_attempts = record {
  max_attempts = pos 3;
  delay_between_attempts = second;
  log_attempts = true;
}

until_success-Course_example :
    let (o, w') = until_success_with_options 0 three_attempts fail online in
    Course 0 three_attempts fail 2 online o w'
until_success-Course_example = until_success-Course 0 three_attempts fail 2 online refl

until_success-failures_example :
    (failures (until_success_with_options 0 three_attempts fail online).1 ≡ failures online)
    ⊎ ((w1 : World) × Failing 0 three_attempts fail 0 online 2 w1)
until_success-failures_example =
    until_success-failures 0 three_attempts fail 2 online refl (λ r marks. fail-Isolated)

abbrev bookinfo : TopLevelTest
bookinfo = record (new_test 0) { groups = lit "smoke" ∷ []; min_version = some v2_5 }

default_version : get_smcp_version online.env ≡ some v2_6
unfolding get_smcp_version parse_version split getenv lit atoi
default_version = refl

run-Skipped_example :
    (Suits bookinfo online.env v2_6 → skip_if_necessary bookinfo online ≡ (returned tt, online))
    × (¬ Suits bookinfo online.env v2_6 → IsSkipped bookinfo online (run bookinfo fail online))
run-Skipped_example = run-Skipped bookinfo online v2_6 default_version fail

-- A body that panics.
abbrev boom : ℕ → Action Unit
boom h = panic (string (lit "boom"))

abbrev a_subtest : SubTest
a_subtest = record { t = 0; name = lit "reviews" }

run_sub-crashes_example : (q : PanicValue) × ((run_sub a_subtest boom online).0 ≡ crashed q)
unfolding ◌>>=◌
run_sub-crashes_example =
    run_sub-crashes (string (lit "boom")) a_subtest boom online
      (started (string (lit "boom")) a_subtest online) refl

parse_version-to_text_example :
    (parse_version (to_text v2_6 ++ lit ".1") ≡ some v2_6)
    × (parse_version (itoa v2_6.major ++ b'.' ∷ (itoa v2_6.minor ++ lit ".1")) ≡ some v2_6)
unfolding lit
parse_version-to_text_example =
    parse_version-to_text v2_6 (lit ".1") (omega arith) (omega arith) (given (lit "1"))

-- ===== src/Retry/Options.antt =====
-- pkg/util/retry/options.go. Durations are in nanoseconds.
use maistra_test_tool.Prelude.{Bool, true}
use maistra_test_tool.Prelude.Int.{ℤ, pos}

pub record RetryOptions : Type 0 where
  pub max_attempts : ℤ
  pub delay_between_attempts : ℤ
  pub log_attempts : Bool

abbrev pub second : ℤ
second = pos 1_000_000_000

abbrev pub default_options : RetryOptions
default_options = record {
  max_attempts = pos 60;
  delay_between_attempts = second;
  log_attempts = true;
}

abbrev pub options : RetryOptions
options = default_options

unfoldable pub max_attempts : RetryOptions → ℤ → RetryOptions
max_attempts o n = record o { max_attempts = n }

unfoldable pub delay_between_attempts : RetryOptions → ℤ → RetryOptions
delay_between_attempts o delay = record o { delay_between_attempts = delay }

unfoldable pub log_attempts : RetryOptions → Bool → RetryOptions
log_attempts o b = record o { log_attempts = b }

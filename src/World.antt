-- ===== src/World.antt =====
-- What the tool runs on: Go's control flow and package testing, the process environment, the clock
-- and the commands that were run. An action changes the world and ends in one of the ways in which a
-- Go call ends.
pub mod Panics
pub mod Testing
pub mod Keeps
pub mod Binds
pub mod Yields
pub mod Onward
pub mod Spending
use maistra_test_tool.Prelude.{ℕ, Bool, true, false, Option, List, [], ◌∷◌, ◌==◌, if◌then◌else◌}
use maistra_test_tool.Text.{Text}
use maistra_test_tool.Prelude.Int.{ℤ}

-- What a panic carries: a text, or an error of the Go runtime.
pub data PanicValue : Type 0 where
  string : Text → PanicValue
  runtime_error : Text → PanicValue

-- How a call ends. `exited` is runtime.Goexit: deferred calls run, and nothing recovers it.
-- `crashed` is a panic that left another goroutine: the process is gone.
pub data Outcome (A : Type 0) : Type 0 where
  returned : A → Outcome A
  panicked : PanicValue → Outcome A
  exited : Outcome A
  crashed : PanicValue → Outcome A

-- A `testing.T`, with the addresses of those that it is a subtest of.
pub record TestingT : Type 0 where
  pub name : Text
  pub ancestors : List ℕ
  pub failed : Bool
  pub skipped : Bool
  pub output : List Text

-- `testHelper`: the address of its `testing.T`, and the step that it is at.
pub record TestHelper : Type 0 where
  pub t : ℕ
  pub current_step : ℕ

-- `RetryTestHelper`; `testHelper` is embedded in it.
pub record RetryTestHelper : Type 0 where
  pub helper : TestHelper
  pub failed : Bool
  pub attempt : ℤ
  pub max_attempts : ℤ
  pub log_buffer : List Text

-- `flakyTestHelper`
pub record FlakyTestHelper : Type 0 where
  pub helper : TestHelper
  pub failed : Bool

-- `setupTestHelper`; its logger writes to `setup_log` of the world.
pub record SetupTestHelper : Type 0 where
  pub t : ℕ

-- The objects behind the interface `TestHelper`.
pub data Helper : Type 0 where
  plain : TestHelper → Helper
  retry : RetryTestHelper → Helper
  flaky : FlakyTestHelper → Helper
  setup : SetupTestHelper → Helper

-- A command given to `sh -c`: its text, its input, the environment list if one is set (else it takes
-- the environment of the process), and the KUBECONFIG of the process when it ran.
pub record Invocation : Type 0 where
  pub command : Text
  pub input : Text
  pub env : Option (List Text)
  pub kubeconfig : Option Text

pub record Reply : Type 0 where
  pub output : Text
  pub error : Option Text
  pub took : ℕ

-- Code outside of the repository: the shell with the cluster behind it, which answers a command by all
-- that it was given so far, newest first; `%q`, `%.2f` of the seconds and `%v` of a duration, a time in
-- the format 20060102150405, a format text with no arguments; the working directory and the start time;
-- the contents of files; the unified diff of two texts, or the error of making it.
pub record Outside : Type 0 where
  pub shell : List Invocation → Reply
  pub quote : Text → Text
  pub seconds : ℕ → Text
  pub duration : ℤ → Text
  pub timestamp : ℕ → Text
  pub format_alone : Text → Text
  pub working_dir : Option Text
  pub init_time : ℕ
  pub file : Text → Option Text
  pub diff : Text → Text → Text

-- `diff_body` is the file /tmp/diffbody. `found_pod` is the variable `pod` of `DeletePod`, which the closure
-- of its first retry assigns: the namespace and the name. `address_pool` is the variable `ipAddrPool` of
-- `createAddressPool`, and the two flags are the variables of package tempo.
pub record World : Type 0 where
  pub outside : Outside
  pub ts : ℕ → TestingT
  pub next_t : ℕ
  pub helpers : ℕ → Helper
  pub next_helper : ℕ
  pub env : Text → Option Text
  pub clock : ℕ
  pub trace : List Invocation
  pub setup_log : List Text
  pub diff_body : Option Text
  pub found_pod : Text × Text
  pub address_pool : Text
  pub tempo_existed_before : Bool
  pub otel_existed_before : Bool

abbrev pub Action : Type 0 → Type 0
Action A = World → Outcome A × World

abbrev pub update {ℓ} : {A : Type ℓ} → (ℕ → A) → ℕ → A → ℕ → A
update f a v b = if a == b then v else f b

module _ {A : Type 0} where
  pub pure : A → Action A
  pure a w = (returned a, w)

  pub panic : PanicValue → Action A
  panic p w = (panicked p, w)

  -- runtime.Goexit
  pub exit : Action A
  exit w = (exited, w)

  pub gets : (World → A) → Action A
  gets f w = (returned (f w), w)

unfoldable pub modify : (World → World) → Action Unit
modify f w = (returned tt, f w)

-- An `if` with no `else`.
unfoldable pub when : Bool → Action Unit → Action Unit
unfolding pure
when true m = m
when false m = pure tt

abbrev pub continue : {A B : Type 0} → (A → Action B) → Outcome A → Action B
continue f (returned a) w = f a w
continue f (panicked p) w = (panicked p, w)
continue f exited w = (exited, w)
continue f (crashed p) w = (crashed p, w)

infixl 5 ◌>>=◌ ◌>>◌
-- Unfolding this unfolds the actions above too.
unfoldable pub ◌>>=◌ : {A B : Type 0} → Action A → (A → Action B) → Action B
unfolding pure panic exit gets modify when
◌>>=◌ m f w = let (o, w') = m w in continue f o w'

abbrev pub ◌>>◌ : {A B : Type 0} → Action A → Action B → Action B
m >> n = m >>= λ _. n

-- `for _, x := range xs { body(x) }`
unfoldable pub for_each : {A : Type 0} → List A → (A → Action Unit) → Action Unit
for_each [] body = pure tt
for_each (x ∷ xs) body = do body x; for_each xs body

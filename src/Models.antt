-- ===== src/Models.antt =====
-- crates/rpytest-daemon/src/models.rs: the outcomes of a test, and the data that the daemon's
-- components share.
use rpytest.Common.{
  ℕ, ◌≡◌, refl, String, str_eq, Bool, true, false, List, Option, if◌then◌else◌, leb,
}

pub data TestOutcome : Type 0 where
  passed failed skipped error xfail xpass : TestOutcome

-- `From<&str>`: an unknown word is an error.
unfoldable pub of_str : String → TestOutcome
of_str s =
    if str_eq s "passed"
    then passed
    else if str_eq s "failed"
    then failed
    else if str_eq s "skipped"
    then skipped
    else if str_eq s "error"
    then error
    else if str_eq s "xfail"
    then xfail
    else if str_eq s "xpass"
    then xpass
    else error

-- `From<TestOutcome> for String`
unfoldable pub to_str : TestOutcome → String
to_str passed = "passed"
to_str failed = "failed"
to_str skipped = "skipped"
to_str error = "error"
to_str xfail = "xfail"
to_str xpass = "xpass"

-- `matches!(o, TestOutcome::Failed | TestOutcome::Error)`
abbrev pub is_fail : TestOutcome → Bool
is_fail failed = true
is_fail error = true
is_fail _ = false

-- An outcome that is written down and read back is the same outcome.
pub of_str-to_str : (o : TestOutcome) → of_str (to_str o) ≡ o
unfolding of_str to_str
of_str-to_str passed = refl
of_str-to_str failed = refl
of_str-to_str skipped = refl
of_str-to_str error = refl
of_str-to_str xfail = refl
of_str-to_str xpass = refl

-- The counts are `u32`.
pub data StabilityState : Type 0 where
  unknown : StabilityState
  stable : ℕ → StabilityState
  unstable : ℕ → StabilityState
  flaky : ℕ → StabilityState
  confirmed_flaky : StabilityState

unfoldable pub is_flaky : StabilityState → Bool
is_flaky (flaky streak_count) = leb 2 streak_count
is_flaky confirmed_flaky = true
is_flaky _ = false

unfoldable pub is_confirmed_flaky : StabilityState → Bool
is_confirmed_flaky confirmed_flaky = true
is_confirmed_flaky _ = false

unfoldable pub is_stable : StabilityState → Bool
is_stable (stable consecutive_passes) = true
is_stable _ = false

pub record FlakinessRecord : Type 0 where
  pub node_id : String
  pub outcomes : List String
  pub consecutive_failures : ℕ
  pub consecutive_passes : ℕ
  pub flaky_streak : ℕ
  pub total_runs : ℕ
  pub last_failure_message : Option String
  pub stability : StabilityState

-- Result of one test.
pub record TestResult : Type 0 where
  pub node_id : String
  pub outcome : TestOutcome
  pub duration_ms : ℕ
  pub message : Option String
  pub stdout : Option String
  pub stderr : Option String

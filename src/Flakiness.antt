-- ===== src/Flakiness.antt =====
-- crates/rpytest-daemon/src/flakiness.rs: the stability state machine, and the tracker that keeps a
-- record for each test. The proofs stand in the modules below.
pub mod Invariant
pub mod Records
pub mod Streaks
pub mod Window
pub mod Tracker
mod Examples
use rpytest.Common.{
  ℕ, ◌≡◌, String, str_eq, Bool, true, false, not, ◌||◌, List, [], ◌∷◌, ◌++◌, Option, none, some,
  if◌then◌else◌, leb, ltb, differ, add_u32, length, keep_last, get_last?,
}
use rpytest.Models.{
  TestOutcome, passed, failed, skipped, error, xfail, xpass, to_str, is_fail, StabilityState,
  unknown, stable, unstable, flaky, confirmed_flaky, FlakinessRecord,
}

-- What a first outcome leads to; also where a flaky test goes when it does not flip.
abbrev from_outcome : TestOutcome → StabilityState
from_outcome passed = stable 1
from_outcome failed = unstable 1
from_outcome error = unstable 1
from_outcome _ = unknown

-- `prev_outcome.map_or(false, |prev| prev_is_fail != curr_is_fail)`
abbrev is_flip : TestOutcome → Option TestOutcome → Bool
is_flip outcome none = false
is_flip outcome (some prev) = differ (is_fail prev) (is_fail outcome)

abbrev was_pass : Option TestOutcome → Bool
was_pass (some passed) = true
was_pass _ = false

abbrev was_fail : Option TestOutcome → Bool
was_fail none = false
was_fail (some prev) = is_fail prev

abbrev from_stable : ℕ → TestOutcome → StabilityState
from_stable n passed = stable (add_u32 n 1)
from_stable n failed = flaky 1
from_stable n error = flaky 1
from_stable n _ = unknown

abbrev from_unstable : ℕ → TestOutcome → StabilityState
from_unstable n passed = flaky 1
from_unstable n failed = unstable (add_u32 n 1)
from_unstable n error = unstable (add_u32 n 1)
from_unstable n _ = unknown

abbrev from_confirmed : TestOutcome → Option TestOutcome → StabilityState
from_confirmed passed prev = if was_pass prev then stable 2 else confirmed_flaky
from_confirmed failed prev = if was_fail prev then unstable 2 else confirmed_flaky
from_confirmed error prev = if was_fail prev then unstable 2 else confirmed_flaky
from_confirmed _ prev = confirmed_flaky

unfoldable pub transition : StabilityState → TestOutcome → Option TestOutcome → StabilityState
transition unknown outcome prev = from_outcome outcome
transition (stable n) outcome prev = from_stable n outcome
transition (unstable n) outcome prev = from_unstable n outcome
transition (flaky n) outcome prev =
    if is_flip outcome prev
    then (if leb 3 (add_u32 n 1) then confirmed_flaky else flaky (add_u32 n 1))
    else from_outcome outcome
transition confirmed_flaky outcome prev = from_confirmed outcome prev

-- The words that `record_outcome` reads back; any other word counts as no outcome.
abbrev pub parse_prev : String → Option TestOutcome
parse_prev s =
    if str_eq s "passed"
    then some passed
    else if str_eq s "failed"
    then some failed
    else if str_eq s "error"
    then some error
    else if str_eq s "skipped"
    then some skipped
    else if str_eq s "xfail"
    then some xfail
    else if str_eq s "xpass"
    then some xpass
    else none

-- `prev_str == "failed" || prev_str == "error"`
abbrev pub is_fail_str : String → Bool
is_fail_str s = str_eq s "failed" || str_eq s "error"

abbrev and_then : Option String → Option TestOutcome
and_then none = none
and_then (some s) = parse_prev s

abbrev count_failures : TestOutcome → ℕ → ℕ
count_failures failed n = add_u32 n 1
count_failures error n = add_u32 n 1
count_failures _ n = 0

abbrev count_passes : TestOutcome → ℕ → ℕ
count_passes passed n = add_u32 n 1
count_passes _ n = 0

abbrev failure_message : TestOutcome → Option String → Option String → Option String
failure_message failed message old = message
failure_message error message old = message
failure_message _ message old = old

abbrev count_flips : Option String → TestOutcome → ℕ → ℕ
count_flips none outcome n = n
count_flips (some prev) outcome n =
    if differ (is_fail_str prev) (is_fail outcome) then add_u32 n 1 else n

unfoldable pub new_record : String → FlakinessRecord
new_record node_id = record {
  node_id = node_id;
  outcomes = [];
  consecutive_failures = 0;
  consecutive_passes = 0;
  flaky_streak = 0;
  total_runs = 0;
  last_failure_message = none;
  stability = unknown;
}

-- The body of `record_outcome` for the record of the test.
unfoldable pub update_record : ℕ → FlakinessRecord → TestOutcome → Option String → FlakinessRecord
unfolding transition
update_record max_outcomes r outcome message =
    let prev = get_last? r.outcomes in
    record r {
      outcomes = keep_last max_outcomes (r.outcomes ++ to_str outcome ∷ []);
      consecutive_failures = count_failures outcome r.consecutive_failures;
      consecutive_passes = count_passes outcome r.consecutive_passes;
      flaky_streak = count_flips prev outcome r.flaky_streak;
      total_runs = add_u32 r.total_runs 1;
      last_failure_message = failure_message outcome message r.last_failure_message;
      stability = transition r.stability outcome (and_then prev);
    }

-- The record after a run of outcomes, none of which has a message.
pub record_all : ℕ → FlakinessRecord → List TestOutcome → FlakinessRecord
record_all max_outcomes r [] = r
record_all max_outcomes r (o ∷ os) =
    record_all max_outcomes (update_record max_outcomes r o none) os

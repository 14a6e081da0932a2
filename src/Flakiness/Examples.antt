-- ===== src/Flakiness/Examples.antt =====
-- The theorems on flakiness at concrete histories (crates/rpytest-daemon/src/flakiness.rs).
use rpytest.Common.{
  zero, suc, ap, ℕ, ◌≡◌, ◌≤◌, refl, String, true, false, List, [], ◌∷◌, ◌++◌, Option, none, some,
  arith, keep_last, ok, map,
}
use rpytest.Common.Dict.{Dict, get}
use rpytest.Models.{
  TestOutcome, passed, failed, error, to_str, is_flaky, StabilityState, unknown, stable, unstable,
  flaky, confirmed_flaky, FlakinessRecord,
}
use rpytest.Flakiness.{update_record, new_record, record_all}
use rpytest.Flakiness.Records.{IsConsistent, new_record-IsConsistent}
use rpytest.Flakiness.Streaks.{record_all-IsConsistent, flaky_needs_changes, changes}
use rpytest.Flakiness.Window.{
  alternate, alternating_is_confirmed, confirmed_recovers, outcomes-record_all,
}
use rpytest.Flakiness.Tracker.{FlakinessTracker, Files, Disk, write, save, load}
use rpytest.Flakiness.Tracker.Reload.{load-save, WellKeyed}

abbrev mixed : List TestOutcome
mixed = passed ∷ failed ∷ passed ∷ []

new_runs : (new_record "a").total_runs ≡ 0
unfolding new_record
new_runs = refl

record_all-IsConsistent_example :
    IsConsistent 20 (some passed) (record_all 20 (new_record "a") mixed)
record_all-IsConsistent_example =
    record_all-IsConsistent 20 (omega arith) none (new_record "a") mixed (omega (arith, new_runs))
      (new_record-IsConsistent 20 "a")

mixed-is_flaky : is_flaky (record_all 20 (new_record "a") mixed).stability ≡ true
unfolding is_flaky record_all update_record new_record to_str
mixed-is_flaky = refl

flaky_needs_changes_example : 2 ≤ changes none mixed
flaky_needs_changes_example =
    flaky_needs_changes 20 (omega arith) "a" mixed (omega arith) mixed-is_flaky

alternating_is_confirmed_example :
    ((record_all 20 (new_record "a") (alternate passed failed 5)).stability ≡ confirmed_flaky)
    × ((record_all 20 (new_record "a") (alternate failed passed 5)).stability ≡ confirmed_flaky)
alternating_is_confirmed_example =
    alternating_is_confirmed 20 (omega arith) "a" failed 5 refl (omega arith)

abbrev confirmed : FlakinessRecord
confirmed = record {
  node_id = "a";
  outcomes = "failed" ∷ "passed" ∷ [];
  consecutive_failures = 0;
  consecutive_passes = 1;
  flaky_streak = 4;
  total_runs = 5;
  last_failure_message = none;
  stability = confirmed_flaky;
}

confirmed_recovers_example :
    (record_all 20 confirmed (passed ∷ passed ∷ passed ∷ [])).stability ≡ stable 4
confirmed_recovers_example = confirmed_recovers 20 (omega arith) confirmed 2 refl refl (omega arith)

outcomes-record_all_example :
    (record_all 3 confirmed (passed ∷ error ∷ [])).outcomes
    ≡ keep_last 3 (confirmed.outcomes ++ map to_str (passed ∷ error ∷ []))
outcomes-record_all_example = outcomes-record_all 3 confirmed (passed ∷ error ∷ []) (omega arith)

abbrev tracker : FlakinessTracker
tracker = record {
  records = ("a", confirmed) ∷ [];
  max_outcomes = 20;
  storage_path = some "flakiness.json";
  dirty = false;
}

tracker-WellKeyed : WellKeyed tracker.records
unfolding get
tracker-WellKeyed = (refl, refl, tt)

-- A text for one record that no run has touched: the name of its test.
abbrev untouched : String → FlakinessRecord
untouched k = record {
  node_id = k;
  outcomes = [];
  consecutive_failures = 0;
  consecutive_passes = 0;
  flaky_streak = 0;
  total_runs = 0;
  last_failure_message = none;
  stability = unknown;
}

abbrev text_of :
    String → List String → ℕ → ℕ → ℕ → ℕ → Option String → StabilityState → Option String
text_of k [] zero zero zero zero none unknown = some k
text_of k _ a b c d m s = none

abbrev to_text : List FlakinessRecord → Option String
to_text [] = none
to_text (r ∷ []) =
    text_of r.node_id r.outcomes r.consecutive_failures r.consecutive_passes r.flaky_streak
      r.total_runs r.last_failure_message r.stability
to_text (r ∷ q ∷ rs) = none

abbrev of_text : String → Option (List FlakinessRecord)
of_text k = some (untouched k ∷ [])

text_of-untouched :
    (k text : String) (os : List String) (a b c d : ℕ) (m : Option String) (s : StabilityState)
    → text_of k os a b c d m s ≡ some text
    → untouched text ≡ record {
      node_id = k;
      outcomes = os;
      consecutive_failures = a;
      consecutive_passes = b;
      flaky_streak = c;
      total_runs = d;
      last_failure_message = m;
      stability = s;
    }
text_of-untouched k text [] zero zero zero zero none unknown e = ap untouched (cc)
text_of-untouched k text [] zero zero zero zero none (stable n) e = cc
text_of-untouched k text [] zero zero zero zero none (unstable n) e = cc
text_of-untouched k text [] zero zero zero zero none (flaky n) e = cc
text_of-untouched k text [] zero zero zero zero none confirmed_flaky e = cc
text_of-untouched k text [] zero zero zero zero (some m) s e = cc
text_of-untouched k text [] zero zero zero (suc d) m s e = cc
text_of-untouched k text [] zero zero (suc c) d m s e = cc
text_of-untouched k text [] zero (suc b) c d m s e = cc
text_of-untouched k text [] (suc a) b c d m s e = cc
text_of-untouched k text (o ∷ os) a b c d m s e = cc

of_text-to_text :
    (rs : List FlakinessRecord) (text : String) → to_text rs ≡ some text → of_text text ≡ some rs
of_text-to_text [] text e = cc
of_text-to_text (r ∷ []) text e =
    ap (λ q. some (q ∷ []))
      (text_of-untouched r.node_id text r.outcomes r.consecutive_failures r.consecutive_passes
        r.flaky_streak r.total_runs r.last_failure_message r.stability e)
of_text-to_text (r ∷ q ∷ rs) text e = cc

abbrev files : Files
files = record {
  to_string_pretty = to_text;
  from_str = of_text;
  can_create = λ path. true;
  can_write = λ path. true;
  can_read = λ path. true;
}

abbrev tracker_of : Dict FlakinessRecord → FlakinessTracker
tracker_of records = record {
  records = records;
  max_outcomes = 20;
  storage_path = some "f.json";
  dirty = false;
}

abbrev saved : FlakinessTracker
saved = tracker_of (("a", untouched "a") ∷ [])

abbrev disk_after : Disk
disk_after = write "f.json" (some "a") (λ path. none)

saves : save files saved (λ path. none) ≡ ok disk_after
unfolding save
saves = refl

saved-WellKeyed : WellKeyed saved.records
unfolding get
saved-WellKeyed = (refl, refl, tt)

load-save_example : load files (tracker_of []) disk_after ≡ ok saved
load-save_example =
    load-save files saved (tracker_of []) "f.json" (λ path. none) disk_after of_text-to_text refl
      saved-WellKeyed refl refl saves

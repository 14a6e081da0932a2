-- ===== src/Context/Examples.antt =====
-- Tests of the repository context, and its theorems at concrete runs.
use rpytest.Common.{
  ◌+◌, ◌≡◌, refl, String, true, false, List, [], ◌∷◌, ◌++◌, length, none, ok, keep_last, sum_of,
  arith,
}
use rpytest.Common.Dict.{get}
use rpytest.Models.{TestOutcome, passed, failed, xfail, TestResult}
use rpytest.Scheduler
use rpytest.Flakiness.Tracker.{FlakinessTracker}
use rpytest.Executor.{new_config}
use rpytest.Context.{
  TestNodeInternal, RepoContext, RunSummary, RunEnv, split_skipped, run_tests, filter_by_keyword,
}
use rpytest.Context.Summary.{uncounted, results_of, run_tests_adds_up}
use rpytest.Context.Histories.{durations, outcomes, durations_of, outcomes_of, run_tests_histories}

abbrev node : String → TestNodeInternal
node id = record {
  node_id = id;
  file_path = "a.py";
  name = id;
  class_name = none;
  line_number = 1;
  markers = "slow" ∷ [];
  skip = false;
  xfail = false;
}

abbrev skipped_node : TestNodeInternal
skipped_node = record (node "c") { skip = true }

abbrev tracker : FlakinessTracker
tracker = record { records = []; max_outcomes = 100; storage_path = none; dirty = false }

abbrev context : RepoContext
context = record {
  inventory = ("a", node "a") ∷ ("b", node "b") ∷ ("c", skipped_node) ∷ [];
  duration_history = ("a", 5 ∷ 7 ∷ []) ∷ [];
  outcome_history = ("a", "passed" ∷ "failed" ∷ []) ∷ [];
  scheduler = Scheduler.new;
  flakiness_tracker = tracker;
  executor_config = new_config 4;
  has_storage = true;
  total_runs = 0;
}

abbrev result : String → TestOutcome → TestResult
result id o = record {
  node_id = id;
  outcome = o;
  duration_ms = 9;
  message = none;
  stdout = none;
  stderr = none;
}

abbrev outcome_in_turn : List String → List TestResult
outcome_in_turn [] = []
outcome_in_turn (id ∷ []) = result id xfail ∷ []
outcome_in_turn (id ∷ id' ∷ ids) = result id passed ∷ result id' failed ∷ outcome_in_turn ids

abbrev env : RunEnv
env = record {
  cpus = 4;
  run = λ config ids. outcome_in_turn ids;
  elapsed_ms = 30;
  flush = λ t. ok t;
  save_durations = λ d. ok tt;
}

abbrev asked : List String
asked = "a" ∷ "c" ∷ "b" ∷ "new" ∷ []

found_by_name : filter_by_keyword context "a" ≡ node "a" ∷ []
unfolding filter_by_keyword
found_by_name = refl

summary :
    (run_tests env asked none none context).1
    ≡ ok (record { total = 4; passed = 1; failed = 1; skipped = 1; errors = 0; duration_ms = 30 })
unfolding run_tests get
summary = refl

as_many :
    length (results_of env asked none none context)
    ≡ length (split_skipped context.inventory asked).0
unfolding split_skipped get
as_many = refl

run_tests_adds_up_example :
    (s : RunSummary) × ((run_tests env asked none none context).1 ≡ ok s)
    × (s.total ≡ 4)
    × (s.passed
          + s.failed
          + s.skipped
          + s.errors
          + sum_of uncounted (results_of env asked none none context)
        ≡ s.total)
run_tests_adds_up_example =
    run_tests_adds_up env asked none none context as_many (λ t. (t, refl)) (λ d. refl)

two_durations : length (durations context "a") ≡ 2
unfolding get
two_durations = refl

run_tests_histories_example :
    (durations (run_tests env asked none none context).0 "a"
      ≡ keep_last 10
          (durations context "a" ++ durations_of "a" (results_of env asked none none context)))
    × (outcomes (run_tests env asked none none context).0 "a"
        ≡ outcomes context "a" ++ outcomes_of "a" (results_of env asked none none context))
run_tests_histories_example =
    run_tests_histories env asked none none context "a" (omega (arith, two_durations))

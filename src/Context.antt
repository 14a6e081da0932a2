-- ===== src/Context.antt =====
-- crates/rpytest-daemon/src/context.rs: a repository with its inventory, its histories, its scheduler
-- and its flakiness tracker, and the runs of its tests. The executor is any function from tests to
-- results (the trait TestExecutor); the clock is an argument, and so is what the storage answers.
pub mod Summary
pub mod Histories
mod Examples
use rpytest.Common.{
  ℕ, ◌+◌, String, Bool, true, false, ◌||◌, List, [], ◌∷◌, ◌++◌, map, any, filter, length, ltb,
  keep_last, get_last?, Option, none, some, Result, ok, err, if◌then◌else◌, add_u32,
}
use rpytest.Common.Dict.{Dict, get, insert, values, keys}
use rpytest.Common.Text.{has_part, is_empty_text}
use rpytest.Models.{TestOutcome, passed, failed, skipped, error, xfail, xpass, TestResult, to_str}
use rpytest.Scheduler.{TestScheduler, update_duration}
use rpytest.Flakiness.Tracker.{FlakinessTracker, record_outcome}
use rpytest.Executor.{ExecutorConfig, new_config}

pub record TestNodeInternal : Type 0 where
  pub node_id : String
  pub file_path : String
  pub name : String
  pub class_name : Option String
  pub line_number : ℕ
  pub markers : List String
  pub skip : Bool
  pub xfail : Bool

-- The parts of the context that its runs and queries use.
pub record RepoContext : Type 0 where
  pub inventory : Dict TestNodeInternal
  pub duration_history : Dict (List ℕ)
  pub outcome_history : Dict (List String)
  pub scheduler : TestScheduler
  pub flakiness_tracker : FlakinessTracker
  pub executor_config : ExecutorConfig
  pub has_storage : Bool
  pub total_runs : ℕ

abbrev pub get_node_ids : RepoContext → List String
get_node_ids c = keys c.inventory

abbrev pub get_inventory : RepoContext → List TestNodeInternal
get_inventory c = values c.inventory

unfoldable pub get_test_node : RepoContext → String → Option TestNodeInternal
unfolding get
get_test_node c node_id = get c.inventory node_id

unfoldable pub filter_by_keyword : RepoContext → String → List TestNodeInternal
filter_by_keyword c keyword =
    if is_empty_text keyword
    then get_inventory c
    else filter
        (λ n.
          has_part n.node_id keyword
          || (has_part n.name keyword || any (λ m. has_part m keyword) n.markers))
        (values c.inventory)

unfoldable pub filter_by_marker : RepoContext → String → List TestNodeInternal
filter_by_marker c marker =
    if is_empty_text marker
    then get_inventory c
    else filter (λ n. any (λ m. has_part m marker) n.markers) (values c.inventory)

-- A test that is not in the inventory runs.
abbrev pub is_skipped : Option TestNodeInternal → Bool
is_skipped none = false
is_skipped (some node) = node.skip

-- The tests to run, and how many are skipped beforehand.
unfoldable pub split_skipped : Dict TestNodeInternal → List String → List String × ℕ
unfolding get
split_skipped inventory [] = ([], 0)
split_skipped inventory (node_id ∷ node_ids) =
    let (runnable, skipped_count) = split_skipped inventory node_ids in
    if is_skipped (get inventory node_id)
    then (runnable, skipped_count + 1)
    else (node_id ∷ runnable, skipped_count)

abbrev pub update_last : TestScheduler → String → Option ℕ → TestScheduler
update_last s node_id none = s
update_last s node_id (some duration) = update_duration s node_id duration

-- The last duration of each test goes to the scheduler before a run.
unfoldable pub update_scheduler : Dict (List ℕ) → TestScheduler → TestScheduler
unfolding update_duration
update_scheduler [] s = s
update_scheduler ((node_id, durations) ∷ history) s =
    update_scheduler history (update_last s node_id (get_last? durations))

-- `entry(..).or_default()`
abbrev pub or_default {ℓ} : {A : Type ℓ} → Option (List A) → List A
or_default none = []
or_default (some xs) = xs

abbrev pub cut : List ℕ → List ℕ
cut durations = if ltb 10 (length durations) then keep_last 10 durations else durations

unfoldable pub add_duration : Dict (List ℕ) → String → ℕ → Dict (List ℕ)
unfolding get insert
add_duration d node_id duration_ms =
    insert d node_id (cut (or_default (get d node_id) ++ duration_ms ∷ []))

unfoldable pub add_outcome : Dict (List String) → String → TestOutcome → Dict (List String)
unfolding get insert to_str
add_outcome d node_id outcome = insert d node_id (or_default (get d node_id) ++ to_str outcome ∷ [])

-- What one result changes in the context.
unfoldable pub process_result : RepoContext → TestResult → RepoContext
unfolding add_duration add_outcome record_outcome update_duration
process_result c r = record c {
  duration_history = add_duration c.duration_history r.node_id r.duration_ms;
  outcome_history = add_outcome c.outcome_history r.node_id r.outcome;
  flakiness_tracker = record_outcome c.flakiness_tracker r.node_id r.outcome r.message;
  scheduler = update_duration c.scheduler r.node_id r.duration_ms;
}

pub record Counts : Type 0 where
  pub passed : ℕ
  pub failed : ℕ
  pub skipped : ℕ
  pub errors : ℕ

-- Expected failures and unexpected passes are not counted.
unfoldable pub count_outcome : TestOutcome → Counts → Counts
count_outcome passed n = record n { passed = n.passed + 1 }
count_outcome failed n = record n { failed = n.failed + 1 }
count_outcome skipped n = record n { skipped = n.skipped + 1 }
count_outcome error n = record n { errors = n.errors + 1 }
count_outcome xfail n = n
count_outcome xpass n = n

unfoldable pub process_all : RepoContext → Counts → List TestResult → RepoContext × Counts
unfolding process_result count_outcome
process_all c n [] = (c, n)
process_all c n (r ∷ rs) = process_all (process_result c r) (count_outcome r.outcome n) rs

pub record RunSummary : Type 0 where
  pub total : ℕ
  pub passed : ℕ
  pub failed : ℕ
  pub skipped : ℕ
  pub errors : ℕ
  pub duration_ms : ℕ

-- What a run meets: the processors, the results of the executor, the time that passes, and the two
-- writes of `save_state`, with what they leave of the tracker.
pub record RunEnv : Type 0 where
  pub cpus : ℕ
  pub run : ExecutorConfig → List String → List TestResult
  pub elapsed_ms : ℕ
  pub flush : FlakinessTracker → Result String FlakinessTracker
  pub save_durations : Dict (List ℕ) → Result {0, 0} String Unit

abbrev pub configured : RunEnv → Option ℕ → Option ℕ → RepoContext → RepoContext
configured env workers maxfail c = record c {
  total_runs = add_u32 c.total_runs 1;
  executor_config = record (new_config env.cpus) { workers = workers; maxfail = maxfail };
}

abbrev pub tracker_flushed :
    RunEnv → RepoContext → Result String FlakinessTracker → RepoContext × Result {0, 0} String Unit
tracker_flushed env c (err e) = (c, err e)
tracker_flushed env c (ok t) =
    (record c { flakiness_tracker = t }, env.save_durations c.duration_history)

unfoldable pub save_state : RunEnv → RepoContext → RepoContext × Result {0, 0} String Unit
save_state env c =
    if c.has_storage then tracker_flushed env c (env.flush c.flakiness_tracker) else (c, ok tt)

abbrev pub summary_of : ℕ → ℕ → ℕ → Counts → RunSummary
summary_of results_len pre_skipped_count duration_ms n = record {
  total = results_len + pre_skipped_count;
  passed = n.passed;
  failed = n.failed;
  skipped = n.skipped + pre_skipped_count;
  errors = n.errors;
  duration_ms = duration_ms;
}

abbrev pub or_summary :
    RunSummary → RepoContext × Result {0, 0} String Unit → RepoContext × Result String RunSummary
or_summary summary (c, ok u) = (c, ok summary)
or_summary summary (c, err e) = (c, err e)

abbrev pub no_counts : Counts
no_counts = record { passed = 0; failed = 0; skipped = 0; errors = 0 }

-- The context when the results are there: the executor is configured, the scheduler has the last
-- durations.
unfoldable pub prepared : RunEnv → Option ℕ → Option ℕ → RepoContext → RepoContext
unfolding update_scheduler
prepared env workers maxfail c =
    let c' = configured env workers maxfail c in
    record c' { scheduler = update_scheduler c'.duration_history c'.scheduler }

unfoldable pub run_tests :
    RunEnv
    → List String
    → Option ℕ
    → Option ℕ
    → RepoContext
    → RepoContext × Result String RunSummary
unfolding split_skipped prepared process_all save_state
run_tests env node_ids workers maxfail c =
    let (runnable, pre_skipped_count) = split_skipped c.inventory node_ids in
    let c1 = prepared env workers maxfail c in
    let results = env.run c1.executor_config runnable in
    let (c2, n) = process_all c1 no_counts results in
    or_summary (summary_of (length results) pre_skipped_count env.elapsed_ms n) (save_state env c2)

-- ===== src/Executor/Pooled.antt =====
-- `PooledExecutor` of crates/rpytest-daemon/src/executor.rs: the scheduler's batches on the worker
-- pool. The pool's workers, the schedule of its tasks and what the world answers are arguments, as
-- in Pool/Schedules; `cpus` is what `num_cpus::get` says.
use rpytest.Common.{
  ℕ, ◌+◌, ◌-◌, ◌/◌, String, List, [], ◌∷◌, Option, none, some, if◌then◌else◌, leb, length, is_empty,
  Result, ok, err,
}
use rpytest.Models.{TestResult}
use rpytest.Pool.{Externals}
use rpytest.Pool.Worker.{Worker}
use rpytest.Pool.Workers.{BatchEnv}
use rpytest.Pool.Schedules.{execute_parallel, collect}
use rpytest.Scheduler.{TestScheduler, new, update_duration as record_duration, split_balanced}
use rpytest.Executor.{ExecutorConfig, new_config}

-- The pool is its list of workers and its target size.
pub record PooledExecutor : Type 0 where
  pub pool : List Worker
  pub pool_size : ℕ
  pub scheduler : TestScheduler
  pub config : ExecutorConfig

abbrev pub new_executor : ℕ → List Worker → ℕ → PooledExecutor
new_executor cpus workers size = record {
  pool = workers;
  pool_size = size;
  scheduler = new;
  config = new_config cpus;
}

abbrev pub update_duration : PooledExecutor → String → ℕ → PooledExecutor
update_duration e node_id duration_ms = record e {
  scheduler = record_duration e.scheduler node_id duration_ms;
}

abbrev pub configure : PooledExecutor → ExecutorConfig → PooledExecutor
configure e c = record e { config = c }

abbrev pub min_batch_size : ℕ
min_batch_size = 50

abbrev pub min : ℕ → ℕ → ℕ
min a b = if leb a b then a else b

abbrev pub or_cpus : ℕ → Option ℕ → ℕ
or_cpus cpus none = cpus
or_cpus cpus (some n) = n

-- The workers that a number of tests needs.
unfoldable pub actual_workers : ℕ → Option ℕ → ℕ → ℕ
actual_workers cpus workers test_count =
    if leb test_count min_batch_size
    then 1
    else min (or_cpus cpus workers) ((test_count + min_batch_size - 1) / min_batch_size)

unfoldable pub batches_of : ℕ → PooledExecutor → List String → List (List String)
unfolding actual_workers split_balanced
batches_of cpus e node_ids =
    split_balanced e.scheduler node_ids (actual_workers cpus e.config.workers (length node_ids))

-- The results, and the executor with the workers that the run leaves.
unfoldable pub run_tests :
    Externals
    → ℕ
    → List (ℕ × BatchEnv)
    → PooledExecutor
    → List String
    → PooledExecutor × List TestResult
unfolding batches_of execute_parallel collect
run_tests ex cpus schedule e node_ids =
    if is_empty node_ids
    then (e, [])
    else let (workers, tasks) =
        execute_parallel ex e.pool_size schedule (batches_of cpus e node_ids) e.pool in
      (record e { pool = workers }, collect tasks)

abbrev pub first_result : String → List TestResult → Result String TestResult
first_result node_id [] = err node_id
first_result node_id (r ∷ rs) = ok r

-- The error holds the id that its message shows.
unfoldable pub run_test :
    Externals
    → ℕ
    → List (ℕ × BatchEnv)
    → PooledExecutor
    → String
    → PooledExecutor × Result String TestResult
unfolding run_tests
run_test ex cpus schedule e node_id =
    let (e', results) = run_tests ex cpus schedule e (node_id ∷ []) in
    (e', first_result node_id results)

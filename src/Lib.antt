-- ===== src/Lib.antt =====
-- rpytest: models of the Rust crates of the test runner, and theorems about them.
--
-- rpytest keeps a daemon that holds Python workers ready. The command line program starts and stops
-- the daemon, and sends it requests in frames over a socket. The daemon estimates how long each test
-- takes, orders the tests and splits them into batches, runs the batches on its pool of workers, and
-- records the outcomes to find flaky tests. In watch mode, changes of files lead to further runs.
--
-- The files:
-- - Common (Common/*): names passed on, Boolean tests, machine words, lists measured by native
--   numbers, dictionaries for HashMap, and the stable sort by falling key for sort_by.
-- - Models: crates/rpytest-daemon/src/models.rs, the outcomes and records that components share.
-- - Scheduler (Scheduler/*): crates/rpytest-daemon/src/scheduler.rs. The state is TestScheduler; each
--   method is the function of its name; the greedy loop of split_balanced is `assign`.
-- - Pool (Pool/*): crates/rpytest-daemon/src/pool.rs. Pool has WorkerState; Pool/Worker the methods of
--   Worker (`poll_alive` is is_alive, `shutdown_worker` is shutdown); Pool/Workers those of WorkerPool;
--   Pool/Schedules has execute_parallel: each execute_batch is a task of some phases, and a schedule
--   is a list of turns, so that tasks interleave between the places where they hold the lock.
-- - Flakiness (Flakiness/*): crates/rpytest-daemon/src/flakiness.rs. `transition` is the state machine,
--   `update_record` the work of record_outcome on one record, Flakiness/Tracker the tracker.
-- - Lifecycle (Lifecycle/*): crates/rpytest/src/daemon/lifecycle.rs. `apply_event` is the state machine,
--   Lifecycle/Operations the methods of LifecycleManager.
-- - Framing (Framing/*): crates/rpytest-ipc/src/framing.rs.
-- - Fixtures (Fixtures/*): crates/rpytest-daemon/src/fixtures.rs. The state is FixtureManager.
-- - Watch (Watch/*): crates/rpytest/src/watch/state.rs.
-- - Dependency (Dependency/*): crates/rpytest/src/watch/dependency.rs. The state is DependencyGraph;
--   `visit` is one round of the loop of compute_affected.
-- - Collector (Collector/*): crates/rpytest-daemon/src/collector.rs, the expansion of the collected tests
--   by parametrized fixtures; Collector/Ids the ids of the variants of a test.
-- - Executor (Executor/*): crates/rpytest-daemon/src/executor.rs. Executor has PythonExecutor, whose
--   processes are a World; Executor/Parse the reading of pytest's output; Executor/Chunks the batches;
--   Executor/Pooled is PooledExecutor, on Scheduler and Pool. Executor/Listing has what pytest prints.
-- - Context (Context/*): crates/rpytest-daemon/src/context.rs. RepoContext holds a Scheduler, a tracker of
--   Flakiness and the histories; run_tests runs tests on any executor.
-- - Inventory (Inventory/*): crates/rpytest-core/src/inventory/nodes.rs, with the expressions of -k and
--   -m in Inventory/Expressions and trees of them in Inventory/Printed; Inventory/Store and
--   Inventory/Storage are inventory/store.rs, over the trait of
--   crates/rpytest-core/src/storage/traits.rs. Inventory/Laws says what a backend and rmp_serde promise,
--   where each of their operations may fail; Inventory/Memory is a backend that keeps these promises.
-- - Cache (Cache/*): crates/rpytest/src/cache/mod.rs, on Inventory.
-- - Verify (Verify/*): crates/rpytest/src/verify/diff.rs, and in Verify/Counts and Verify/Compare
--   crates/rpytest/src/verify/dropin.rs.
-- The tests at concrete inputs are in the module Examples of each part.
--
-- Bounds: u32 and u64 sums wrap, as they do in a release build; theorems that need no wrap say so.
-- Two functions run on fuel: `digits` on more than the number, and `matches` on one more than the
-- characters of the expression, of which each recursive call gets fewer. Every other loop goes over a list
-- or a text, or counts down. A schedule of the pool is a list,
-- and five turns for each task are enough for it to end. The f64 average of durations is the quotient
-- of whole numbers, which is the same for at most ten durations below 2^42 ms; the theorem that bounds
-- the average asks for such durations.
--
-- Not modelled: the operating system, sockets, Python processes, serde_json and rmp_serde, which are
-- arguments of the definitions that call them, as are sled and regular expressions; the script of the
-- pool's workers, whose replies may be anything; the walk over Python syntax, the embedded interpreter,
-- the daemon's server and the setting up of contexts, the command line and the editor server; logging.
pub mod Common
pub mod Models
pub mod Cache
pub mod Collector
pub mod Context
pub mod Dependency
pub mod Executor
pub mod Fixtures
pub mod Flakiness
pub mod Framing
pub mod Inventory
pub mod Lifecycle
pub mod Pool
pub mod Scheduler
pub mod Verify
pub mod Watch

-- ===== src/Pool/Schedules.antt =====
-- `execute_parallel` of crates/rpytest-daemon/src/pool.rs: one task for each batch, each an
-- `execute_batch`. A task gives way to others between the places where it holds the pool's lock, so
-- it is a machine with a few phases, and a schedule is any list of turns. What the world answers may
-- differ at each turn. A task that panics ends the program (`panic = "abort"`), so a join does not fail.
use rpytest.Common.{
  ℕ, zero, suc, String, Bool, true, false, Option, none, some, List, [], ◌∷◌, ◌++◌, map, Result, ok,
  err, if◌then◌else◌, is_empty,
}
use rpytest.Models.{TestResult}
use rpytest.Pool.{WorkerError, Externals}
use rpytest.Pool.Worker.{Worker, run_tests, spawn}
use rpytest.Pool.Workers.{BatchEnv, acquire, release, ensure_workers, or_errors, exhausted}

pub data Task : Type 0 where
  queued : List String → Task
  spawns_one : List String → Task
  holds : List String → Worker → Task
  ran : Worker → List TestResult → Task
  returned done : List TestResult → Task

abbrev pub acquired : List String → List Worker × Option Worker → List Worker × Task
acquired tests (ws, some w) = (ws, holds tests w)
acquired tests (ws, none) = (ws, spawns_one tests)

abbrev pub with_spare : Externals → List String → Result WorkerError Worker → Task
with_spare ex tests (ok w) = holds tests w
with_spare ex tests (err e) = done (exhausted ex tests e)

abbrev pub finished_run :
    Externals → List String → Worker × Result WorkerError (List TestResult) → Task
finished_run ex tests (w, result) = ran w (or_errors ex tests result)

-- One turn of a task.
unfoldable pub advance : Externals → BatchEnv → ℕ → List Worker → Task → List Worker × Task
unfolding acquire run_tests release ensure_workers spawn
advance ex env size ws (queued tests) =
    if is_empty tests then (ws, done []) else acquired tests (acquire env.try_wait ws)
advance ex env size ws (spawns_one tests) = (ws, with_spare ex tests (spawn ex env.spare 999))
advance ex env size ws (holds tests w) = (ws, finished_run ex tests (run_tests ex env.run w))
advance ex env size ws (ran w results) = (release size w ws, returned results)
advance ex env size ws (returned results) = (ensure_workers ex env.spawns size ws, done results)
advance ex env size ws (done results) = (ws, done results)

abbrev pub second : List Worker × Task → List Task → List Worker × List Task
second (ws, t) ts = (ws, t ∷ ts)

abbrev pub behind : Task → List Worker × List Task → List Worker × List Task
behind t (ws, ts) = (ws, t ∷ ts)

-- One turn of the task at a place.
unfoldable pub turn :
    Externals → BatchEnv → ℕ → ℕ → List Worker → List Task → List Worker × List Task
unfolding advance
turn ex env size i ws [] = (ws, [])
turn ex env size zero ws (t ∷ ts) = second (advance ex env size ws t) ts
turn ex env size (suc i) ws (t ∷ ts) = behind t (turn ex env size i ws ts)

unfoldable pub run_turns :
    Externals → ℕ → List (ℕ × BatchEnv) → List Worker → List Task → List Worker × List Task
unfolding turn
run_turns ex size [] ws ts = (ws, ts)
run_turns ex size ((i, env) ∷ rest) ws ts =
    let (ws', ts') = turn ex env size i ws ts in run_turns ex size rest ws' ts'

unfoldable pub is_done : Task → Bool
is_done (done results) = true
is_done _ = false

abbrev pub result_of : Task → List TestResult
result_of (done results) = results
result_of _ = []

-- The loop over the handles: the results stand in the order of the batches.
unfoldable pub collect : List Task → List TestResult
collect [] = []
collect (t ∷ ts) = result_of t ++ collect ts

-- `execute_parallel` under a schedule: the pool it leaves, and its results once every task is done.
unfoldable pub execute_parallel :
    Externals → ℕ → List (ℕ × BatchEnv) → List (List String) → List Worker → List Worker × List Task
unfolding run_turns
execute_parallel ex size schedule batches ws = run_turns ex size schedule ws (map queued batches)

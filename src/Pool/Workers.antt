-- ===== src/Pool/Workers.antt =====
-- `WorkerPool` of crates/rpytest-daemon/src/pool.rs. The vector of available workers is a list whose
-- head is the vector's end, where the code pushes and pops. `size` is the pool's target size.
use Prim.Native.String.{◌++◌ as append}
use rpytest.Common.{
  ℕ, zero, suc, ◌+◌, ◌-◌, String, not, Option, none, some, List, [], ◌∷◌, map, Result, ok, err,
  if◌then◌else◌, ltb, length, is_empty,
}
use rpytest.Models.{TestResult, error}
use rpytest.Pool.{WorkerError, Externals, Wait, is_ready}
use rpytest.Pool.Worker.{
  Worker, SpawnEnv, spawn, RunEnv, run_tests, needs_recycle, poll_alive, shutdown_worker,
}

-- What the world answers in one `execute_batch`: whether each child still runs, the start of a spare
-- worker, the run of the tests, and the starts of workers for the pool, by their id.
pub record BatchEnv : Type 0 where
  pub try_wait : ℕ → Wait
  pub spare : SpawnEnv
  pub run : RunEnv
  pub spawns : ℕ → SpawnEnv

abbrev pub or_skip : List Worker → Result WorkerError Worker → List Worker
or_skip ws (ok w) = w ∷ ws
or_skip ws (err e) = ws

-- `for i in current..size`, with `n` of them left
unfoldable pub spawn_from : Externals → (ℕ → SpawnEnv) → ℕ → ℕ → List Worker → List Worker
spawn_from ex spawns zero i ws = ws
spawn_from ex spawns (suc n) i ws =
    spawn_from ex spawns n (i + 1) (or_skip ws (spawn ex (spawns i) i))

unfoldable pub ensure_workers : Externals → (ℕ → SpawnEnv) → ℕ → List Worker → List Worker
unfolding spawn_from
ensure_workers ex spawns size ws =
    let current = length ws in
    if ltb current size then spawn_from ex spawns (size - current) current ws else ws

unfoldable pub new : Externals → (ℕ → SpawnEnv) → ℕ → List Worker
unfolding ensure_workers
new ex spawns size = ensure_workers ex spawns size []

unfoldable pub acquire : (ℕ → Wait) → List Worker → List Worker × Option Worker
unfolding poll_alive is_ready
acquire try_wait [] = ([], none)
acquire try_wait (worker ∷ ws) =
    let rest = acquire try_wait ws in
    let (w, alive) = poll_alive try_wait worker in
    if not alive
    then rest
    else if needs_recycle w
    then rest
    else if is_ready w.state
    then (ws, some w)
    else rest

unfoldable pub release : ℕ → Worker → List Worker → List Worker
unfolding is_ready
release size w ws =
    if not (is_ready w.state) then ws else if ltb (length ws) size then w ∷ ws else ws

abbrev pub error_result : String → String → TestResult
error_result message id = record {
  node_id = id;
  outcome = error;
  duration_ms = 0;
  message = some message;
  stdout = none;
  stderr = none;
}

-- The worker of a batch: one of the pool, or one started for it.
abbrev pub or_spawn : Externals → SpawnEnv → Option Worker → Result WorkerError Worker
or_spawn ex spare (some w) = ok w
or_spawn ex spare none = spawn ex spare 999

abbrev pub or_errors :
    Externals → List String → Result WorkerError (List TestResult) → List TestResult
or_errors ex tests (ok results) = results
or_errors ex tests (err e) = map (error_result (append "Worker error: " (ex.display e))) tests

abbrev pub exhausted : Externals → List String → WorkerError → List TestResult
exhausted ex tests e = map (error_result (append "Worker pool exhausted: " (ex.display e))) tests

abbrev pub run_and_return :
    Externals
    → BatchEnv
    → ℕ
    → List String
    → List Worker
    → Result WorkerError Worker
    → List Worker × List TestResult
run_and_return ex env size tests ws (err e) = (ws, exhausted ex tests e)
run_and_return ex env size tests ws (ok w) =
    let (worker, result) = run_tests ex env.run w in
    (ensure_workers ex env.spawns size (release size worker ws), or_errors ex tests result)

unfoldable pub execute_batch :
    Externals → BatchEnv → ℕ → List String → List Worker → List Worker × List TestResult
unfolding acquire run_tests release ensure_workers spawn
execute_batch ex env size tests ws =
    if is_empty tests
    then (ws, [])
    else let (rest, found) = acquire env.try_wait ws in
      run_and_return ex env size tests rest (or_spawn ex env.spare found)

-- The pool is empty after it, and the workers are those it has shut down.
unfoldable pub shutdown : List Worker → List Worker × List Worker
unfolding shutdown_worker
shutdown ws = ([], map shutdown_worker ws)

unfoldable pub available_count : List Worker → ℕ
available_count ws = length ws

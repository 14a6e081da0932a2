-- ===== src/Pool/Batch.antt =====
-- `execute_batch` of crates/rpytest-daemon/src/pool.rs as a whole, and as the phases of its task.
use rpytest.Common.{
  ℕ, zero, suc, ◌≡◌, refl, String, List, [], ◌∷◌, Option, none, some, Result, ok, err,
}
use rpytest.Models.{TestResult}
use rpytest.Pool.{WorkerError, Externals}
use rpytest.Pool.Worker.{Worker, spawn}
use rpytest.Pool.Workers.{BatchEnv, acquire, or_spawn, run_and_return, execute_batch}
use rpytest.Pool.Schedules.{Task, queued, done, advance, acquired, with_spare}

-- One task alone, for some turns.
unfoldable pub turns : Externals → BatchEnv → ℕ → ℕ → List Worker × Task → List Worker × Task
unfolding advance
turns ex env size zero (ws, t) = (ws, t)
turns ex env size (suc n) (ws, t) = turns ex env size n (advance ex env size ws t)

finished : List Worker × List TestResult → List Worker × Task
finished (ws, rs) = (ws, done rs)

with_spare-turns :
    (ex : Externals) (env : BatchEnv) (size : ℕ) (tests : List String) (ws : List Worker)
    (r : Result WorkerError Worker)
    → turns ex env size 3 (ws, with_spare ex tests r)
      ≡ finished (run_and_return ex env size tests ws r)
unfolding turns advance finished
with_spare-turns ex env size tests ws (ok w) = refl
with_spare-turns ex env size tests ws (err e) = refl

acquired-turns :
    (ex : Externals) (env : BatchEnv) (size : ℕ) (tests : List String)
    (r : List Worker × Option Worker)
    → turns ex env size 4 (acquired tests r)
      ≡ finished (run_and_return ex env size tests r.0 (or_spawn ex env.spare r.1))
unfolding turns advance finished
acquired-turns ex env size tests (ws, some w) = refl
acquired-turns ex env size tests (ws, none) =
    with_spare-turns ex env size tests ws (spawn ex env.spare 999)

-- A task that takes five turns with no other between them does what `execute_batch` does.
pub execute_batch-turns :
    (ex : Externals) (env : BatchEnv) (size : ℕ) (tests : List String) (ws : List Worker)
    → turns ex env size 5 (ws, queued tests)
      ≡ ((execute_batch ex env size tests ws).0, done (execute_batch ex env size tests ws).1)
unfolding execute_batch turns advance finished
execute_batch-turns ex env size [] ws = refl
execute_batch-turns ex env size (t ∷ ts) ws =
    acquired-turns ex env size (t ∷ ts) (acquire env.try_wait ws)

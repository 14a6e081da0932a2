-- ===== src/Pool/Invariant.antt =====
-- What is always true of the pool's workers (crates/rpytest-daemon/src/pool.rs).
use rpytest.Common.{
  ℕ, zero, suc, ◌+◌, ◌-◌, ◌≤◌, ◌<◌, ◌≡◌, refl, String, true, Option, none, some, List, [], ◌∷◌, map,
  Result, ok, err, ltb, length, All, arith, Bool-cases, inl, inr,
}
use rpytest.Models.{TestResult}
use rpytest.Pool.{
  ready, dead, recycling, busy, spawning, WorkerState, WorkerError, Externals, Wait, is_ready,
}
use rpytest.Pool.Worker.{
  Worker, SpawnEnv, spawn, with_child, started, wait_ready, RunEnv, run_tests, execute_tests,
  after_run, poll_alive, polled,
}
use rpytest.Pool.Workers.{BatchEnv, new, or_skip, spawn_from, ensure_workers, acquire, release}
use rpytest.Pool.Schedules.{
  Task, queued, spawns_one, holds, ran, returned, done, advance, turn, run_turns, acquired,
  with_spare, execute_parallel,
}

-- A worker that may run tests: ready, with runs left.
abbrev pub IsIdle : Worker → Type 0
IsIdle w = (is_ready w.state ≡ true) × (w.run_count < w.max_runs)

-- A pool of idle workers, at most as many as its size.
abbrev pub IsPool : ℕ → List Worker → Type 0
IsPool size ws = (length ws ≤ size) × All IsIdle ws

-- A task that runs holds an idle worker; one that ran has a worker with runs left, if it is ready.
abbrev pub IsTask : Task → Type 0
IsTask (holds tests w) = IsIdle w
IsTask (ran w results) = is_ready w.state ≡ true → w.run_count < w.max_runs
IsTask _ = Unit

started-IsIdle :
    (child id : ℕ) (w : Worker) (r : Result WorkerError (Unit {0}))
    → started (record { child = child; id = id; state = spawning; run_count = 0; max_runs = 100 }) r
      ≡ ok w
    → IsIdle w
unfolding is_ready
started-IsIdle child id w (ok u) e = ground arith
started-IsIdle child id w (err x) e = ground arith

with_child-IsIdle :
    (ex : Externals) (env : SpawnEnv) (id : ℕ) (w : Worker) (r : Result String ℕ)
    → with_child ex env id r ≡ ok w
    → IsIdle w
with_child-IsIdle ex env id w (ok child) e =
    ground (arith, started-IsIdle child id w (wait_ready ex id env.reply))
with_child-IsIdle ex env id w (err x) e = cc

pub spawn-IsIdle :
    (ex : Externals) (env : SpawnEnv) (id : ℕ) (w : Worker) → spawn ex env id ≡ ok w → IsIdle w
unfolding spawn
spawn-IsIdle ex env id w e = with_child-IsIdle ex env id w env.child e

or_skip-IsIdle :
    (ws : List Worker) (r : Result WorkerError Worker)
    → All IsIdle ws
    → ((w : Worker) → r ≡ ok w → IsIdle w)
    → All IsIdle (or_skip ws r) × (length (or_skip ws r) ≤ suc (length ws))
or_skip-IsIdle ws (ok w) a k = ((k w refl, a), omega arith)
or_skip-IsIdle ws (err e) a k = (a, omega arith)

spawn_from-IsPool :
    (ex : Externals) (spawns : ℕ → SpawnEnv) (n i size : ℕ) (ws : List Worker)
    → n + length ws ≤ size
    → All IsIdle ws
    → IsPool size (spawn_from ex spawns n i ws)
unfolding spawn_from
spawn_from-IsPool ex spawns zero i size ws h a = (omega arith, a)
spawn_from-IsPool ex spawns (suc n) i size ws h a =
    let r = spawn ex (spawns i) i in
    let o = or_skip-IsIdle ws r a (spawn-IsIdle ex (spawns i) i) in
    spawn_from-IsPool ex spawns n (i + 1) size (or_skip ws r) (omega (arith, o.1)) o.0

pub ensure_workers-IsPool :
    (ex : Externals) (spawns : ℕ → SpawnEnv) (size : ℕ) (ws : List Worker)
    → IsPool size ws
    → IsPool size (ensure_workers ex spawns size ws)
unfolding ensure_workers
ensure_workers-IsPool ex spawns size ws h = elim (Bool-cases (ltb (length ws) size)) [
  | inl e ↦
      rw e (spawn_from-IsPool ex spawns (size - length ws) (length ws) size ws (ground arith) h.1)
  | inr e ↦ rw e h
]

pub new-IsPool :
    (ex : Externals) (spawns : ℕ → SpawnEnv) (size : ℕ) → IsPool size (new ex spawns size)
unfolding new
new-IsPool ex spawns size = ensure_workers-IsPool ex spawns size [] (omega arith, tt)

abbrev Acquired : ℕ → List Worker × Option Worker → Type 0
Acquired size r = IsPool size r.0 × ((w : Worker) → r.1 ≡ some w → IsIdle w)

-- A worker that is alive is the one that was asked about, unchanged.
poll_alive_same :
    (try_wait : ℕ → Wait) (w : Worker)
    → (poll_alive try_wait w).1 ≡ true
    → (poll_alive try_wait w).0 ≡ w
unfolding poll_alive
poll_alive_same try_wait w h = go w.state (try_wait w.child) h
  where
    go : (s : WorkerState) (a : Wait) → (polled w s a).1 ≡ true → (polled w s a).0 ≡ w
    go spawning a e = ground arith
    go ready a e = ground arith
    go (busy t) a e = ground arith
    go (recycling r) a e = ground arith
    go (dead c) a e = ground arith

pub acquire-IsPool :
    (try_wait : ℕ → Wait) (size : ℕ) (ws : List Worker)
    → IsPool size ws
    → Acquired size (acquire try_wait ws)
unfolding acquire
acquire-IsPool try_wait size [] h = (h, λ w e. ground arith)
acquire-IsPool try_wait size (w ∷ ws) h =
    let rest = acquire-IsPool try_wait size ws (omega (arith, h.0), h.1.1) in
    elim (Bool-cases (poll_alive try_wait w).1) [
      | inl e ↦ rw (e, poll_alive_same try_wait w e) (ground arith)
      | inr e ↦ rw e rest
    ]

pub release-IsPool :
    (size : ℕ) (w : Worker) (ws : List Worker)
    → IsPool size ws
    → (is_ready w.state ≡ true → w.run_count < w.max_runs)
    → IsPool size (release size w ws)
unfolding release
release-IsPool size w ws h k = ground arith

after_run-IsTask :
    (w : Worker) (r : Result WorkerError (List TestResult))
    → is_ready (after_run w r).state ≡ true
    → (after_run w r).run_count < (after_run w r).max_runs
unfolding is_ready
after_run-IsTask w (ok results) e = ground arith
after_run-IsTask w (err x) e = ground arith

run_tests-IsTask :
    (ex : Externals) (env : RunEnv) (w : Worker)
    → IsIdle w
    → is_ready (run_tests ex env w).0.state ≡ true
    → (run_tests ex env w).0.run_count < (run_tests ex env w).0.max_runs
unfolding run_tests
run_tests-IsTask ex env w h e =
    ground (arith, after_run-IsTask (record w { state = busy env.now }) (execute_tests ex env w.id))

or_spawn_with_spare :
    (ex : Externals) (tests : List String) (r : Result WorkerError Worker)
    → ((w : Worker) → r ≡ ok w → IsIdle w)
    → IsTask (with_spare ex tests r)
or_spawn_with_spare ex tests (ok w) k = k w refl
or_spawn_with_spare ex tests (err e) k = tt

acquired-IsTask :
    (size : ℕ) (tests : List String) (r : List Worker × Option Worker)
    → Acquired size r
    → IsPool size (acquired tests r).0 × IsTask (acquired tests r).1
acquired-IsTask size tests (ws, some w) h = (h.0, h.1 w refl)
acquired-IsTask size tests (ws, none) h = (h.0, tt)

pub advance-IsPool :
    (ex : Externals) (env : BatchEnv) (size : ℕ) (ws : List Worker) (t : Task)
    → IsPool size ws
    → IsTask t
    → IsPool size (advance ex env size ws t).0 × IsTask (advance ex env size ws t).1
unfolding advance
advance-IsPool ex env size ws (queued []) h k = (h, tt)
advance-IsPool ex env size ws (queued (test ∷ tests)) h k =
    acquired-IsTask size (test ∷ tests) (acquire env.try_wait ws)
      (acquire-IsPool env.try_wait size ws h)
advance-IsPool ex env size ws (spawns_one tests) h k =
    (h, or_spawn_with_spare ex tests (spawn ex env.spare 999) (spawn-IsIdle ex env.spare 999))
advance-IsPool ex env size ws (holds tests w) h k = (h, run_tests-IsTask ex env.run w k)
advance-IsPool ex env size ws (ran w results) h k = (release-IsPool size w ws h k, tt)
advance-IsPool ex env size ws (returned results) h k =
    (ensure_workers-IsPool ex env.spawns size ws h, tt)
advance-IsPool ex env size ws (done results) h k = (h, tt)

-- All of `execute_parallel` at one moment.
abbrev pub IsValid : ℕ → List Worker × List Task → Type 0
IsValid size (ws, ts) = IsPool size ws × All IsTask ts

turn-IsValid :
    (ex : Externals) (env : BatchEnv) (size i : ℕ) (ws : List Worker) (ts : List Task)
    → IsPool size ws
    → All IsTask ts
    → IsValid size (turn ex env size i ws ts)
unfolding turn
turn-IsValid ex env size i ws [] h a = (h, tt)
turn-IsValid ex env size zero ws (t ∷ ts) h a =
    let next = advance-IsPool ex env size ws t h a.0 in (next.0, (next.1, a.1))
turn-IsValid ex env size (suc i) ws (t ∷ ts) h a =
    let next = turn-IsValid ex env size i ws ts h a.1 in (next.0, (a.0, next.1))

run_turns-IsValid :
    (ex : Externals) (size : ℕ) (schedule : List (ℕ × BatchEnv)) (ws : List Worker) (ts : List Task)
    → IsPool size ws
    → All IsTask ts
    → IsValid size (run_turns ex size schedule ws ts)
unfolding run_turns
run_turns-IsValid ex size [] ws ts h a = (h, a)
run_turns-IsValid ex size ((i, env) ∷ rest) ws ts h a =
    let next = turn-IsValid ex env size i ws ts h a in
    run_turns-IsValid ex size rest _ _ next.0 next.1

queued-IsTask : (batches : List (List String)) → All IsTask (map queued batches)
queued-IsTask [] = tt
queued-IsTask (b ∷ bs) = (tt, queued-IsTask bs)

-- Whatever the order in which the batches' tasks take their turns and whatever the world answers,
-- a pool that has at most `size` workers, each ready with runs left, is such a pool again, and each
-- task that is about to run its tests holds a ready worker with runs left.
pub execute_parallel-IsValid :
    (ex : Externals) (size : ℕ) (schedule : List (ℕ × BatchEnv)) (batches : List (List String))
    (ws : List Worker)
    → IsPool size ws
    → IsValid size (execute_parallel ex size schedule batches ws)
unfolding execute_parallel
execute_parallel-IsValid ex size schedule batches ws h =
    run_turns-IsValid ex size schedule ws (map queued batches) h (queued-IsTask batches)

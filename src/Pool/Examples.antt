-- ===== src/Pool/Examples.antt =====
-- The theorems on the pool at concrete workers (crates/rpytest-daemon/src/pool.rs).
use rpytest.Common.{
  ℕ, ◌≡◌, ◌⊎◌, refl, String, str_eq, true, false, List, [], ◌∷◌, Option, none, ok, arith,
  if◌then◌else◌,
}
use rpytest.Pool.{
  RecycleReason, ready, recycling, unhealthy, dead, is_ready, is_alive, transition_to,
  WorkerResponse, Externals, line, Wait, going,
}
use rpytest.Pool.Worker.{Worker, SpawnEnv, poll_alive}
use rpytest.Pool.Workers.{BatchEnv}
use rpytest.Pool.Transitions.{transition_to_allowed, poll_alive_allowed}
use rpytest.Pool.Schedules.{execute_parallel}
use rpytest.Pool.Invariant.{IsPool, IsValid, execute_parallel-IsValid}

-- A line "ready" is the start of a worker; any other line is a result for the test that it names.
abbrev parse : String → WorkerResponse
parse text =
    if str_eq text "ready"
    then record { status = "ready"; exit_code = 0; results = []; message = none }
    else record {
      status = "complete";
      exit_code = 0;
      results = record { nodeid = text; outcome = "passed"; duration = 1; message = none } ∷ [];
      message = none;
    }

abbrev externals : Externals
externals = record { from_str = λ text. ok (parse text); display = λ e. "error"; millis = λ d. d }

abbrev spawns : SpawnEnv
spawns = record { child = ok 5; has_stdin = true; has_stdout = true; reply = line "ready" }

abbrev env_for : String → BatchEnv
env_for test = record {
  try_wait = λ child. going;
  spare = spawns;
  run = record { now = 1; to_string = ok ""; write_all = ok tt; flush = ok tt; reply = line test };
  spawns = λ id. spawns;
}

abbrev worker : Worker
worker = record { child = 1; id = 0; state = ready; run_count = 99; max_runs = 100 }

worker_ready : is_ready worker.state ≡ true
unfolding is_ready
worker_ready = refl

one_worker : IsPool 2 (worker ∷ [])
one_worker = (omega arith, ((worker_ready, omega arith), tt))

transition_to_allowed_example :
    (dead none ≡ dead none)
    × (is_alive (recycling unhealthy) ≡ true
        ⊎ ((r : RecycleReason) × (c : Option ℕ) × (recycling unhealthy ≡ recycling r)
            × (dead none ≡ dead c)))
unfolding transition_to
transition_to_allowed_example =
    transition_to_allowed (recycling unhealthy) (dead none) (dead none) refl

abbrev all_going : ℕ → Wait
all_going child = going

poll_alive_allowed_example :
    ((poll_alive all_going worker).1 ≡ true
      → ((poll_alive all_going worker).0 ≡ worker) × (all_going 1 ≡ going))
    × ((poll_alive all_going worker).1 ≡ false
        → ((c : Option ℕ) × ((poll_alive all_going worker).0.state ≡ dead c)))
poll_alive_allowed_example = poll_alive_allowed all_going worker

-- Two tasks that take turns.
abbrev zip_turns : List (ℕ × BatchEnv)
zip_turns =
    (0, env_for "a")
    ∷ (1, env_for "b")
    ∷ (1, env_for "b")
    ∷ (0, env_for "a")
    ∷ (1, env_for "b")
    ∷ (0, env_for "a")
    ∷ (0, env_for "a")
    ∷ (1, env_for "b")
    ∷ (1, env_for "b")
    ∷ (0, env_for "a")
    ∷ []

abbrev batches : List (List String)
batches = ("a" ∷ []) ∷ ("b" ∷ []) ∷ []

execute_parallel-IsValid_example :
    IsValid 2 (execute_parallel externals 2 zip_turns batches (worker ∷ []))
execute_parallel-IsValid_example =
    execute_parallel-IsValid externals 2 zip_turns batches (worker ∷ []) one_worker

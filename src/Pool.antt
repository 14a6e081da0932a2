-- ===== src/Pool.antt =====
-- crates/rpytest-daemon/src/pool.rs: the states of a worker process and their transitions, what a
-- worker and its replies are, and the parts of the world that a worker meets. An `Instant` is a
-- number, an exit code is its bits, a child process is a handle, and an `f64` is its bits.
pub mod Worker
pub mod Workers
pub mod Transitions
pub mod Schedules
pub mod Invariant
pub mod Answers
pub mod Parallel
pub mod Batch
mod Examples
use rpytest.Common.{
  ℕ, String, Bool, true, false, Option, none, some, List, Result, ok, err, if◌then◌else◌, ◌≡◌, refl,
  arith, ◌⊎◌, inl, inr,
}
use rpytest.Models.{TestOutcome, TestResult, of_str}

pub data RecycleReason : Type 0 where
  max_runs_reached unhealthy explicit_shutdown : RecycleReason

pub data WorkerState : Type 0 where
  spawning ready : WorkerState
  busy : ℕ → WorkerState
  recycling : RecycleReason → WorkerState
  dead : Option ℕ → WorkerState

unfoldable pub is_ready : WorkerState → Bool
is_ready ready = true
is_ready _ = false

unfoldable pub is_busy : WorkerState → Bool
is_busy (busy started_at) = true
is_busy _ = false

unfoldable pub is_alive : WorkerState → Bool
is_alive spawning = true
is_alive ready = true
is_alive (busy started_at) = true
is_alive _ = false

unfoldable pub is_terminal : WorkerState → Bool
is_terminal (recycling reason) = true
is_terminal (dead exit_code) = true
is_terminal _ = false

abbrev valid : WorkerState → WorkerState → Bool
valid spawning ready = true
valid spawning (dead c) = true
valid ready (busy t) = true
valid ready (recycling r) = true
valid ready (dead c) = true
valid (busy t) ready = true
valid (busy t) (recycling r) = true
valid (busy t) (dead c) = true
valid (recycling r) (dead c) = true
valid (dead c) _ = false
valid _ _ = false

-- The error holds the two states that its message shows.
unfoldable pub transition_to :
    WorkerState → WorkerState → Result (WorkerState × WorkerState) WorkerState
transition_to s next = if valid s next then ok next else err (s, next)

-- One result of a worker; `duration` is the bits of an `f64`.
pub record WorkerResult : Type 0 where
  pub nodeid : String
  pub outcome : String
  pub duration : ℕ
  pub message : Option String

pub record WorkerResponse : Type 0 where
  pub status : String
  pub exit_code : ℕ
  pub results : List WorkerResult
  pub message : Option String

-- When a line is read: the messages for it differ.
pub data Stage : Type 0 where
  startup test_run : Stage

-- Each way in which `spawn` and `run_tests` fail, with the id of the worker and what the message of
-- the source shows.
pub data WorkerError : Type 0 where
  spawn_failed read_failed unexpected_status : ℕ → String → WorkerError
  write_failed flush_failed reported : ℕ → String → WorkerError
  no_stdin no_stdout : ℕ → WorkerError
  timed_out : Stage → ℕ → WorkerError
  invalid_response : Stage → ℕ → String → String → WorkerError
  cannot_run : ℕ → WorkerState → WorkerError
  serialize_failed : String → WorkerError

-- Code of other crates, and the float product `(duration * 1000.0) as u64`.
pub record Externals : Type 0 where
  pub from_str : String → Result String WorkerResponse
  pub display : WorkerError → String
  pub millis : ℕ → ℕ

-- `into_test_result`
unfoldable pub into_test_result : Externals → WorkerResult → TestResult
unfolding of_str
into_test_result ex r = record {
  node_id = r.nodeid;
  outcome = of_str r.outcome;
  duration_ms = ex.millis r.duration;
  message = r.message;
  stdout = none;
  stderr = none;
}

-- What comes of reading one line within the time allowed.
pub data Reply : Type 0 where
  late : Reply
  broken line : String → Reply

-- What `try_wait` says of a child: still running, exited with a code, or an error.
pub data Wait : Type 0 where
  going : Wait
  exited : Option ℕ → Wait
  unknown : Wait

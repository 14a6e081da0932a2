-- ===== src/Lifecycle.antt =====
-- crates/rpytest/src/daemon/lifecycle.rs: the state machine that starts, stops, checks and recovers
-- the daemon process. Here are the states, the events and the manager; the operations are below.
-- A process id and a restart count are `u32`; an `Instant` is a number; an exit code is its bits.
pub mod Operations
pub mod Invariant
pub mod Transitions
pub mod Stopping
pub mod Recovery
pub mod Health
mod Examples
use rpytest.Common.{
  ℕ, ◌*◌, ◌%◌, ◌^◌, String, Bool, true, false, not, Option, none, some, if◌then◌else◌, leb, add_u32,
  mul_u64, Result, ok, err,
}

pub data DaemonState : Type 0 where
  stopped starting running unhealthy shutting_down : DaemonState

unfoldable pub is_alive : DaemonState → Bool
is_alive starting = true
is_alive running = true
is_alive unhealthy = true
is_alive _ = false

unfoldable pub can_start : DaemonState → Bool
can_start stopped = true
can_start unhealthy = true
can_start _ = false

unfoldable pub can_stop : DaemonState → Bool
can_stop starting = true
can_stop running = true
can_stop unhealthy = true
can_stop _ = false

-- The same state is always allowed.
unfoldable pub can_transition_to : DaemonState → DaemonState → Bool
can_transition_to stopped starting = true
can_transition_to starting running = true
can_transition_to starting unhealthy = true
can_transition_to starting stopped = true
can_transition_to running unhealthy = true
can_transition_to running shutting_down = true
can_transition_to unhealthy starting = true
can_transition_to unhealthy shutting_down = true
can_transition_to shutting_down stopped = true
can_transition_to stopped stopped = true
can_transition_to starting starting = true
can_transition_to running running = true
can_transition_to unhealthy unhealthy = true
can_transition_to shutting_down shutting_down = true
can_transition_to _ _ = false

pub data LifecycleEvent : Type 0 where
  start_requested stop_requested health_check_passed : LifecycleEvent
  startup_confirmed recovery_initiated : ℕ → LifecycleEvent
  startup_failed health_check_failed : String → LifecycleEvent
  process_exited : Option ℕ → LifecycleEvent

pub record HealthCheckResult : Type 0 where
  pub healthy : Bool
  pub response_time_ms : ℕ
  pub timestamp : ℕ
  pub error : Option String

-- The part of `LifecycleConfig` that the transitions read.
pub record LifecycleConfig : Type 0 where
  pub max_restarts : ℕ
  pub restart_backoff_ms : ℕ

pub record LifecycleManager : Type 0 where
  pub config : LifecycleConfig
  pub current_state : DaemonState
  pub restart_count : ℕ
  pub start_time : Option ℕ
  pub last_health_check : Option HealthCheckResult
  pub tracked_pid : Option ℕ

unfoldable pub new : LifecycleConfig → LifecycleManager
new config = record {
  config = config;
  current_state = stopped;
  restart_count = 0;
  start_time = none;
  last_health_check = none;
  tracked_pid = none;
}

abbrev enter : DaemonState → LifecycleManager → LifecycleManager
enter s m = record m { current_state = s }

abbrev forget_process : LifecycleManager → LifecycleManager
forget_process m = record m { current_state = stopped; start_time = none; tracked_pid = none }

-- The match of `apply_event` on the current state and the event; `now` is `Instant::now()`.
abbrev pub on_event : DaemonState → LifecycleEvent → ℕ → LifecycleManager → LifecycleManager
on_event stopped start_requested now m = enter starting m
on_event unhealthy start_requested now m = enter starting m
on_event starting (startup_confirmed pid) now m = record m {
  current_state = running;
  tracked_pid = some pid;
  start_time = some now;
}
on_event starting (startup_failed e) now m = forget_process m
on_event starting stop_requested now m = enter shutting_down m
on_event running stop_requested now m = enter shutting_down m
on_event unhealthy stop_requested now m = enter shutting_down m
on_event shutting_down (process_exited code) now m = forget_process m
on_event running (health_check_failed e) now m = enter unhealthy m
on_event unhealthy health_check_passed now m = enter running m
on_event starting (health_check_failed e) now m = enter unhealthy m
on_event unhealthy (recovery_initiated attempt) now m = record m {
  current_state = starting;
  restart_count = add_u32 m.restart_count 1;
}
on_event running (process_exited code) now m = forget_process m
on_event starting (process_exited code) now m = forget_process m
on_event _ _ now m = m

unfoldable pub apply_event : ℕ → LifecycleEvent → LifecycleManager → LifecycleManager
apply_event now e m = on_event m.current_state e now m

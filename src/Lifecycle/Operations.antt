-- ===== src/Lifecycle/Operations.antt =====
-- The operations of `LifecycleManager` (crates/rpytest/src/daemon/lifecycle.rs). The operating system
-- answers through arguments: whether a process is alive at each place where the code asks, whether
-- stale files could be removed, which process was spawned.
use rpytest.Common.{
  ℕ, ◌%◌, ◌^◌, String, Bool, true, false, none, some, if◌then◌else◌, leb, add_u32, mul_u64, Result,
  ok, err,
}
use rpytest.Lifecycle.{
  DaemonState, running, unhealthy, start_requested, stop_requested, health_check_passed,
  startup_confirmed, recovery_initiated, startup_failed, health_check_failed, process_exited,
  HealthCheckResult, LifecycleManager, is_alive, can_start, can_stop, on_event, apply_event,
}

-- `is_process_alive` at one moment.
abbrev pub Alive : Type 0
Alive = ℕ → Bool

unfoldable pub sync_with_reality : Alive → LifecycleManager → LifecycleManager
unfolding apply_event
sync_with_reality alive m = elim m.tracked_pid [
  | none ↦ m
  | some pid ↦ if alive pid then m else apply_event 0 (process_exited none) m
]

pub data LifecycleError : Type 0 where
  cannot_start : DaemonState → LifecycleError
  failed : String → LifecycleError

-- What the system answers during one `start`.
pub record StartEnv : Type 0 where
  pub alive : Alive
  pub cleanup : Result String (Unit {0})
  pub spawn : Result String ℕ
  pub now : ℕ

abbrev pub spawned :
    ℕ → LifecycleManager → Result String ℕ → LifecycleManager × Result LifecycleError ℕ
spawned now m (ok pid) = (on_event m.current_state (startup_confirmed pid) now m, ok pid)
spawned now m (err e) = (on_event m.current_state (startup_failed e) now m, err (failed e))

abbrev pub cleaned :
    StartEnv
    → LifecycleManager
    → Result String (Unit {0})
    → LifecycleManager × Result LifecycleError ℕ
cleaned env m (ok u) = spawned env.now m env.spawn
cleaned env m (err e) = (m, err (failed e))

abbrev pub start_fresh : StartEnv → LifecycleManager → LifecycleManager × Result LifecycleError ℕ
start_fresh env m =
    if can_start m.current_state
    then cleaned env (on_event m.current_state start_requested env.now m) env.cleanup
    else (m, err (cannot_start m.current_state))

abbrev pub start_synced : StartEnv → LifecycleManager → LifecycleManager × Result LifecycleError ℕ
start_synced env m =
    if is_alive m.current_state
    then elim m.tracked_pid [ none ↦ start_fresh env m | some pid ↦ (m, ok pid) ]
    else start_fresh env m

unfoldable pub start : StartEnv → LifecycleManager → LifecycleManager × Result LifecycleError ℕ
unfolding sync_with_reality can_start is_alive
start env m = start_synced env (sync_with_reality env.alive m)

-- What the system answers during one `stop`: at the first question and at the one before SIGTERM.
pub record StopEnv : Type 0 where
  pub alive : Alive
  pub alive_at_stop : Alive
  pub cleanup : Result String (Unit {0})

abbrev pub request_stop : StopEnv → LifecycleManager → LifecycleManager
request_stop env m = elim m.tracked_pid [
  | none ↦ m
  | some pid ↦ if env.alive_at_stop pid then on_event m.current_state stop_requested 0 m else m
]

abbrev pub finish_stop :
    Result String (Unit {0})
    → LifecycleManager
    → LifecycleManager × Result LifecycleError (Unit {0})
finish_stop (ok u) m = (on_event m.current_state (process_exited none) 0 m, ok tt)
finish_stop (err e) m = (m, err (failed e))

abbrev pub stop_synced :
    StopEnv → LifecycleManager → LifecycleManager × Result LifecycleError (Unit {0})
stop_synced env m =
    if can_stop m.current_state then finish_stop env.cleanup (request_stop env m) else (m, ok tt)

unfoldable pub stop :
    StopEnv → LifecycleManager → LifecycleManager × Result LifecycleError (Unit {0})
unfolding sync_with_reality can_stop
stop env m = stop_synced env (sync_with_reality env.alive m)

abbrev pub start_again :
    StartEnv
    → LifecycleManager × Result LifecycleError (Unit {0})
    → LifecycleManager × Result LifecycleError ℕ
start_again env (m, ok u) = start env (record m { restart_count = add_u32 m.restart_count 1 })
start_again env (m, err e) = (m, err e)

unfoldable pub restart :
    StopEnv → StartEnv → LifecycleManager → LifecycleManager × Result LifecycleError ℕ
unfolding start stop
restart stop_env start_env m = start_again start_env (stop stop_env m)

-- The wait before a recovery. A shift by a `u32` is by its last six bits.
unfoldable pub backoff : LifecycleManager → ℕ
backoff m = mul_u64 m.config.restart_backoff_ms (2 ^ (m.restart_count % 64))

abbrev pub recovered :
    LifecycleManager × Result LifecycleError ℕ → LifecycleManager × Result LifecycleError Bool
recovered (m, ok pid) = (m, ok true)
recovered (m, err e) = (m, err e)

unfoldable pub recover :
    StopEnv → StartEnv → LifecycleManager → LifecycleManager × Result LifecycleError Bool
unfolding restart apply_event
recover stop_env start_env m =
    if leb m.config.max_restarts m.restart_count
    then (m, ok false)
    else recovered (
        restart stop_env start_env
          (apply_event 0 (recovery_initiated (add_u32 m.restart_count 1)) m))

-- What the system answers during one health check.
pub record HealthEnv : Type 0 where
  pub timestamp : ℕ
  pub elapsed_ms : ℕ
  pub alive : Alive
  pub alive_at_check : Alive
  pub socket_exists : Bool
  pub not_alive_message : ℕ → String

abbrev pub report : HealthCheckResult → LifecycleManager → LifecycleManager × HealthCheckResult
report r m = (record m { last_health_check = some r }, r)

abbrev pub unhealthy_result : HealthEnv → ℕ → String → HealthCheckResult
unhealthy_result env elapsed e = record {
  healthy = false;
  response_time_ms = elapsed;
  timestamp = env.timestamp;
  error = some e;
}

abbrev pub healthy_result : HealthEnv → HealthCheckResult
healthy_result env = record {
  healthy = true;
  response_time_ms = env.elapsed_ms;
  timestamp = env.timestamp;
  error = none;
}

abbrev pub fail_if_running : DaemonState → LifecycleManager → LifecycleManager
fail_if_running running m =
    on_event m.current_state (health_check_failed "Socket file not found") 0 m
fail_if_running _ m = m

abbrev pub pass_if_unhealthy : DaemonState → LifecycleManager → LifecycleManager
pass_if_unhealthy unhealthy m = on_event m.current_state health_check_passed 0 m
pass_if_unhealthy _ m = m

abbrev pub check_socket : HealthEnv → LifecycleManager → LifecycleManager × HealthCheckResult
check_socket env m =
    if env.socket_exists
    then report (healthy_result env) (pass_if_unhealthy m.current_state m)
    else report (unhealthy_result env env.elapsed_ms "Socket file not found")
        (fail_if_running m.current_state m)

abbrev pub check_synced : HealthEnv → LifecycleManager → LifecycleManager × HealthCheckResult
check_synced env m = elim m.tracked_pid [
  | none ↦ report (unhealthy_result env 0 "No PID file found") m
  | some pid ↦
      if env.alive_at_check pid
      then check_socket env m
      else report (unhealthy_result env 0 (env.not_alive_message pid)) m
]

unfoldable pub health_check : HealthEnv → LifecycleManager → LifecycleManager × HealthCheckResult
unfolding sync_with_reality
health_check env m = check_synced env (sync_with_reality env.alive m)

unfoldable pub reset_restart_count : LifecycleManager → LifecycleManager
reset_restart_count m = record m { restart_count = 0 }

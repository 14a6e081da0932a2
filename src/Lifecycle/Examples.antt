-- ===== src/Lifecycle/Examples.antt =====
-- The theorems on the daemon's life cycle at a concrete daemon
-- (crates/rpytest/src/daemon/lifecycle.rs).
use rpytest.Common.{
  List, ℕ, ◌+◌, ◌≤◌, ◌<◌, ◌≡◌, ◌≢◌, refl, Bool, true, false, not, [], ◌∷◌, Option, none, some, ok,
  arith,
}
use rpytest.Lifecycle.{
  DaemonState, stopped, running, unhealthy, LifecycleConfig, LifecycleManager, process_exited,
  is_alive, can_start, can_stop, can_transition_to, apply_event, new,
}
use rpytest.Lifecycle.Operations.{
  StartEnv, start, StopEnv, stop, recover, restart, HealthEnv, health_check, sync_with_reality,
}
use rpytest.Lifecycle.Invariant.{
  IsTracked, Call, starts, stops, recovers, checks, run, run-IsTracked,
}
use rpytest.Lifecycle.Transitions.{is_unlisted, can_transition_to-apply_event}
use rpytest.Lifecycle.Stopping.{stop-stopped, dead_unhealthy_stays}
use rpytest.Lifecycle.Recovery.{recover_counts}
use rpytest.Lifecycle.Health.{Passes, health_check-Passes}

abbrev config : LifecycleConfig
config = record { max_restarts = 3; restart_backoff_ms = 500 }

abbrev manager : DaemonState → Option ℕ → LifecycleManager
manager s pid = record {
  config = config;
  current_state = s;
  restart_count = 0;
  start_time = pid;
  last_health_check = none;
  tracked_pid = pid;
}

abbrev start_env : Bool → StartEnv
start_env alive = record { alive = λ pid. alive; cleanup = ok tt; spawn = ok 8; now = 20 }

abbrev stop_env : Bool → StopEnv
stop_env alive = record { alive = λ pid. alive; alive_at_stop = λ pid. alive; cleanup = ok tt }

abbrev health_env : HealthEnv
health_env = record {
  timestamp = 30;
  elapsed_ms = 1;
  alive = λ pid. true;
  alive_at_check = λ pid. true;
  socket_exists = false;
  not_alive_message = λ pid. "";
}

run-IsTracked_example : IsTracked (
    run (new config) (
      starts (start_env true) ∷ checks health_env ∷ recovers (stop_env true) (start_env true) ∷ []))
run-IsTracked_example =
    run-IsTracked config
      (starts (start_env true) ∷ checks health_env ∷ recovers (stop_env true) (start_env true) ∷ [])

can_transition_to-apply_event_example :
    can_transition_to running
      (apply_event 5 (process_exited none) (manager running (some 7))).current_state
    ≡ not (is_unlisted running (process_exited none))
can_transition_to-apply_event_example =
    can_transition_to-apply_event 5 (process_exited none) (manager running (some 7))

stop-stopped_example :
    ((stop (stop_env true) (manager unhealthy (some 7))).1 ≡ ok tt)
    × ((stop (stop_env true) (manager unhealthy (some 7))).0.current_state ≡ stopped)
    × ((stop (stop_env true) (manager unhealthy (some 7))).0.tracked_pid ≡ none)
stop-stopped_example =
    stop-stopped (stop_env true) (manager unhealthy (some 7)) (refl, refl) refl (λ e. cc)
      (λ e pid h. refl)

starts_fresh :
    start (start_env true) (manager stopped none)
    ≡ (record (manager running (some 8)) { start_time = some 20 }, ok 8)
unfolding start sync_with_reality is_alive can_start
starts_fresh = refl

abbrev useless_calls : List Call
useless_calls = stops (stop_env false) ∷ starts (start_env false) ∷ stops (stop_env false) ∷ []

dead_unhealthy_stays_example :
    (run (manager unhealthy (some 7)) useless_calls ≡ manager unhealthy (some 7))
    × (start (start_env false) (run (manager unhealthy (some 7)) useless_calls)
        ≡ (manager unhealthy (some 7), ok 7))
dead_unhealthy_stays_example =
    dead_unhealthy_stays (manager unhealthy (some 7)) 7 useless_calls (start_env false) refl refl
      ((refl, refl), (refl, ((refl, refl), tt))) refl

abbrev recovered_manager : LifecycleManager
recovered_manager = record (manager running (some 8)) { start_time = some 20; restart_count = 2 }

recovers_once :
    recover (stop_env true) (start_env true) (manager unhealthy (some 7))
    ≡ (recovered_manager, ok true)
unfolding recover restart stop start sync_with_reality is_alive can_start can_stop apply_event
recovers_once = refl

recover_counts_example :
    (config.max_restarts ≤ 0 → (recovered_manager ≡ manager unhealthy (some 7)) × (true ≡ false))
    × (0 < config.max_restarts
        → (true ≡ true)
          × (unhealthy ≡ unhealthy → recovered_manager.restart_count ≡ 0 + 2)
          × (unhealthy ≢ unhealthy → recovered_manager.restart_count ≡ 0 + 1))
recover_counts_example =
    recover_counts (stop_env true) (start_env true) (manager unhealthy (some 7)) recovered_manager
      true (omega arith) recovers_once

health_check-Passes_example :
    ((health_check health_env (manager running (some 7))).1.healthy ≡ true
      → Passes health_env (sync_with_reality health_env.alive (manager running (some 7))))
    × (Passes health_env (sync_with_reality health_env.alive (manager running (some 7)))
        → ((health_check health_env (manager running (some 7))).1.healthy ≡ true)
          × ((health_check health_env (manager running (some 7))).0.current_state ≢ unhealthy))
    × ((health_check health_env (manager running (some 7))).0.last_health_check
        ≡ some (health_check health_env (manager running (some 7))).1)
health_check-Passes_example = health_check-Passes health_env (manager running (some 7))

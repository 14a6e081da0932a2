-- ===== src/Lifecycle/Transitions.antt =====
-- The moves of apply_event against can_transition_to (crates/rpytest/src/daemon/lifecycle.rs).
use rpytest.Common.{ℕ, ◌≡◌, refl, Bool, true, false, not}
use rpytest.Lifecycle.{
  DaemonState, stopped, starting, running, unhealthy, shutting_down, LifecycleEvent,
  start_requested, stop_requested, health_check_passed, process_exited, LifecycleManager,
  can_transition_to, on_event, apply_event, enter,
}

-- The moves that the code makes and `can_transition_to` does not allow.
unfoldable pub is_unlisted : DaemonState → LifecycleEvent → Bool
is_unlisted starting stop_requested = true
is_unlisted unhealthy health_check_passed = true
is_unlisted running (process_exited code) = true
is_unlisted _ _ = false

allowed :
    (s : DaemonState) (e : LifecycleEvent) (now : ℕ) (m : LifecycleManager)
    → can_transition_to s (on_event s e now (enter s m)).current_state ≡ not (is_unlisted s e)
unfolding can_transition_to is_unlisted
allowed stopped start_requested now m = refl
allowed stopped _ now m = refl
allowed starting stop_requested now m = refl
allowed starting _ now m = refl
allowed running stop_requested now m = refl
allowed running _ now m = refl
allowed unhealthy stop_requested now m = refl
allowed unhealthy _ now m = refl
allowed shutting_down stop_requested now m = refl
allowed shutting_down _ now m = refl

-- `apply_event` makes a move that `can_transition_to` does not allow exactly at a stop request while
-- starting, a passed health check while unhealthy, and a process exit while running.
pub can_transition_to-apply_event :
    (now : ℕ) (e : LifecycleEvent) (m : LifecycleManager)
    → can_transition_to m.current_state (apply_event now e m).current_state
      ≡ not (is_unlisted m.current_state e)
unfolding apply_event
can_transition_to-apply_event now e m = allowed m.current_state e now m

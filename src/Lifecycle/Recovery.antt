-- ===== src/Lifecycle/Recovery.antt =====
-- Restart counts of a recovery (restart and recover of crates/rpytest/src/daemon/lifecycle.rs).
use rpytest.Common.{
  ℕ, ◌+◌, ◌≤◌, ◌<◌, ◌≡◌, ◌≢◌, refl, ◌∙◌, Bool, true, false, none, arith, add_u32, Result, ok, err,
}
use rpytest.Lifecycle.{
  DaemonState, stopped, unhealthy, recovery_initiated, process_exited, LifecycleManager, is_alive,
  can_start, can_stop, on_event, apply_event, enter,
}
use rpytest.Lifecycle.Operations.{
  Alive, sync_with_reality, StartEnv, start, start_synced, StopEnv, stop, stop_synced,
  LifecycleError, restart, start_again, recover, recovered,
}
use rpytest.Lifecycle.Invariant.{sync_cases}

restart_count-sync :
    (alive : Alive) (m : LifecycleManager)
    → (sync_with_reality alive m).restart_count ≡ m.restart_count
restart_count-sync alive m =
    sync_cases (λ k. k.restart_count ≡ m.restart_count) alive m refl
      (λ pid e a. unfold apply_event in go m.current_state m)
  where
    go :
        (s : DaemonState) (k : LifecycleManager)
        → (on_event s (process_exited none) 0 (enter s k)).restart_count ≡ k.restart_count
    go stopped k = refl
    go _ k = refl

restart_count-stop :
    (env : StopEnv) (m : LifecycleManager) → (stop env m).0.restart_count ≡ m.restart_count
unfolding stop can_stop
restart_count-stop env m =
    go (sync_with_reality env.alive m).current_state (sync_with_reality env.alive m)
    ∙ restart_count-sync env.alive m
  where
    go :
        (s : DaemonState) (k : LifecycleManager)
        → (stop_synced env (enter s k)).0.restart_count ≡ k.restart_count
    go stopped k = ground arith
    go _ k = ground arith

restart_count-start :
    (env : StartEnv) (m : LifecycleManager) → (start env m).0.restart_count ≡ m.restart_count
unfolding start can_start is_alive
restart_count-start env m =
    go (sync_with_reality env.alive m).current_state (sync_with_reality env.alive m)
    ∙ restart_count-sync env.alive m
  where
    go :
        (s : DaemonState) (k : LifecycleManager)
        → (start_synced env (enter s k)).0.restart_count ≡ k.restart_count
    go stopped k = ground arith
    go _ k = ground arith

recovered_ok :
    (r : LifecycleManager × Result LifecycleError ℕ) (m' : LifecycleManager) (b : Bool)
    → recovered r ≡ (m', ok b)
    → (m'.restart_count ≡ r.0.restart_count) × (b ≡ true)
recovered_ok (m, ok pid) m' b e = (cc, cc)
recovered_ok (m, err x) m' b e = cc

start_again_ok :
    (env : StartEnv) (r : LifecycleManager × Result LifecycleError (Unit {0}))
    (m' : LifecycleManager) (b : Bool)
    → recovered (start_again env r) ≡ (m', ok b)
    → (m'.restart_count ≡ add_u32 r.0.restart_count 1) × (b ≡ true)
start_again_ok env (m, ok u) m' b e =
    let k = record m { restart_count = add_u32 m.restart_count 1 } in
    let r = recovered_ok (start env k) m' b e in (r.0 ∙ restart_count-start env k, r.1)
start_again_ok env (m, err x) m' b e = cc

restart_count-recovering :
    (s : DaemonState) (n : ℕ) (m : LifecycleManager)
    → (s ≡ unhealthy
        → (on_event s (recovery_initiated n) 0 (enter s m)).restart_count
          ≡ add_u32 m.restart_count 1)
      × (s ≢ unhealthy
          → (on_event s (recovery_initiated n) 0 (enter s m)).restart_count ≡ m.restart_count)
restart_count-recovering unhealthy n m = (λ e. refl, λ h. absurd (h refl))
restart_count-recovering stopped n m = (λ e. cc, λ h. refl)
restart_count-recovering _ n m = (λ e. cc, λ h. refl)

-- A recovery is refused, with nothing changed, once the restart count has reached its limit. Below
-- it, a recovery that goes through counts two restarts if the daemon was unhealthy, and one if it
-- was in another state (the count being below 2^32 - 2).
pub recover_counts :
    (stop_env : StopEnv) (start_env : StartEnv) (m m' : LifecycleManager) (b : Bool)
    → m.restart_count < 4_294_967_294
    → recover stop_env start_env m ≡ (m', ok b)
    → (m.config.max_restarts ≤ m.restart_count → (m' ≡ m) × (b ≡ false))
      × (m.restart_count < m.config.max_restarts
          → (b ≡ true)
            × (m.current_state ≡ unhealthy → m'.restart_count ≡ m.restart_count + 2)
            × (m.current_state ≢ unhealthy → m'.restart_count ≡ m.restart_count + 1))
unfolding recover restart apply_event
recover_counts stop_env start_env m m' b small e =
    let k = on_event m.current_state (recovery_initiated (add_u32 m.restart_count 1)) 0 m in
    let c = restart_count-recovering m.current_state (add_u32 m.restart_count 1) m in
    (
      λ full. (ground arith, ground arith),
      λ room.
          let e' : recovered (start_again start_env (stop stop_env k)) ≡ (m', ok b) =
            ground arith in
          let r = start_again_ok start_env (stop stop_env k) m' b e' in
          let t = restart_count-stop stop_env k in
          (r.1, λ u. omega (arith, r.0, t, c.0 u), λ u. omega (arith, r.0, t, c.1 u)),
    )

-- ===== src/Lifecycle/Stopping.antt =====
-- What start and stop of the lifecycle manager leave behind (crates/rpytest/src/daemon/lifecycle.rs).
use rpytest.Common.{
  ℕ, ◌≡◌, ◌≢◌, inl, inr, refl, true, false, none, some, arith, ok, err, Option-cases, List, [], ◌∷◌,
  All, ap, ◌∙◌, Result, String, ◌⊎◌,
}
use rpytest.Lifecycle.{
  DaemonState, stopped, starting, running, unhealthy, shutting_down, process_exited,
  LifecycleManager, is_alive, can_start, can_stop, on_event, apply_event, enter,
}
use rpytest.Lifecycle.Operations.{
  sync_with_reality, StartEnv, start, start_synced, StopEnv, stop, stop_synced,
}
use rpytest.Lifecycle.Invariant.{
  IsTracked, sync_cases, exited-Fits, Call, starts, stops, restarts, recovers, checks, resets,
  perform, run,
}

Result-cases : (r : Result String (Unit {0})) → (r ≡ ok tt) ⊎ ((e : String) × (r ≡ err e))
Result-cases (ok u) = inl refl
Result-cases (err e) = inr (e, refl)

stop_from :
    (env : StopEnv) (s : DaemonState) (m : LifecycleManager)
    → IsTracked (enter s m)
    → env.cleanup ≡ ok tt
    → s ≢ shutting_down
    → (s ≡ unhealthy → (pid : ℕ) → m.tracked_pid ≡ some pid → env.alive_at_stop pid ≡ true)
    → ((stop_synced env (enter s m)).1 ≡ ok tt)
      × ((stop_synced env (enter s m)).0.current_state ≡ stopped)
      × ((stop_synced env (enter s m)).0.tracked_pid ≡ none)
unfolding can_stop
stop_from env stopped m h c n u = ground arith
stop_from env starting m h c n u = ground arith
stop_from env running m h c n u = ground arith
stop_from env unhealthy m h c n u = elim (Option-cases m.tracked_pid) [
  | inl e ↦ cc
  | inr (pid, e) ↦ let a = u refl pid e in ground arith
]
stop_from env shutting_down m h c n u = absurd (n refl)

exited_keeps :
    (s : DaemonState) (m : LifecycleManager) (env : StopEnv)
    → s ≢ shutting_down
    → (s ≡ unhealthy → (pid : ℕ) → m.tracked_pid ≡ some pid → env.alive_at_stop pid ≡ true)
    → ((on_event s (process_exited none) 0 (enter s m)).current_state ≢ shutting_down)
      × ((on_event s (process_exited none) 0 (enter s m)).current_state ≡ unhealthy
          → (pid : ℕ) → (on_event s (process_exited none) 0 (enter s m)).tracked_pid ≡ some pid
          → env.alive_at_stop pid ≡ true)
exited_keeps stopped m env n u = (n, λ e. cc)
exited_keeps starting m env n u = (λ e. cc, λ e. cc)
exited_keeps running m env n u = (λ e. cc, λ e. cc)
exited_keeps unhealthy m env n u = (n, u)
exited_keeps shutting_down m env n u = absurd (n refl)

-- A stop that can remove the stale files succeeds, and leaves a stopped manager that tracks no
-- process, if no shutdown was under way and, of an unhealthy daemon, the process is alive when it
-- is about to be signalled.
pub stop-stopped :
    (env : StopEnv) (m : LifecycleManager)
    → IsTracked m
    → env.cleanup ≡ ok tt
    → m.current_state ≢ shutting_down
    → (m.current_state ≡ unhealthy
        → (pid : ℕ) → m.tracked_pid ≡ some pid
        → env.alive_at_stop pid ≡ true)
    → ((stop env m).1 ≡ ok tt)
      × ((stop env m).0.current_state ≡ stopped)
      × ((stop env m).0.tracked_pid ≡ none)
unfolding stop
stop-stopped env m h c n u =
    sync_cases
      (λ k.
        ((stop_synced env k).1 ≡ ok tt)
        × ((stop_synced env k).0.current_state ≡ stopped)
        × ((stop_synced env k).0.tracked_pid ≡ none))
      env.alive m (stop_from env m.current_state m h c n u)
      (λ pid e dead.
        let k = apply_event 0 (process_exited none) m in
        let r : (k.current_state ≢ shutting_down)
            × (k.current_state ≡ unhealthy
                → (pid : ℕ) → k.tracked_pid ≡ some pid
                → env.alive_at_stop pid ≡ true) =
          unfold apply_event in exited_keeps m.current_state m env n u in
        let t : IsTracked k = unfold apply_event in exited-Fits m.current_state m h in
        stop_from env k.current_state k t c r.0 r.1)

start_from :
    (env : StartEnv) (m m' : LifecycleManager) (pid : ℕ)
    → start_synced env m ≡ (m', ok pid)
    → (m'.tracked_pid ≡ some pid) × (is_alive m'.current_state ≡ true)
unfolding is_alive can_start
start_from env m m' pid e = go m.current_state m e
  where
    go :
        (s : DaemonState) (k : LifecycleManager)
        → start_synced env (enter s k) ≡ (m', ok pid)
        → (m'.tracked_pid ≡ some pid) × (is_alive m'.current_state ≡ true)
    go stopped k h = ground arith
    go starting k h = ground arith
    go running k h = ground arith
    go unhealthy k h = ground arith
    go shutting_down k h = ground arith

-- A start that succeeds gives the process that the manager tracks, in a state that counts as alive.
start_tracks :
    (env : StartEnv) (m m' : LifecycleManager) (pid : ℕ)
    → start env m ≡ (m', ok pid)
    → (m'.tracked_pid ≡ some pid) × (is_alive m'.current_state ≡ true)
unfolding start
start_tracks env m m' pid e = start_from env (sync_with_reality env.alive m) m' pid e

dead_start :
    (env : StartEnv) (m : LifecycleManager) (pid : ℕ)
    → m.current_state ≡ unhealthy
    → m.tracked_pid ≡ some pid
    → env.alive pid ≡ false
    → start env m ≡ (m, ok pid)
unfolding start sync_with_reality apply_event is_alive
dead_start env m pid s t a = ground arith

dead_stop :
    (env : StopEnv) (m : LifecycleManager) (pid : ℕ)
    → m.current_state ≡ unhealthy
    → m.tracked_pid ≡ some pid
    → env.alive pid ≡ false
    → env.alive_at_stop pid ≡ false
    → (stop env m).0 ≡ m
unfolding stop sync_with_reality apply_event can_stop
dead_stop env m pid s t a b = elim (Result-cases env.cleanup) [
  | inl e ↦ ground arith
  | inr (x, e) ↦ ground arith
]

-- A start or a stop, during which the process is not alive.
abbrev pub FindsDead : ℕ → Call → Type 0
FindsDead pid (starts env) = env.alive pid ≡ false
FindsDead pid (stops env) = (env.alive pid ≡ false) × (env.alive_at_stop pid ≡ false)
FindsDead pid _ = ⊥

dead_perform :
    (m : LifecycleManager) (pid : ℕ) (c : Call)
    → m.current_state ≡ unhealthy
    → m.tracked_pid ≡ some pid
    → FindsDead pid c
    → perform m c ≡ m
unfolding perform
dead_perform m pid (starts env) s t d = ap (λ r. r.0) (dead_start env m pid s t d)
dead_perform m pid (stops env) s t d = dead_stop env m pid s t d.0 d.1
dead_perform m pid (restarts stop_env start_env) s t d = absurd d
dead_perform m pid (recovers stop_env start_env) s t d = absurd d
dead_perform m pid (checks env) s t d = absurd d
dead_perform m pid resets s t d = absurd d

dead_run :
    (m : LifecycleManager) (pid : ℕ) (cs : List Call)
    → m.current_state ≡ unhealthy
    → m.tracked_pid ≡ some pid
    → All (FindsDead pid) cs
    → run m cs ≡ m
unfolding run
dead_run m pid [] s t d = refl
dead_run m pid (c ∷ cs) s t d =
    ap (λ k. run k cs) (dead_perform m pid c s t d.0) ∙ dead_run m pid cs s t d.1

-- If the process of an unhealthy daemon has died, no number of starts and stops in any order gets the
-- manager out of that state: it stays as it is, whether or not the stops can remove the stale files,
-- and the next start reports the dead process as started.
pub dead_unhealthy_stays :
    (m : LifecycleManager) (pid : ℕ) (cs : List Call) (env : StartEnv)
    → m.current_state ≡ unhealthy
    → m.tracked_pid ≡ some pid
    → All (FindsDead pid) cs
    → env.alive pid ≡ false
    → (run m cs ≡ m) × (start env (run m cs) ≡ (m, ok pid))
dead_unhealthy_stays m pid cs env s t d a =
    let same = dead_run m pid cs s t d in (same, ap (start env) same ∙ dead_start env m pid s t a)

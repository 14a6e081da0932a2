-- ===== src/Lifecycle/Invariant.antt =====
-- What the manager knows of the process in each state (crates/rpytest/src/daemon/lifecycle.rs).
use mathlib.Core.Path.{subst}
use rpytest.Common.{
  ℕ, ◌≡◌, inl, inr, refl, List, [], ◌∷◌, sym, Bool-cases, String, Bool, true, false, Option, none,
  some, if◌then◌else◌, leb, arith, add_u32, Result, ok, err, Option-cases,
}
use rpytest.Lifecycle.{
  DaemonState, stopped, starting, running, unhealthy, shutting_down, recovery_initiated,
  process_exited, LifecycleManager, LifecycleConfig, can_start, can_stop, on_event, apply_event,
  enter, new,
}
use rpytest.Lifecycle.Operations.{
  Alive, sync_with_reality, StartEnv, start, start_synced, start_fresh, StopEnv, stop, finish_stop,
  request_stop, LifecycleError, restart, start_again, recover, recovered, HealthEnv, health_check,
  check_synced, check_socket, reset_restart_count,
}

abbrev is_some : Option ℕ → Bool
is_some none = false
is_some (some n) = true

-- A stopped manager tracks no process; one that runs, is unhealthy or shuts down tracks one and
-- knows when it was started. While starting it knows both or neither.
abbrev pub Fits : DaemonState → Option ℕ → Option ℕ → Type 0
Fits stopped pid time = (pid ≡ none) × (time ≡ none)
Fits starting pid time = is_some pid ≡ is_some time
Fits _ pid time = (is_some pid ≡ true) × (is_some time ≡ true)

abbrev pub IsTracked : LifecycleManager → Type 0
IsTracked m = Fits m.current_state m.tracked_pid m.start_time

new-IsTracked : (c : LifecycleConfig) → IsTracked (new c)
unfolding new
new-IsTracked c = (refl, refl)

pub exited-Fits :
    (s : DaemonState) (m : LifecycleManager)
    → IsTracked (enter s m)
    → IsTracked (on_event s (process_exited none) 0 (enter s m))
exited-Fits stopped m h = h
exited-Fits starting m h = (refl, refl)
exited-Fits running m h = (refl, refl)
exited-Fits unhealthy m h = h
exited-Fits shutting_down m h = (refl, refl)

pub sync_cases {ℓ} :
    (P : LifecycleManager → Type ℓ) (alive : Alive) (m : LifecycleManager)
    → P m
    → ((pid : ℕ)
        → m.tracked_pid ≡ some pid
        → alive pid ≡ false
        → P (apply_event 0 (process_exited none) m))
    → P (sync_with_reality alive m)
unfolding sync_with_reality
sync_cases P alive m same exited = elim (Option-cases m.tracked_pid) [
  | inl e ↦ subst P (sym (unfold sync_with_reality in ground arith)) same
  | inr (pid, e) ↦ elim (Bool-cases (alive pid)) [
    | inl a ↦ subst P (sym (unfold sync_with_reality in ground arith)) same
    | inr a ↦ subst P (sym (unfold sync_with_reality in ground arith)) (exited pid e a)
  ]
]

pub sync-IsTracked :
    (alive : Alive) (m : LifecycleManager) → IsTracked m → IsTracked (sync_with_reality alive m)
sync-IsTracked alive m h =
    sync_cases IsTracked alive m h
      (λ pid e a. unfold apply_event in exited-Fits m.current_state m h)

start_fresh-IsTracked :
    (env : StartEnv) (s : DaemonState) (m : LifecycleManager)
    → IsTracked (enter s m)
    → IsTracked (start_fresh env (enter s m)).0
unfolding can_start
start_fresh-IsTracked env stopped m h = ground arith
start_fresh-IsTracked env unhealthy m h = ground arith
start_fresh-IsTracked env _ m h = h

start_synced-IsTracked :
    (env : StartEnv) (m : LifecycleManager) → IsTracked m → IsTracked (start_synced env m).0
start_synced-IsTracked env m h =
    let fresh = start_fresh-IsTracked env m.current_state m h in ground arith

pub start-IsTracked :
    (env : StartEnv) (m : LifecycleManager) → IsTracked m → IsTracked (start env m).0
unfolding start
start-IsTracked env m h =
    start_synced-IsTracked env (sync_with_reality env.alive m) (sync-IsTracked env.alive m h)

finish_stop-IsTracked :
    (r : Result String (Unit {0})) (m : LifecycleManager)
    → IsTracked m
    → IsTracked (finish_stop r m).0
finish_stop-IsTracked (ok u) m h = exited-Fits m.current_state m h
finish_stop-IsTracked (err e) m h = h

request_stop-IsTracked :
    (env : StopEnv) (s : DaemonState) (m : LifecycleManager)
    → IsTracked (enter s m)
    → IsTracked (request_stop env (enter s m))
request_stop-IsTracked env starting m h = ground arith
request_stop-IsTracked env _ m h = ground arith

if_both :
    (b : Bool) (x y : LifecycleManager × Result LifecycleError (Unit {0}))
    → IsTracked x.0
    → IsTracked y.0
    → IsTracked (if b then x else y).0
if_both true x y p q = p
if_both false x y p q = q

pub stop-IsTracked : (env : StopEnv) (m : LifecycleManager) → IsTracked m → IsTracked (stop env m).0
unfolding stop
stop-IsTracked env m h =
    let n = sync_with_reality env.alive m in
    let k = sync-IsTracked env.alive m h in
    if_both (can_stop n.current_state) _ _
      (finish_stop-IsTracked env.cleanup (request_stop env n)
        (request_stop-IsTracked env n.current_state n k))
      k

start_again-IsTracked :
    (env : StartEnv) (r : LifecycleManager × Result LifecycleError (Unit {0}))
    → IsTracked r.0
    → IsTracked (start_again env r).0
start_again-IsTracked env (m, ok u) h = start-IsTracked env _ h
start_again-IsTracked env (m, err e) h = h

pub restart-IsTracked :
    (stop_env : StopEnv) (start_env : StartEnv) (m : LifecycleManager)
    → IsTracked m
    → IsTracked (restart stop_env start_env m).0
unfolding restart
restart-IsTracked stop_env start_env m h =
    start_again-IsTracked start_env (stop stop_env m) (stop-IsTracked stop_env m h)

recovering-Fits :
    (s : DaemonState) (n : ℕ) (m : LifecycleManager)
    → IsTracked (enter s m)
    → IsTracked (on_event s (recovery_initiated n) 0 (enter s m))
recovering-Fits unhealthy n m h = ground arith
recovering-Fits _ n m h = h

recovered-IsTracked :
    (r : LifecycleManager × Result LifecycleError ℕ) → IsTracked r.0 → IsTracked (recovered r).0
recovered-IsTracked (m, ok pid) h = h
recovered-IsTracked (m, err e) h = h

pub recover-IsTracked :
    (stop_env : StopEnv) (start_env : StartEnv) (m : LifecycleManager)
    → IsTracked m
    → IsTracked (recover stop_env start_env m).0
unfolding recover
recover-IsTracked stop_env start_env m h =
    elim (Bool-cases (leb m.config.max_restarts m.restart_count)) [
      | inl e ↦ rw e h
      | inr e ↦ rw e (
          recovered-IsTracked _ (
            restart-IsTracked stop_env start_env _
              (recovering-Fits m.current_state (add_u32 m.restart_count 1) m h)))
    ]

check_socket-IsTracked :
    (env : HealthEnv) (s : DaemonState) (m : LifecycleManager)
    → IsTracked (enter s m)
    → IsTracked (check_socket env (enter s m)).0
check_socket-IsTracked env stopped m h = ground arith
check_socket-IsTracked env running m h = ground arith
check_socket-IsTracked env unhealthy m h = ground arith
check_socket-IsTracked env _ m h = ground arith

check_synced-IsTracked :
    (env : HealthEnv) (m : LifecycleManager) → IsTracked m → IsTracked (check_synced env m).0
check_synced-IsTracked env m h =
    let c = check_socket-IsTracked env m.current_state m h in ground arith

pub health_check-IsTracked :
    (env : HealthEnv) (m : LifecycleManager) → IsTracked m → IsTracked (health_check env m).0
unfolding health_check
health_check-IsTracked env m h =
    check_synced-IsTracked env (sync_with_reality env.alive m) (sync-IsTracked env.alive m h)

-- A use of the manager: the calls of its public methods that change it.
pub data Call : Type 0 where
  starts : StartEnv → Call
  stops : StopEnv → Call
  restarts recovers : StopEnv → StartEnv → Call
  checks : HealthEnv → Call
  resets : Call

unfoldable pub perform : LifecycleManager → Call → LifecycleManager
perform m (starts env) = (start env m).0
perform m (stops env) = (stop env m).0
perform m (restarts stop_env start_env) = (restart stop_env start_env m).0
perform m (recovers stop_env start_env) = (recover stop_env start_env m).0
perform m (checks env) = (health_check env m).0
perform m resets = reset_restart_count m

unfoldable pub run : LifecycleManager → List Call → LifecycleManager
unfolding perform
run m [] = m
run m (c ∷ cs) = run (perform m c) cs

perform-IsTracked : (m : LifecycleManager) (c : Call) → IsTracked m → IsTracked (perform m c)
unfolding perform reset_restart_count
perform-IsTracked m (starts env) h = start-IsTracked env m h
perform-IsTracked m (stops env) h = stop-IsTracked env m h
perform-IsTracked m (restarts stop_env start_env) h = restart-IsTracked stop_env start_env m h
perform-IsTracked m (recovers stop_env start_env) h = recover-IsTracked stop_env start_env m h
perform-IsTracked m (checks env) h = health_check-IsTracked env m h
perform-IsTracked m resets h = h

run_from-IsTracked : (m : LifecycleManager) (cs : List Call) → IsTracked m → IsTracked (run m cs)
unfolding run
run_from-IsTracked m [] h = h
run_from-IsTracked m (c ∷ cs) h = run_from-IsTracked (perform m c) cs (perform-IsTracked m c h)

-- After any calls on a new manager, whatever the system answers: when stopped it tracks no process;
-- when running, unhealthy or shutting down it tracks a process and has its start time; while
-- starting it has both or neither.
pub run-IsTracked : (c : LifecycleConfig) (cs : List Call) → IsTracked (run (new c) cs)
run-IsTracked c cs = run_from-IsTracked (new c) cs (new-IsTracked c)

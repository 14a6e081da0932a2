-- ===== src/Lifecycle/Health.antt =====
-- The outcome of a health check (health_check of crates/rpytest/src/daemon/lifecycle.rs).
use rpytest.Common.{ℕ, ◌≡◌, ◌≢◌, inl, inr, true, none, some, arith, Option-cases}
use rpytest.Lifecycle.{DaemonState, stopped, unhealthy, LifecycleManager, enter}
use rpytest.Lifecycle.Operations.{sync_with_reality, HealthEnv, health_check, check_synced}

-- The socket exists, and the process that is tracked is alive.
abbrev pub Passes : HealthEnv → LifecycleManager → Type 0
Passes env m =
    (env.socket_exists ≡ true)
    × ((pid : ℕ) × (m.tracked_pid ≡ some pid) × (env.alive_at_check pid ≡ true))

abbrev Checked : HealthEnv → LifecycleManager → Type 0
Checked env m =
    ((check_synced env m).1.healthy ≡ true → Passes env m)
    × (Passes env m
        → ((check_synced env m).1.healthy ≡ true)
          × ((check_synced env m).0.current_state ≢ unhealthy))
    × ((check_synced env m).0.last_health_check ≡ some (check_synced env m).1)

untracked-Checked : (env : HealthEnv) (m : LifecycleManager) → m.tracked_pid ≡ none → Checked env m
untracked-Checked env m e =
    (λ h. absurd (ground arith), λ p. let q = p.1.1 in absurd (ground arith), ground arith)

tracked-Checked :
    (env : HealthEnv) (s : DaemonState) (m : LifecycleManager) (pid : ℕ)
    → m.tracked_pid ≡ some pid
    → Checked env (enter s m)
tracked-Checked env stopped m pid e = (
  λ h. (ground arith, (pid, e, ground arith)),
  λ p. let q = p.1.1 in let r = p.1.2 in (ground arith, ground arith),
  ground arith,
)
tracked-Checked env _ m pid e = (
  λ h. (ground arith, (pid, e, ground arith)),
  λ p. let q = p.1.1 in let r = p.1.2 in (ground arith, ground arith),
  ground arith,
)

synced-Checked : (env : HealthEnv) (m : LifecycleManager) → Checked env m
synced-Checked env m = elim (Option-cases m.tracked_pid) [
  | inl e ↦ untracked-Checked env m e
  | inr (pid, e) ↦ tracked-Checked env m.current_state m pid e
]

-- A health check reports a healthy daemon exactly if, after it has looked for an exited process, it
-- still tracks one, finds it alive, and the socket exists; it then leaves no unhealthy state. Its
-- result is recorded as the last one in each case.
pub health_check-Passes :
    (env : HealthEnv) (m : LifecycleManager)
    → ((health_check env m).1.healthy ≡ true → Passes env (sync_with_reality env.alive m))
      × (Passes env (sync_with_reality env.alive m)
          → ((health_check env m).1.healthy ≡ true)
            × ((health_check env m).0.current_state ≢ unhealthy))
      × ((health_check env m).0.last_health_check ≡ some (health_check env m).1)
unfolding health_check
health_check-Passes env m = synced-Checked env (sync_with_reality env.alive m)

-- ===== src/Pool/Transitions.antt =====
-- The states of a worker (crates/rpytest-daemon/src/pool.rs): the transitions that `transition_to`
-- allows, and those that the worker's own methods make, which assign the state directly.
use rpytest.Common.{
  ℕ, ◌≡◌, ◌⊎◌, inl, inr, refl, arith, true, false, Option, none, List, Result, ok, err,
}
use rpytest.Models.{TestResult}
use rpytest.Pool.{
  RecycleReason, WorkerState, spawning, ready, busy, recycling, dead, is_ready, is_alive,
  transition_to, WorkerError, Externals, Wait, going, exited, unknown,
}
use rpytest.Pool.Worker.{Worker, RunEnv, run_tests, execute_tests, after_run, poll_alive, polled}

-- An allowed transition ends in the state asked for, and starts from a live state or goes from
-- recycling to dead: no transition leaves a dead state.
pub transition_to_allowed :
    (s t u : WorkerState)
    → transition_to s t ≡ ok u
    → (u ≡ t)
      × (is_alive s ≡ true
          ⊎ ((r : RecycleReason) × (c : Option ℕ) × (s ≡ recycling r) × (t ≡ dead c)))
unfolding transition_to is_alive
transition_to_allowed spawning t u e = (ground arith, inl refl)
transition_to_allowed ready t u e = (ground arith, inl refl)
transition_to_allowed (busy n) t u e = (ground arith, inl refl)
transition_to_allowed (recycling r) (dead c) u e = (ground arith, inr (r, c, refl, refl))
transition_to_allowed (recycling r) spawning u e = ground arith
transition_to_allowed (recycling r) ready u e = ground arith
transition_to_allowed (recycling r) (busy n) u e = ground arith
transition_to_allowed (recycling r) (recycling q) u e = ground arith
transition_to_allowed (dead c) t u e = ground arith

-- What `run_tests` does to a ready worker with some result: `busy` first, then this state.
after_run_allowed :
    (n : ℕ) (w : Worker) (r : Result WorkerError (List TestResult))
    → transition_to (busy n) (after_run w r).state ≡ ok (after_run w r).state
unfolding transition_to
after_run_allowed n w (ok rs) = ground arith
after_run_allowed n w (err e) = refl

ready-busy : (s : WorkerState) (n : ℕ) → is_ready s ≡ true → transition_to s (busy n) ≡ ok (busy n)
unfolding transition_to is_ready
ready-busy ready n e = refl
ready-busy spawning n e = cc
ready-busy (busy t) n e = cc
ready-busy (recycling r) n e = cc
ready-busy (dead c) n e = cc

-- A run of tests on a ready worker passes through `busy` by allowed transitions; on a worker that is
-- not ready it changes nothing.
run_tests_allowed :
    (ex : Externals) (env : RunEnv) (w : Worker)
    → (is_ready w.state ≡ true
        → (transition_to w.state (busy env.now) ≡ ok (busy env.now))
          × (transition_to (busy env.now) (run_tests ex env w).0.state
              ≡ ok (run_tests ex env w).0.state))
      × (is_ready w.state ≡ false → (run_tests ex env w).0 ≡ w)
unfolding run_tests
run_tests_allowed ex env w =
    let step =
      after_run_allowed env.now (record w { state = busy env.now }) (execute_tests ex env w.id) in
    (λ e. (ready-busy w.state env.now e, rw e step), λ e. rw e refl)

-- A question whether the worker's process lives says that it lives only if the process runs, and
-- then leaves the worker as it is; otherwise the worker is dead afterwards.
pub poll_alive_allowed :
    (try_wait : ℕ → Wait) (w : Worker)
    → ((poll_alive try_wait w).1 ≡ true
        → ((poll_alive try_wait w).0 ≡ w) × (try_wait w.child ≡ going))
      × ((poll_alive try_wait w).1 ≡ false
          → ((c : Option ℕ) × ((poll_alive try_wait w).0.state ≡ dead c)))
unfolding poll_alive
poll_alive_allowed try_wait w = go w.state refl (try_wait w.child)
  where
    go :
        (s : WorkerState)
        → w.state ≡ s
        → (a : Wait)
        → ((polled w s a).1 ≡ true → ((polled w s a).0 ≡ w) × (a ≡ going))
          × ((polled w s a).1 ≡ false → ((c : Option ℕ) × ((polled w s a).0.state ≡ dead c)))
    go (dead c) e a = (λ h. cc, λ h. (c, e))
    go spawning e going = (λ h. (refl, refl), λ h. cc)
    go ready e going = (λ h. (refl, refl), λ h. cc)
    go (busy t) e going = (λ h. (refl, refl), λ h. cc)
    go (recycling r) e going = (λ h. (refl, refl), λ h. cc)
    go spawning e (exited c) = (λ h. cc, λ h. (c, refl))
    go ready e (exited c) = (λ h. cc, λ h. (c, refl))
    go (busy t) e (exited c) = (λ h. cc, λ h. (c, refl))
    go (recycling r) e (exited c) = (λ h. cc, λ h. (c, refl))
    go spawning e unknown = (λ h. cc, λ h. (none, refl))
    go ready e unknown = (λ h. cc, λ h. (none, refl))
    go (busy t) e unknown = (λ h. cc, λ h. (none, refl))
    go (recycling r) e unknown = (λ h. cc, λ h. (none, refl))

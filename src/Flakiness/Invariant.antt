-- ===== src/Flakiness/Invariant.antt =====
-- What the stability state of a record says about its counters (transition and record_outcome of
-- crates/rpytest-daemon/src/flakiness.rs).
use rpytest.Common.{
  ℕ, ◌≤◌, ◌<◌, ◌≡◌, true, Option, none, some, if◌then◌else◌, arith, differ, add_u32,
}
use rpytest.Models.{
  TestOutcome, passed, failed, skipped, error, xfail, xpass, is_fail, StabilityState, unknown,
  stable, unstable, flaky, confirmed_flaky,
}
use rpytest.Flakiness.{transition, was_pass, was_fail, count_passes, count_failures}

-- `count_flips` over the previous outcome itself.
abbrev pub flips : Option TestOutcome → TestOutcome → ℕ → ℕ
flips none o n = n
flips (some p) o n = if differ (is_fail p) (is_fail o) then add_u32 n 1 else n

abbrev pub Explains : StabilityState → Option TestOutcome → ℕ → ℕ → ℕ → Type 0
Explains unknown prev passes failures streak = Unit
Explains (stable n) prev passes failures streak = (1 ≤ n) × (n ≤ passes) × (was_pass prev ≡ true)
Explains (unstable n) prev passes failures streak =
    (1 ≤ n) × (n ≤ failures) × (was_fail prev ≡ true)
Explains (flaky n) prev passes failures streak = (1 ≤ n) × (n ≤ 2) × (n ≤ streak)
Explains confirmed_flaky prev passes failures streak = 3 ≤ streak

module _ (o : TestOutcome) (passes failures streak : ℕ) where
  abbrev Next : StabilityState → Option TestOutcome → Type 0
  Next s prev =
      Explains (transition s o prev) (some o) (count_passes o passes) (count_failures o failures)
        (flips prev o streak)

module _ (passes failures streak : ℕ) (p : passes < 4_294_967_295) (f : failures < 4_294_967_295)
    (k : streak < 4_294_967_295) where
  from_unknown-Explains :
      (o : TestOutcome) (prev : Option TestOutcome) → Next o passes failures streak unknown prev
  unfolding transition
  from_unknown-Explains passed prev = ground arith
  from_unknown-Explains failed prev = ground arith
  from_unknown-Explains error prev = ground arith
  from_unknown-Explains _ prev = tt

  from_stable-Explains :
      (n : ℕ) (o : TestOutcome) (prev : Option TestOutcome)
      → Explains (stable n) prev passes failures streak
      → Next o passes failures streak (stable n) prev
  unfolding transition
  from_stable-Explains n passed prev h = ground arith
  from_stable-Explains n failed (some passed) h = ground arith
  from_stable-Explains n error (some passed) h = ground arith
  from_stable-Explains n _ _ h = ground arith

  from_unstable-Explains :
      (n : ℕ) (o : TestOutcome) (prev : Option TestOutcome)
      → Explains (unstable n) prev passes failures streak
      → Next o passes failures streak (unstable n) prev
  unfolding transition
  from_unstable-Explains n passed (some passed) h = ground arith
  from_unstable-Explains n _ _ h = ground arith

  from_flaky-Explains :
      (n : ℕ) (o : TestOutcome) (prev : Option TestOutcome)
      → Explains (flaky n) prev passes failures streak
      → Next o passes failures streak (flaky n) prev
  unfolding transition
  from_flaky-Explains n passed (some passed) h = ground arith
  from_flaky-Explains n failed (some passed) h = ground arith
  from_flaky-Explains n skipped (some passed) h = ground arith
  from_flaky-Explains n error (some passed) h = ground arith
  from_flaky-Explains n xfail (some passed) h = ground arith
  from_flaky-Explains n xpass (some passed) h = ground arith
  from_flaky-Explains n _ _ h = ground arith

  from_confirmed-Explains :
      (o : TestOutcome) (prev : Option TestOutcome)
      → (was_pass prev ≡ true → 1 ≤ passes)
      → (was_fail prev ≡ true → 1 ≤ failures)
      → Explains confirmed_flaky prev passes failures streak
      → Next o passes failures streak confirmed_flaky prev
  unfolding transition
  from_confirmed-Explains passed (some passed) a b h = ground arith
  from_confirmed-Explains failed (some passed) a b h = ground arith
  from_confirmed-Explains skipped (some passed) a b h = ground arith
  from_confirmed-Explains error (some passed) a b h = ground arith
  from_confirmed-Explains xfail (some passed) a b h = ground arith
  from_confirmed-Explains xpass (some passed) a b h = ground arith
  from_confirmed-Explains _ _ a b h = ground arith

  -- The invariant goes on through each transition.
  pub transition-Explains :
      (s : StabilityState) (o : TestOutcome) (prev : Option TestOutcome)
      → (was_pass prev ≡ true → 1 ≤ passes)
      → (was_fail prev ≡ true → 1 ≤ failures)
      → Explains s prev passes failures streak
      → Explains
          (transition s o prev)
          (some o)
          (count_passes o passes)
          (count_failures o failures)
          (flips prev o streak)
  transition-Explains unknown o prev a b h = from_unknown-Explains o prev
  transition-Explains (stable n) o prev a b h = from_stable-Explains n o prev h
  transition-Explains (unstable n) o prev a b h = from_unstable-Explains n o prev h
  transition-Explains (flaky n) o prev a b h = from_flaky-Explains n o prev h
  transition-Explains confirmed_flaky o prev a b h = from_confirmed-Explains o prev a b h

-- ===== src/Scheduler/Examples.antt =====
-- The theorems on the scheduler at concrete tests (crates/rpytest-daemon/src/scheduler.rs).
use mathlib.Core.List.{Perm, flatten}
use rpytest.Common.{
  ℕ, ◌+◌, ◌≤◌, ◌≡◌, ◌≢◌, refl, String, true, false, List, [], ◌∷◌, some, All, arith,
}
use rpytest.Common.Dict.{get}
use rpytest.Common.Sort.{IsFalling}
use rpytest.Scheduler.{
  TestScheduler, get_estimated_duration, moving_average, weigh, contains, schedule, split_balanced,
  get_history, or_default,
}
use rpytest.Scheduler.Estimate.{get_estimated_duration_bounds}
use rpytest.Scheduler.Order.{schedule-perm, schedule-LeadsWith, schedule_by_duration, LeadsWith}
use rpytest.Scheduler.Balance.{cost}
use rpytest.Scheduler.Batches.{split_balanced-perm, split_balanced_band}

abbrev known : TestScheduler
known = record {
  duration_history = ("a", 300 ∷ []) ∷ ("b", 100 ∷ 400 ∷ []) ∷ ("c", 50 ∷ []) ∷ [];
  default_duration_ms = 1000;
}

abbrev tests : List String
tests = "c" ∷ "a" ∷ "b" ∷ "d" ∷ []

estimate_a : get_estimated_duration known "a" ≡ 300
unfolding get_estimated_duration get
estimate_a = refl

estimate_b : get_estimated_duration known "b" ≡ 300
unfolding get_estimated_duration get moving_average weigh
estimate_b = refl

estimate_c : get_estimated_duration known "c" ≡ 50
unfolding get_estimated_duration get
estimate_c = refl

estimate_d : get_estimated_duration known "d" ≡ 1000
unfolding get_estimated_duration get
estimate_d = refl

estimates_below : (n : ℕ) → 1000 ≤ n → All (λ k. get_estimated_duration known k ≤ n) tests
estimates_below n h =
    rw (estimate_a, estimate_b, estimate_c, estimate_d)
      (omega arith, (omega arith, (omega arith, (omega arith, tt))))

split_balanced_band_example :
    (low : ℕ) × All
      (λ b. (low ≤ cost known b) × (cost known b ≤ low + 1000))
      (split_balanced known tests 2)
split_balanced_band_example =
    split_balanced_band known tests 2 1000
      (rw (estimate_a, estimate_b, estimate_c, estimate_d) (omega arith))
      (estimates_below 1000 (omega arith))

split_balanced-perm_example : Perm (flatten (split_balanced known tests 2)) tests
split_balanced-perm_example = split_balanced-perm known tests 2

schedule-perm_example : Perm (schedule known tests true ("c" ∷ [])) tests
schedule-perm_example = schedule-perm known tests true ("c" ∷ [])

schedule-LeadsWith_example : LeadsWith (contains ("c" ∷ [])) (schedule known tests true ("c" ∷ []))
schedule-LeadsWith_example = schedule-LeadsWith known ("c" ∷ []) tests (
    rw (estimate_a, estimate_b, estimate_c, estimate_d)
      (omega arith, (omega arith, (omega arith, (omega arith, tt)))))

schedule_by_duration_example :
    IsFalling (get_estimated_duration known) (schedule known tests false [])
    × (IsFalling (get_estimated_duration known) tests → schedule known tests false [] ≡ tests)
schedule_by_duration_example = schedule_by_duration known [] tests

history_b : get_history known "b" ≡ some (100 ∷ 400 ∷ [])
unfolding get_history get
history_b = refl

get_estimated_duration_bounds_example :
    (or_default (get_history known "b") ≡ []
      → get_estimated_duration known "b" ≡ known.default_duration_ms)
    × (or_default (get_history known "b") ≢ []
        → (100 ≤ get_estimated_duration known "b") × (get_estimated_duration known "b" ≤ 400))
get_estimated_duration_bounds_example =
    get_estimated_duration_bounds known "b" 100 400
      (rw history_b (omega arith, (omega arith, (omega arith, tt))))
      (rw history_b ((omega arith, omega arith), ((omega arith, omega arith), tt)))

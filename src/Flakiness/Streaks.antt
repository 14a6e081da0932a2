-- ===== src/Flakiness/Streaks.antt =====
-- What a history of outcomes does to the stability of a test
-- (crates/rpytest-daemon/src/flakiness.rs).
use rpytest.Common.{
  ℕ, ◌+◌, ◌≤◌, ◌<◌, ◌≡◌, refl, String, true, List, [], ◌∷◌, Option, none, some, if◌then◌else◌,
  arith, differ, length,
}
use rpytest.Models.{
  TestOutcome, is_fail, is_flaky, StabilityState, unknown, stable, unstable, flaky, confirmed_flaky,
  FlakinessRecord,
}
use rpytest.Flakiness.{update_record, new_record, record_all}
use rpytest.Flakiness.Invariant.{Explains, flips}
use rpytest.Flakiness.Records.{
  IsConsistent, update_record-IsConsistent, new_record-IsConsistent, count_flips-word,
}

-- How often a history goes from failing to not failing or back, after the outcome `prev`.
unfoldable pub changes : Option TestOutcome → List TestOutcome → ℕ
changes prev [] = 0
changes none (o ∷ os) = changes (some o) os
changes (some p) (o ∷ os) = (if differ (is_fail p) (is_fail o) then 1 else 0) + changes (some o) os

-- The last outcome of a history, `prev` if it is empty.
abbrev pub last_or : Option TestOutcome → List TestOutcome → Option TestOutcome
last_or prev [] = prev
last_or prev (o ∷ os) = last_or (some o) os

module _ (max_outcomes : ℕ) (positive : 0 < max_outcomes) where
  total_runs-update :
      (r : FlakinessRecord) (o : TestOutcome) (m : Option String)
      → r.total_runs < 4_294_967_295
      → (update_record max_outcomes r o m).total_runs ≡ r.total_runs + 1
  unfolding update_record
  total_runs-update r o m h = omega arith

  flaky_streak-update :
      (prev : Option TestOutcome) (r : FlakinessRecord) (o : TestOutcome) (m : Option String)
      → IsConsistent max_outcomes prev r
      → (update_record max_outcomes r o m).flaky_streak ≡ flips prev o r.flaky_streak
  unfolding update_record
  flaky_streak-update prev r o m c = rw (c.last, count_flips-word prev)

  flips-changes :
      (p : Option TestOutcome) (o : TestOutcome) (os : List TestOutcome) (n : ℕ)
      → n < 4_294_967_295
      → flips p o n + changes (some o) os ≡ n + changes p (o ∷ os)
  unfolding changes
  flips-changes none o os n h = refl
  flips-changes (some p) o os n h = ground arith

  -- Recording a history keeps a record consistent: the last outcome stands at the end of the window,
  -- which is within its limit; no counter is over the number of runs; a stable state counts at most
  -- the current passes, an unstable one at most the current failures, a flaky one at most 2 and at
  -- most the flips, and a confirmed one has 3 flips or more. The runs stay below 2^32.
  pub record_all-IsConsistent :
      (prev : Option TestOutcome) (r : FlakinessRecord) (os : List TestOutcome)
      → r.total_runs + length os < 4_294_967_296
      → IsConsistent max_outcomes prev r
      → IsConsistent max_outcomes (last_or prev os) (record_all max_outcomes r os)
  unfolding record_all
  record_all-IsConsistent prev r [] h c = c
  record_all-IsConsistent prev r (o ∷ os) h c =
      record_all-IsConsistent (some o) (update_record max_outcomes r o none) os
        (omega (arith, total_runs-update r o none))
        (update_record-IsConsistent max_outcomes positive prev r o none (omega arith) c)

  flaky_streak-record_all :
      (prev : Option TestOutcome) (r : FlakinessRecord) (os : List TestOutcome)
      → r.total_runs + length os < 4_294_967_296
      → IsConsistent max_outcomes prev r
      → (record_all max_outcomes r os).flaky_streak ≡ r.flaky_streak + changes prev os
  unfolding record_all changes
  flaky_streak-record_all prev r [] h c = omega arith
  flaky_streak-record_all prev r (o ∷ os) h c =
      let t = total_runs-update r o none (omega arith) in
      let f = flaky_streak-update prev r o none c in
      let g = flips-changes prev o os r.flaky_streak (omega (arith, c.streak)) in
      let ih =
        flaky_streak-record_all (some o) (update_record max_outcomes r o none) os (omega (arith, t))
          (update_record-IsConsistent max_outcomes positive prev r o none (omega arith) c) in
      omega (arith, ih, f, g)

  Explains-flaky :
      (s : StabilityState) (prev : Option TestOutcome) (passes failures streak : ℕ)
      → is_flaky s ≡ true
      → Explains s prev passes failures streak
      → 2 ≤ streak
  unfolding is_flaky
  Explains-flaky (flaky n) prev p f k h e = ground arith
  Explains-flaky confirmed_flaky prev p f k h e = omega arith
  Explains-flaky unknown prev p f k h e = cc
  Explains-flaky (stable n) prev p f k h e = cc
  Explains-flaky (unstable n) prev p f k h e = cc

  -- A test that is reported flaky has changed between failing and not failing at least twice, if it
  -- has fewer than 2^32 runs and the window is not empty.
  pub flaky_needs_changes :
      (k : String) (os : List TestOutcome)
      → length os < 4_294_967_296
      → is_flaky (record_all max_outcomes (new_record k) os).stability ≡ true
      → 2 ≤ changes none os
  flaky_needs_changes k os h reported =
      let c0 = new_record-IsConsistent max_outcomes k in
      let h' : (new_record k).total_runs + length os < 4_294_967_296 =
        unfold new_record in omega arith in
      let zero_streak : (new_record k).flaky_streak ≡ 0 = unfold new_record in refl in
      let c = record_all-IsConsistent none (new_record k) os h' c0 in
      let s = flaky_streak-record_all none (new_record k) os h' c0 in
      omega (
        arith,
        s,
        zero_streak,
        Explains-flaky (record_all max_outcomes (new_record k) os).stability (last_or none os)
            (record_all max_outcomes (new_record k) os).consecutive_passes
            (record_all max_outcomes (new_record k) os).consecutive_failures
            (record_all max_outcomes (new_record k) os).flaky_streak reported c.explains,
      )

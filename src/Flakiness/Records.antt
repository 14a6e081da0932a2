-- ===== src/Flakiness/Records.antt =====
-- The record of one test through a history of outcomes (record_outcome of
-- crates/rpytest-daemon/src/flakiness.rs).
use rpytest.Common.{
  ℕ, ◌+◌, ◌≤◌, ◌<◌, ◌≡◌, refl, ◌∙◌, String, true, [], ◌∷◌, ◌++◌, Option, none, some, arith, length,
  length-append, get_last?, get_last?-append, get_last?-keep_last, length-keep_last,
}
use rpytest.Models.{
  TestOutcome, passed, failed, skipped, error, xfail, xpass, to_str, FlakinessRecord,
}
use rpytest.Flakiness.{
  was_pass, was_fail, and_then, count_passes, count_failures, count_flips, update_record,
  new_record,
}
use rpytest.Flakiness.Invariant.{Explains, flips, transition-Explains}

abbrev pub word : Option TestOutcome → Option String
word none = none
word (some o) = some (to_str o)

-- `prev` is the outcome that was recorded last.
pub record IsConsistent (max_outcomes : ℕ) (prev : Option TestOutcome) (r : FlakinessRecord)
    : Type 0 where
  pub last : get_last? r.outcomes ≡ word prev
  pub window : length r.outcomes ≤ max_outcomes
  pub passes : r.consecutive_passes ≤ r.total_runs
  pub failures : r.consecutive_failures ≤ r.total_runs
  pub streak : r.flaky_streak ≤ r.total_runs
  pub after_pass : was_pass prev ≡ true → 1 ≤ r.consecutive_passes
  pub after_fail : was_fail prev ≡ true → 1 ≤ r.consecutive_failures
  pub explains :
      Explains r.stability prev r.consecutive_passes r.consecutive_failures r.flaky_streak

pub and_then-word : (p : Option TestOutcome) → and_then (word p) ≡ p
unfolding to_str
and_then-word none = refl
and_then-word (some passed) = refl
and_then-word (some failed) = refl
and_then-word (some skipped) = refl
and_then-word (some error) = refl
and_then-word (some xfail) = refl
and_then-word (some xpass) = refl

pub count_flips-word :
    (p : Option TestOutcome) (o : TestOutcome) (n : ℕ) → count_flips (word p) o n ≡ flips p o n
unfolding to_str
count_flips-word none o n = refl
count_flips-word (some passed) o n = refl
count_flips-word (some failed) o n = refl
count_flips-word (some skipped) o n = refl
count_flips-word (some error) o n = refl
count_flips-word (some xfail) o n = refl
count_flips-word (some xpass) o n = refl

count_passes_bounds :
    (o : TestOutcome) (n : ℕ)
    → n < 4_294_967_295
    → (count_passes o n ≤ n + 1) × (was_pass (some o) ≡ true → 1 ≤ count_passes o n)
count_passes_bounds passed n h = (omega arith, λ _. omega arith)
count_passes_bounds _ n h = (omega arith, λ e. cc)

count_failures_bounds :
    (o : TestOutcome) (n : ℕ)
    → n < 4_294_967_295
    → (count_failures o n ≤ n + 1) × (was_fail (some o) ≡ true → 1 ≤ count_failures o n)
count_failures_bounds passed n h = (omega arith, λ e. cc)
count_failures_bounds failed n h = (omega arith, λ _. omega arith)
count_failures_bounds error n h = (omega arith, λ _. omega arith)
count_failures_bounds _ n h = (omega arith, λ e. cc)

flips_bound :
    (p : Option TestOutcome) (o : TestOutcome) (n : ℕ) → n < 4_294_967_295 → flips p o n ≤ n + 1
flips_bound none o n h = omega arith
flips_bound (some p) o n h = ground arith

module _ (max_outcomes : ℕ) (positive : 0 < max_outcomes) where
  pub get_last?-update :
      (r : FlakinessRecord) (o : TestOutcome) (m : Option String)
      → get_last? (update_record max_outcomes r o m).outcomes ≡ some (to_str o)
  unfolding update_record
  get_last?-update r o m =
      get_last?-keep_last max_outcomes (r.outcomes ++ to_str o ∷ []) positive
        (omega (arith, length-append r.outcomes (to_str o ∷ [])))
      ∙ get_last?-append r.outcomes (to_str o)

  update_record-Explains :
      (prev : Option TestOutcome) (r : FlakinessRecord) (o : TestOutcome) (m : Option String)
      → r.total_runs < 4_294_967_295
      → IsConsistent max_outcomes prev r
      → Explains
          (update_record max_outcomes r o m).stability
          (some o)
          (count_passes o r.consecutive_passes)
          (count_failures o r.consecutive_failures)
          (count_flips (get_last? r.outcomes) o r.flaky_streak)
  unfolding update_record
  update_record-Explains prev r o m h c =
      rw (c.last, and_then-word prev, count_flips-word prev)
        (transition-Explains r.consecutive_passes r.consecutive_failures r.flaky_streak
          (omega (arith, c.passes)) (omega (arith, c.failures)) (omega (arith, c.streak))
          r.stability o prev c.after_pass c.after_fail c.explains)

  pub update_record-IsConsistent :
      (prev : Option TestOutcome) (r : FlakinessRecord) (o : TestOutcome) (m : Option String)
      → r.total_runs < 4_294_967_295
      → IsConsistent max_outcomes prev r
      → IsConsistent max_outcomes (some o) (update_record max_outcomes r o m)
  unfolding update_record
  update_record-IsConsistent prev r o m h c =
      let p = count_passes_bounds o r.consecutive_passes (omega (arith, c.passes)) in
      let f = count_failures_bounds o r.consecutive_failures (omega (arith, c.failures)) in
      record {
        last = get_last?-update r o m;
        window = length-keep_last max_outcomes (r.outcomes ++ to_str o ∷ []);
        passes = omega (arith, c.passes, p.0);
        failures = omega (arith, c.failures, f.0);
        streak =
            rw (c.last, count_flips-word prev)
              (omega
                (arith, c.streak, flips_bound prev o r.flaky_streak (omega (arith, c.streak))));
        after_pass = p.1;
        after_fail = f.1;
        explains = update_record-Explains prev r o m h c;
      }

pub new_record-IsConsistent :
    (max_outcomes : ℕ) (k : String) → IsConsistent max_outcomes none (new_record k)
unfolding new_record
new_record-IsConsistent max_outcomes k = record {
  last = refl;
  window = omega arith;
  passes = omega arith;
  failures = omega arith;
  streak = omega arith;
  after_pass = λ e. cc;
  after_fail = λ e. cc;
  explains = tt;
}

-- ===== src/Scheduler/Order.antt =====
-- The order of a scheduled run (schedule of crates/rpytest-daemon/src/scheduler.rs).
use mathlib.Core.List.{Perm}
use mathlib.Core.List.Perm
use mathlib.Core.Path.{subst}
use rpytest.Common.{
  ℕ, ◌≤◌, ◌<◌, ◌≡◌, refl, ap, ◌∙◌, String, Bool, true, false, List, [], ◌∷◌, map, arith, All,
  Bool-cases, inl, inr,
}
use rpytest.Common.Sort.{
  sort_falling, sort_falling-perm, sort_falling-IsFalling, sort_falling_sorted, sort_falling-All,
  sort_falling-map, IsFalling,
}
use rpytest.Scheduler.{
  TestScheduler, ScheduledTest, contains, scheduled_test, schedule, get_estimated_duration,
}

node_ids-scheduled_test :
    (s : TestScheduler) (b : Bool) (recent ids : List String)
    → map (λ (t : ScheduledTest). t.node_id) (map (scheduled_test s b recent) ids) ≡ ids
unfolding scheduled_test
node_ids-scheduled_test s b recent [] = refl
node_ids-scheduled_test s b recent (k ∷ ks) = ap (◌∷◌ k) (node_ids-scheduled_test s b recent ks)

-- A schedule runs each given test, as often as it was given, and no other.
pub schedule-perm :
    (s : TestScheduler) (ids : List String) (failed_first : Bool) (recent : List String)
    → Perm (schedule s ids failed_first recent) ids
unfolding schedule
schedule-perm s ids b recent =
    subst (λ xs. Perm (schedule s ids b recent) xs) (node_ids-scheduled_test s b recent ids)
      (Perm.map (λ (t : ScheduledTest). t.node_id)
        (sort_falling-perm (λ t. t.priority) (map (scheduled_test s b recent) ids)))

-- Once a test is not in `p`, no later one is.
abbrev pub LeadsWith : (String → Bool) → List String → Type 0
LeadsWith p [] = Unit
LeadsWith p (k ∷ ks) = (p k ≡ false → All (λ j. p j ≡ false) ks) × LeadsWith p ks

module _ (s : TestScheduler) (recent : List String) where
  abbrev Ranked : ScheduledTest → Type 0
  Ranked t =
      (contains recent t.node_id ≡ true → 1_000_000 ≤ t.priority)
      × (contains recent t.node_id ≡ false → t.priority < 1_000_000)

  scheduled_test-Ranked :
      (k : String)
      → get_estimated_duration s k < 1_000_000
      → Ranked (scheduled_test s true recent k)
  unfolding scheduled_test
  scheduled_test-Ranked k h = (λ e. rw e (omega arith), λ e. rw e h)

  map-Ranked :
      (ids : List String)
      → All (λ k. get_estimated_duration s k < 1_000_000) ids
      → All Ranked (map (scheduled_test s true recent) ids)
  map-Ranked [] a = tt
  map-Ranked (k ∷ ks) a = (scheduled_test-Ranked k a.0, map-Ranked ks a.1)

  none_after :
      (n : ℕ) (ts : List ScheduledTest)
      → n < 1_000_000
      → All Ranked ts
      → All (λ (t : ScheduledTest). t.priority ≤ n) ts
      → All (λ j. contains recent j ≡ false) (map (λ (t : ScheduledTest). t.node_id) ts)
  none_after n [] h r a = tt
  none_after n (t ∷ ts) h r a = elim (Bool-cases (contains recent t.node_id)) [
    | inl e ↦ absurd (omega (arith, r.0.0 e, a.0))
    | inr e ↦ (e, none_after n ts h r.1 a.1)
  ]

  Ranked-LeadsWith :
      (ts : List ScheduledTest)
      → All Ranked ts
      → IsFalling (λ (t : ScheduledTest). t.priority) ts
      → LeadsWith (contains recent) (map (λ (t : ScheduledTest). t.node_id) ts)
  Ranked-LeadsWith [] r f = tt
  Ranked-LeadsWith (t ∷ ts) r f =
      (λ e. none_after t.priority ts (r.0.1 e) r.1 f.0, Ranked-LeadsWith ts r.1 f.1)

  -- With failures first, every recently failed test comes before every other test, if each test is
  -- estimated at less than 1,000,000 ms.
  pub schedule-LeadsWith :
      (ids : List String)
      → All (λ k. get_estimated_duration s k < 1_000_000) ids
      → LeadsWith (contains recent) (schedule s ids true recent)
  unfolding schedule
  schedule-LeadsWith ids a =
      let ts = map (scheduled_test s true recent) ids in
      Ranked-LeadsWith (sort_falling (λ t. t.priority) ts)
        (sort_falling-All (λ t. t.priority) Ranked ts (map-Ranked ids a))
        (sort_falling-IsFalling (λ t. t.priority) ts)

  schedule-eq-sort_falling :
      (ids : List String)
      → schedule s ids false recent ≡ sort_falling (get_estimated_duration s) ids
  unfolding schedule
  schedule-eq-sort_falling ids =
      ap (map (λ (t : ScheduledTest). t.node_id))
        (sort_falling-map (λ (t : ScheduledTest). t.priority) (scheduled_test s false recent) ids)
      ∙ node_ids-scheduled_test s false recent (sort_falling (get_estimated_duration s) ids)

  -- Without failures first, tests run by falling estimate, and tests that are already in that order
  -- keep their order.
  pub schedule_by_duration :
      (ids : List String)
      → IsFalling (get_estimated_duration s) (schedule s ids false recent)
        × (IsFalling (get_estimated_duration s) ids → schedule s ids false recent ≡ ids)
  schedule_by_duration ids =
      let e = schedule-eq-sort_falling ids in
      (
        rw e (sort_falling-IsFalling (get_estimated_duration s) ids),
        λ h. e ∙ sort_falling_sorted (get_estimated_duration s) ids h,
      )

-- ===== src/Scheduler/Batches.antt =====
-- The batches of split_balanced (crates/rpytest-daemon/src/scheduler.rs).
use mathlib.Core.List.{Perm, flatten, append-nil}
use mathlib.Core.List.Perm
use rpytest.Common.{
  ℕ, zero, suc, ◌+◌, ◌≤◌, ◌<◌, ◌≡◌, ◌≢◌, ◌⊎◌, refl, ap, ◌∙◌, sym, String, true, not, ◌||◌, List, [],
  ◌∷◌, ◌++◌, map, leb, arith, All, Bool-cases, inl, inr, length, filter, is_empty, replicate,
  length-replicate, length-filter-le, filter-All,
}
use rpytest.Common.Sort.{
  sort_falling, sort_falling-perm, sort_falling-All, sort_falling-map, sort_falling-sum_of,
}
use rpytest.Scheduler.{
  TestScheduler, get_estimated_duration, assign, with_duration, split_balanced, min_index,
}
use rpytest.Scheduler.Least.{length-modify}
use rpytest.Scheduler.Balance.{cost, IsTracked, assign-perm, assign_band}

flatten-filter :
    (bs : List (List String)) → flatten (filter (λ b. not (is_empty b)) bs) ≡ flatten bs
unfolding flatten
flatten-filter [] = refl
flatten-filter ([] ∷ bs) = flatten-filter bs
flatten-filter ((k ∷ b) ∷ bs) = ap (◌++◌ (k ∷ b)) (flatten-filter bs)

abbrev no_tests : List String
no_tests = []

flatten-replicate : (n : ℕ) → flatten (replicate n (no_tests)) ≡ []
unfolding flatten
flatten-replicate zero = refl
flatten-replicate (suc n) = flatten-replicate n

filter-nonempty : (bs : List (List String)) → All (λ b. b ≢ []) (filter (λ b. not (is_empty b)) bs)
filter-nonempty [] = tt
filter-nonempty ([] ∷ bs) = filter-nonempty bs
filter-nonempty ((k ∷ b) ∷ bs) = (λ e. cc, filter-nonempty bs)

length-assign :
    (ps : List (String × ℕ)) (bs : List (List String)) (loads : List ℕ)
    → length (assign ps bs loads) ≡ length bs
unfolding assign
length-assign [] bs loads = refl
length-assign ((k, d) ∷ ps) bs loads =
    length-assign ps _ _ ∙ length-modify (λ b. b ++ k ∷ []) (min_index loads) bs

module _ (s : TestScheduler) where
  abbrev sorted : List String → List String
  sorted = sort_falling (get_estimated_duration s)

  abbrev assigned : List String → ℕ → List (List String)
  assigned ids n = assign (map (with_duration s) (sorted ids)) (replicate n []) (replicate n 0)

  -- The two ways out of `split_balanced`.
  split_cases {κ} :
      (P : List (List String) → Type κ) (ids : List String) (n : ℕ)
      → (leb n 1 || is_empty ids ≡ true → P (ids ∷ []))
      → (1 < n → P (filter (λ b. not (is_empty b)) (assigned ids n)))
      → P (split_balanced s ids n)
  unfolding split_balanced
  split_cases P ids n single many = elim (Bool-cases (leb n 1 || is_empty ids)) [
    | inl e ↦ rw e (single e)
    | inr e ↦
        rw (e, sort_falling-map (λ (p : String × ℕ). p.1) (with_duration s) ids)
          (many (ground arith))
  ]

  -- The batches hold each given test, as often as it was given, and no other.
  pub split_balanced-perm :
      (ids : List String) (n : ℕ) → Perm (flatten (split_balanced s ids n)) ids
  split_balanced-perm ids n =
      split_cases (λ r. Perm (flatten r) ids) ids n
        (λ _. unfold flatten in rw append-nil (Perm.refl ids))
        (λ h. rw flatten-filter (
          Perm.trans
            (assign-perm s (sorted ids) (replicate n []) (replicate n 0)
              (omega (arith, length-replicate {A = ℕ} n 0))
              (length-replicate {A = ℕ} n 0 ∙ sym (length-replicate n no_tests)))
            (rw (flatten-replicate n, append-nil)
              (sort_falling-perm (get_estimated_duration s) ids))))

  -- Of a run with tests, and with more than one worker, no batch is empty and there are at most as
  -- many batches as workers; otherwise there is one batch.
  split_balanced_shape :
      (ids : List String) (n : ℕ)
      → (length (split_balanced s ids n) ≡ 1)
        ⊎ ((1 < n)
            × All (λ b. b ≢ []) (split_balanced s ids n)
            × (length (split_balanced s ids n) ≤ n))
  split_balanced_shape ids n =
      split_cases (λ r. (length r ≡ 1) ⊎ ((1 < n) × All (λ b. b ≢ []) r × (length r ≤ n))) ids n
        (λ _. inl refl)
        (λ h. inr (
          h,
          filter-nonempty (assigned ids n),
          omega (
            arith,
            length-filter-le (λ b. not (is_empty b)) (assigned ids n),
            length-assign (map (with_duration s) (sorted ids)) (replicate n []) (replicate n 0),
            length-replicate n no_tests,
          ),
        ))

  start-IsTracked :
      (longest n : ℕ) → 0 < n → IsTracked s longest 0 0 (replicate n []) (replicate n 0)
  start-IsTracked longest n h = record {
    costs = zeros n;
    below = all_zero n;
    band = in_band n;
    inhabited = omega (arith, length-replicate {A = ℕ} n 0);
  }
    where
      zeros : (k : ℕ) → replicate k 0 ≡ map (cost s) (replicate k [])
      zeros zero = refl
      zeros (suc k) = ap (◌∷◌ 0) (zeros k)

      all_zero : (k : ℕ) → All (λ a. a ≤ 0) (replicate k 0)
      all_zero zero = tt
      all_zero (suc k) = (omega arith, all_zero k)

      in_band : (k : ℕ) → All (λ a. (0 ≤ a) × (a ≤ 0 + longest)) (replicate k 0)
      in_band zero = tt
      in_band (suc k) = ((omega arith, omega arith), in_band k)

  -- The estimated costs of the batches differ by at most the longest estimate, if the estimates of
  -- the run add up to less than 2^64: all costs lie between some `low` and `low + longest`.
  pub split_balanced_band :
      (ids : List String) (n longest : ℕ)
      → cost s ids < 18_446_744_073_709_551_616
      → All (λ k. get_estimated_duration s k ≤ longest) ids
      → (low : ℕ) × All
          (λ b. (low ≤ cost s b) × (cost s b ≤ low + longest))
          (split_balanced s ids n)
  split_balanced_band ids n longest h short =
      split_cases (λ r. (low : ℕ) × All (λ b. (low ≤ cost s b) × (cost s b ≤ low + longest)) r) ids
        n (λ _. (cost s ids, ((omega arith, omega arith), tt)))
        (λ many.
          let (low, band) =
            assign_band s longest 0 0 (sorted ids) (replicate n []) (replicate n 0)
              (start-IsTracked longest n (omega arith))
              (omega (
                arith,
                h,
                sort_falling-sum_of (get_estimated_duration s) (get_estimated_duration s) ids,
              ))
              (sort_falling-All (get_estimated_duration s)
                (λ k. get_estimated_duration s k ≤ longest) ids short) in
          (
            low,
            filter-All (λ b. (low ≤ cost s b) × (cost s b ≤ low + longest)) (λ b. not (is_empty b))
                (assigned ids n) band,
          ))

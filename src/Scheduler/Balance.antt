-- ===== src/Scheduler/Balance.antt =====
-- The greedy loop of split_balanced (crates/rpytest-daemon/src/scheduler.rs): it keeps every test,
-- and the loads of the batches stay in a band.
use mathlib.Core.List.{Perm, flatten, perm_append_singleton, perm_middle}
use mathlib.Core.List.Perm
use mathlib.Core.Path.{subst}
use rpytest.Common.{
  ℕ, zero, suc, ◌+◌, ◌≤◌, ◌<◌, ◌≡◌, refl, ap, ◌∙◌, String, List, [], ◌∷◌, ◌++◌, map, arith, All,
  add_u64, length, sum_of, sum_of-append,
}
use rpytest.Scheduler.Least.{modify-All, length-modify, get_elem?-some, min_index-lem, All-at}
use rpytest.Scheduler.{
  TestScheduler, get_estimated_duration, min_index, modify, assign, with_duration,
}

abbrev push : String → List String → List String
push k b = b ++ k ∷ []

flatten-push-perm :
    (k : String) (i : ℕ) (bs : List (List String))
    → i < length bs
    → Perm (flatten (modify (push k) i bs)) (k ∷ flatten bs)
unfolding flatten
flatten-push-perm k i [] h = elim h [ ]
flatten-push-perm k zero (b ∷ bs) h = Perm.append_right (flatten bs) (perm_append_singleton k b)
flatten-push-perm k (suc i) (b ∷ bs) h =
    Perm.trans (Perm.append_left b (flatten-push-perm k i bs (omega arith)))
      (perm_middle b (flatten bs))

module _ (s : TestScheduler) where
  abbrev pub cost : List String → ℕ
  cost = sum_of (get_estimated_duration s)

  pub assign-perm :
      (ids : List String) (bs : List (List String)) (loads : List ℕ)
      → 0 < length loads
      → length loads ≡ length bs
      → Perm (flatten (assign (map (with_duration s) ids) bs loads)) (ids ++ flatten bs)
  unfolding assign
  assign-perm [] bs loads h e = Perm.refl _
  assign-perm (k ∷ ids) bs loads h e =
      let i = min_index loads in
      let d = get_estimated_duration s k in
      let (m, found) = min_index-lem loads h in
      let lb = length-modify (push k) i bs in
      let ll = length-modify (λ a. add_u64 a d) i loads in
      Perm.trans
        (assign-perm ids (modify (push k) i bs) (modify (λ a. add_u64 a d) i loads)
          (omega (arith, ll)) (omega (arith, ll, lb)))
        (Perm.trans
          (Perm.append_left ids
            (flatten-push-perm k i bs (omega (arith, get_elem?-some loads i m found.at))))
          (perm_middle ids (flatten bs)))

  -- The loads of the loop are the costs of the batches, lie below `total`, and in a band of width
  -- `longest` over `low`.
  pub record IsTracked (longest total low : ℕ) (bs : List (List String)) (loads : List ℕ)
      : Type 0 where
    pub costs : loads ≡ map cost bs
    pub below : All (λ a. a ≤ total) loads
    pub band : All (λ a. (low ≤ a) × (a ≤ low + longest)) loads
    pub inhabited : 0 < length loads

  map-cost-modify :
      (k : String) (i : ℕ) (bs : List (List String))
      → All (λ a. a + get_estimated_duration s k < 18_446_744_073_709_551_616) (map cost bs)
      → modify (λ a. add_u64 a (get_estimated_duration s k)) i (map cost bs)
        ≡ map cost (modify (push k) i bs)
  map-cost-modify k i [] a = refl
  map-cost-modify k zero (b ∷ bs) a =
      ap (λ c. c ∷ map cost bs)
        (omega (arith, a.0, sum_of-append (get_estimated_duration s) b (k ∷ [])))
  map-cost-modify k (suc i) (b ∷ bs) a = ap (◌∷◌ (cost b)) (map-cost-modify k i bs a.1)

  below_wrap :
      (d total : ℕ) (loads : List ℕ)
      → total + d < 18_446_744_073_709_551_616
      → All (λ a. a ≤ total) loads
      → All (λ a. a + d < 18_446_744_073_709_551_616) loads
  below_wrap d total [] h a = tt
  below_wrap d total (x ∷ xs) h a = (omega (arith, a.0), below_wrap d total xs h a.1)

  All-add :
      (d total : ℕ) (loads : List ℕ) → All (λ a. a ≤ total) loads → All (λ a. a ≤ total + d) loads
  All-add d total [] a = tt
  All-add d total (x ∷ xs) a = (omega (arith, a.0), All-add d total xs a.1)

  -- A least load is the bottom of a band of the same width.
  rebase :
      (longest low m : ℕ) (loads : List ℕ)
      → low ≤ m
      → All (λ a. m ≤ a) loads
      → All (λ a. (low ≤ a) × (a ≤ low + longest)) loads
      → All (λ a. (m ≤ a) × (a ≤ m + longest)) loads
  rebase longest low m [] h l a = tt
  rebase longest low m (x ∷ xs) h l a =
      ((l.0, omega (arith, a.0.1)), rebase longest low m xs h l.1 a.1)

  step-IsTracked :
      (longest total low : ℕ) (k : String) (bs : List (List String)) (loads : List ℕ)
      → IsTracked longest total low bs loads
      → total + get_estimated_duration s k < 18_446_744_073_709_551_616
      → get_estimated_duration s k ≤ longest
      → (low' : ℕ) × IsTracked longest
          (total + get_estimated_duration s k)
          low'
          (modify (push k) (min_index loads) bs)
          (modify (λ a. add_u64 a (get_estimated_duration s k)) (min_index loads) loads)
  step-IsTracked longest total low k bs loads t h short =
      let d = get_estimated_duration s k in
      let i = min_index loads in
      let (m, found) = min_index-lem loads t.inhabited in
      let low_m = All-at (λ a. (low ≤ a) × (a ≤ low + longest)) i m loads found.at t.band in
      let m_total = All-at (λ a. a ≤ total) i m loads found.at t.below in
      (
        m,
        record {
          costs =
              ap (modify (λ a. add_u64 a d) i) t.costs
              ∙ map-cost-modify k i bs (
                  subst (All (λ a. a + d < 18_446_744_073_709_551_616)) t.costs
                    (below_wrap d total loads h t.below));
          below =
              modify-All (λ a. a ≤ total + d) (λ a. add_u64 a d) i loads m found.at
                (omega (arith, m_total)) (All-add d total loads t.below);
          band =
              modify-All (λ a. (m ≤ a) × (a ≤ m + longest)) (λ a. add_u64 a d) i loads m found.at
                (omega (arith, m_total), omega (arith, m_total))
                (rebase longest low m loads low_m.0 found.least t.band);
          inhabited = omega (arith, length-modify (λ a. add_u64 a d) i loads, t.inhabited);
        },
      )

  All-cost :
      (longest low : ℕ) (bs : List (List String))
      → All (λ a. (low ≤ a) × (a ≤ low + longest)) (map cost bs)
      → All (λ b. (low ≤ cost b) × (cost b ≤ low + longest)) bs
  All-cost longest low [] a = tt
  All-cost longest low (b ∷ bs) a = (a.0, All-cost longest low bs a.1)

  pub assign_band :
      (longest total low : ℕ) (ids : List String) (bs : List (List String)) (loads : List ℕ)
      → IsTracked longest total low bs loads
      → total + cost ids < 18_446_744_073_709_551_616
      → All (λ k. get_estimated_duration s k ≤ longest) ids
      → (low' : ℕ) × All
          (λ b. (low' ≤ cost b) × (cost b ≤ low' + longest))
          (assign (map (with_duration s) ids) bs loads)
  unfolding assign
  assign_band longest total low [] bs loads t h a = (
    low,
    All-cost longest low bs (subst (All (λ a. (low ≤ a) × (a ≤ low + longest))) t.costs t.band),
  )
  assign_band longest total low (k ∷ ids) bs loads t h a =
      let (low', t') = step-IsTracked longest total low k bs loads t (omega arith) a.0 in
      assign_band longest (total + get_estimated_duration s k) low' ids _ _ t' (omega arith) a.1

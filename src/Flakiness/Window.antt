-- ===== src/Flakiness/Window.antt =====
-- The outcomes that a record keeps, and the stability that a history reaches
-- (crates/rpytest-daemon/src/flakiness.rs).
use mathlib.Core.List.{append_assoc, append-nil}
use rpytest.Common.{
  ℕ, zero, suc, ◌+◌, ◌-◌, ◌≤◌, ◌<◌, ◌≡◌, refl, ap, ◌∙◌, sym, String, true, List, [], ◌∷◌, ◌++◌,
  Option, none, some, arith, add_u32, length, get_last?, keep_last, keep_last-keep_last,
  length-keep_last, replicate, map,
}
use rpytest.Models.{
  TestOutcome, passed, failed, error, is_fail, to_str, StabilityState, unknown, stable,
  confirmed_flaky, FlakinessRecord,
}
use rpytest.Flakiness.{transition, update_record, new_record, record_all}
use rpytest.Flakiness.Records.{and_then-word, word, get_last?-update}

keep_last_all {ℓ} : {A : Type ℓ} (n : ℕ) (xs : List A) → length xs ≤ n → keep_last n xs ≡ xs
keep_last_all n xs h = let e : length xs - n ≡ 0 = omega arith in rw e

-- After any history a record keeps the last `max_outcomes` outcomes, in order, as words.
pub outcomes-record_all :
    (max_outcomes : ℕ) (r : FlakinessRecord) (os : List TestOutcome)
    → length r.outcomes ≤ max_outcomes
    → (record_all max_outcomes r os).outcomes ≡ keep_last max_outcomes (r.outcomes ++ map to_str os)
unfolding record_all update_record
outcomes-record_all n r [] h = rw append-nil (sym (keep_last_all n r.outcomes h))
outcomes-record_all n r (o ∷ os) h =
    outcomes-record_all n (update_record n r o none) os
      (length-keep_last n (r.outcomes ++ to_str o ∷ []))
    ∙ keep_last-keep_last n (r.outcomes ++ to_str o ∷ []) (map to_str os)
    ∙ ap (keep_last n) (append_assoc r.outcomes (to_str o ∷ []) (map to_str os))

-- The states that a history goes through, with the outcomes themselves and no record.
walk : StabilityState → Option TestOutcome → List TestOutcome → StabilityState
walk s prev [] = s
walk s prev (o ∷ os) = walk (transition s o prev) (some o) os

module _ (max_outcomes : ℕ) (positive : 0 < max_outcomes) where
  stability-record_all :
      (prev : Option TestOutcome) (r : FlakinessRecord) (os : List TestOutcome)
      → get_last? r.outcomes ≡ word prev
      → (record_all max_outcomes r os).stability ≡ walk r.stability prev os
  unfolding record_all walk
  stability-record_all prev r [] e = refl
  stability-record_all prev r (o ∷ os) e =
      stability-record_all (some o) (update_record max_outcomes r o none) os
        (get_last?-update max_outcomes positive r o none)
      ∙ ap (λ s. walk s (some o) os) (unfold update_record in rw (e, and_then-word prev) refl)

-- `o`, `p`, `o`, `p`, …: `n` outcomes.
pub alternate : TestOutcome → TestOutcome → ℕ → List TestOutcome
alternate o p zero = []
alternate o p (suc n) = o ∷ alternate p o n

walk_stays_confirmed :
    (f : TestOutcome) (n : ℕ)
    → is_fail f ≡ true
    → (walk confirmed_flaky (some f) (alternate passed f n) ≡ confirmed_flaky)
      × (walk confirmed_flaky (some passed) (alternate f passed n) ≡ confirmed_flaky)
unfolding walk alternate transition
walk_stays_confirmed f zero h = (refl, refl)
walk_stays_confirmed failed (suc n) h = let ih = walk_stays_confirmed failed n h in (ih.1, ih.0)
walk_stays_confirmed error (suc n) h = let ih = walk_stays_confirmed error n h in (ih.1, ih.0)
walk_stays_confirmed _ (suc n) h = cc

walk_confirms :
    (f : TestOutcome) (n : ℕ)
    → is_fail f ≡ true
    → (walk unknown none (alternate passed f (suc (suc (suc (suc n))))) ≡ confirmed_flaky)
      × (walk unknown none (alternate f passed (suc (suc (suc (suc n))))) ≡ confirmed_flaky)
unfolding walk alternate transition
walk_confirms failed n h = walk_stays_confirmed failed n h
walk_confirms error n h = walk_stays_confirmed error n h
walk_confirms _ n h = cc

walk_passes :
    (n k : ℕ)
    → n + k < 4_294_967_296
    → walk (stable n) (some passed) (replicate k passed) ≡ stable (n + k)
unfolding walk transition
walk_passes n zero h = ap stable (omega arith)
walk_passes n (suc k) h =
    let e : add_u32 n 1 ≡ n + 1 = omega arith in
    ap (λ m. walk (stable m) (some passed) (replicate k passed)) e
    ∙ walk_passes (n + 1) k (omega arith)
    ∙ ap stable (omega arith)

module _ (max_outcomes : ℕ) (positive : 0 < max_outcomes) where
  -- Four or more outcomes that alternate between passing and one way of failing, from a test with
  -- no record, make it confirmed flaky, whichever comes first.
  pub alternating_is_confirmed :
      (k : String) (f : TestOutcome) (n : ℕ)
      → is_fail f ≡ true
      → 4 ≤ n
      → ((record_all max_outcomes (new_record k) (alternate passed f n)).stability
          ≡ confirmed_flaky)
        × ((record_all max_outcomes (new_record k) (alternate f passed n)).stability
            ≡ confirmed_flaky)
  alternating_is_confirmed k f zero h m = absurd (omega arith)
  alternating_is_confirmed k f (suc zero) h m = absurd (omega arith)
  alternating_is_confirmed k f (suc (suc zero)) h m = absurd (omega arith)
  alternating_is_confirmed k f (suc (suc (suc zero))) h m = absurd (omega arith)
  alternating_is_confirmed k f (suc (suc (suc (suc n)))) h m =
      let n' = suc (suc (suc (suc n))) in
      let w = walk_confirms f n h in
      (
        unfold new_record in
            stability-record_all max_outcomes positive none (new_record k) (alternate passed f n')
              refl
            ∙ w.0,
        unfold new_record in
            stability-record_all max_outcomes positive none (new_record k) (alternate f passed n')
              refl
            ∙ w.1,
      )

  -- A confirmed flaky test whose last outcome was a pass is stable after the next pass, and `n`
  -- further passes give a streak of `n + 2`, if that is less than 2^32.
  pub confirmed_recovers :
      (r : FlakinessRecord) (n : ℕ)
      → r.stability ≡ confirmed_flaky
      → get_last? r.outcomes ≡ some "passed"
      → n + 2 < 4_294_967_296
      → (record_all max_outcomes r (passed ∷ replicate n passed)).stability ≡ stable (n + 2)
  unfolding to_str
  confirmed_recovers r n s e h =
      stability-record_all max_outcomes positive (some passed) r (passed ∷ replicate n passed) e
      ∙ rw s (unfold walk transition in (walk_passes 2 n (omega arith) ∙ ap stable (omega arith)))

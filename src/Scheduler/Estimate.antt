-- ===== src/Scheduler/Estimate.antt =====
-- Bounds of the estimated duration, and the histories it is computed from
-- (crates/rpytest-daemon/src/scheduler.rs).
use native.Mathlib.Nat.{le-div_iff_mul-le, div-le_of_le-mul, mul_comm}
use mathlib.Core.List.{append-nil, append_assoc}
use rpytest.Common.{
  ℕ, ◌+◌, ◌*◌, ◌≤◌, ◌<◌, ◌-◌, ◌≢◌, sym, keep_last-keep_last, ◌≡◌, refl, ap, ◌∙◌, String, eq_refl,
  List, [], ◌∷◌, ◌++◌, Option, none, some, arith, length, keep_last, length-keep_last, All,
}
use rpytest.Common.Dict
use rpytest.Common.Dict.{get-insert}
use rpytest.Scheduler.{
  TestScheduler, weigh, moving_average, estimate, get_estimated_duration, update_duration,
  or_default, get_history,
}

-- Both sums of the loop, against a bound of all durations from below and from above.
weigh_bounds :
    (lo hi w s t : ℕ) (ds : List ℕ)
    → All (λ d. (lo ≤ d) × (d ≤ hi)) ds
    → lo * t ≤ s
    → s ≤ hi * t
    → (lo * (weigh w s t ds).1 ≤ (weigh w s t ds).0)
      × ((weigh w s t ds).0 ≤ hi * (weigh w s t ds).1)
      × (t + w * length ds ≤ (weigh w s t ds).1)
unfolding weigh
weigh_bounds lo hi w s t [] a p q = (p, q, omega arith)
weigh_bounds lo hi w s t (d ∷ ds) a p q =
    let below : lo * w ≤ d * w = let h = a.0.0 in grind arith in
    let above : d * w ≤ hi * w = let h = a.0.1 in grind arith in
    let ih =
      weigh_bounds lo hi (w * 2) (s + d * w) (t + w) ds a.1 (omega (arith, below))
        (omega (arith, above)) in
    (ih.0, ih.1, omega (arith, ih.2))

moving_average_bounds :
    (lo hi d : ℕ) (ds : List ℕ)
    → All (λ d. (lo ≤ d) × (d ≤ hi)) (d ∷ ds)
    → (lo ≤ moving_average (d ∷ ds)) × (moving_average (d ∷ ds) ≤ hi)
unfolding moving_average
moving_average_bounds lo hi d ds a =
    let b = weigh_bounds lo hi 1 0 0 (d ∷ ds) a (omega arith) (omega arith) in
    let t = (weigh 1 0 0 (d ∷ ds)).1 in
    (
      (le-div_iff_mul-le {k = t} (omega (arith, b.2))).1 b.0,
      div-le_of_le-mul t (omega (arith, b.1, mul_comm hi t)),
    )

-- Durations for which the sums of the f64 average are exact and its quotient has the same whole part.
abbrev pub AreExact : List ℕ → Type 0
AreExact ds = (length ds ≤ 10) × All (λ d. d < 4_398_046_511_104) ds

-- The estimate of a test with a history of at most 10 durations, each below 2^42 ms, lies between any
-- bounds of these durations; without a history it is the default.
pub get_estimated_duration_bounds :
    (s : TestScheduler) (k : String) (lo hi : ℕ)
    → AreExact (or_default (get_history s k))
    → All (λ d. (lo ≤ d) × (d ≤ hi)) (or_default (get_history s k))
    → (or_default (get_history s k) ≡ [] → get_estimated_duration s k ≡ s.default_duration_ms)
      × (or_default (get_history s k) ≢ []
          → (lo ≤ get_estimated_duration s k) × (get_estimated_duration s k ≤ hi))
unfolding get_history get_estimated_duration
get_estimated_duration_bounds s k lo hi exact a = go (Dict.get s.duration_history k) a
  where
    go :
        (o : Option (List ℕ))
        → All (λ d. (lo ≤ d) × (d ≤ hi)) (or_default o)
        → (or_default o ≡ [] → estimate s.default_duration_ms o ≡ s.default_duration_ms)
          × (or_default o ≢ []
              → (lo ≤ estimate s.default_duration_ms o) × (estimate s.default_duration_ms o ≤ hi))
    go none b = (λ _. refl, λ h. absurd (h refl))
    go (some []) b = (λ _. refl, λ h. absurd (h refl))
    go (some (d ∷ [])) b = (λ e. cc, λ _. b.0)
    go (some (d ∷ e ∷ ds)) b = (λ x. cc, λ _. moving_average_bounds lo hi d (e ∷ ds) b)

-- Several runs of one test.
pub update_all : TestScheduler → String → List ℕ → TestScheduler
update_all s k [] = s
update_all s k (d ∷ ds) = update_all (update_duration s k d) k ds

keep_last_short {ℓ} : {A : Type ℓ} (n : ℕ) (xs : List A) → length xs ≤ n → keep_last n xs ≡ xs
keep_last_short n xs h = let e : length xs - n ≡ 0 = omega arith in rw e

history-update :
    (s : TestScheduler) (k : String) (d : ℕ)
    → or_default (get_history (update_duration s k d) k)
      ≡ keep_last 10 (or_default (get_history s k) ++ d ∷ [])
unfolding get_history update_duration
history-update s k d = simp (get-insert, eq_refl)

-- After any runs a test's history is its last ten durations, old ones included, in order.
get_history-update_all :
    (s : TestScheduler) (k : String) (ds : List ℕ)
    → length (or_default (get_history s k)) ≤ 10
    → or_default (get_history (update_all s k ds) k)
      ≡ keep_last 10 (or_default (get_history s k) ++ ds)
unfolding update_all
get_history-update_all s k [] h =
    rw append-nil (sym (keep_last_short 10 (or_default (get_history s k)) h))
get_history-update_all s k (d ∷ ds) h =
    let old = or_default (get_history s k) in
    let e = history-update s k d in
    get_history-update_all (update_duration s k d) k ds (rw e (length-keep_last 10 (old ++ d ∷ [])))
    ∙ ap (λ x. keep_last 10 (x ++ ds)) e
    ∙ keep_last-keep_last 10 (old ++ d ∷ []) ds
    ∙ ap (keep_last 10) (append_assoc old (d ∷ []) ds)

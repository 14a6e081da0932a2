-- ===== src/Scheduler/Least.antt =====
-- The place of the least load, and writes at one place of a list (min_by_key and the indexed writes
-- of split_balanced in crates/rpytest-daemon/src/scheduler.rs).

use mathlib.Core.Path.{subst}
use mathlib.Core.Option.{some-injective}
use rpytest.Common.{
  ℕ, zero, suc, ◌+◌, ◌≤◌, ◌<◌, ◌≡◌, ◌⊎◌, refl, ap, sym, List, [], ◌∷◌, some, ltb, arith, All,
  Bool-cases, inl, inr, length, get_elem?,
}
use rpytest.Scheduler.{min_from, min_index, modify}

-- `i` is the place of a least item, `m`.
pub record IsLeast (loads : List ℕ) (i m : ℕ) : Type 0 where
  pub at : get_elem? loads i ≡ some m
  pub least : All (λ d. m ≤ d) loads

-- The search ends at the item in hand, or at a smaller one in the rest.
abbrev Found : List ℕ → ℕ → ℕ → ℕ → ℕ → Type 0
Found ds best least i r =
    ((r ≡ best) × All (λ d. least ≤ d) ds)
    ⊎ ((j : ℕ) × (m : ℕ) × (r ≡ i + j)
        × (get_elem? ds j ≡ some m)
        × (m ≤ least)
        × All (λ d. m ≤ d) ds)

Found-smaller :
    (ds : List ℕ) (d least i r : ℕ) (best : ℕ)
    → d < least
    → Found ds i d (i + 1) r
    → Found (d ∷ ds) best least i r
Found-smaller ds d least i r best h (inl f) =
    inr (0, d, omega (arith, f.0), refl, omega arith, (omega arith, f.1))
Found-smaller ds d least i r best h (inr (j, m, e, g, l, a)) =
    inr (suc j, m, omega (arith, e), g, omega arith, (l, a))

Found-larger :
    (ds : List ℕ) (d least i r : ℕ) (best : ℕ)
    → least ≤ d
    → Found ds best least (i + 1) r
    → Found (d ∷ ds) best least i r
Found-larger ds d least i r best h (inl f) = inl (f.0, (h, f.1))
Found-larger ds d least i r best h (inr (j, m, e, g, l, a)) =
    inr (suc j, m, omega (arith, e), g, l, (omega arith, a))

min_from-Found : (ds : List ℕ) (best least i : ℕ) → Found ds best least i (min_from best least i ds)
unfolding min_from
min_from-Found [] best least i = inl (refl, tt)
min_from-Found (d ∷ ds) best least i = elim (Bool-cases (ltb d least)) [
  | inl e ↦ rw e (Found-smaller ds d least i _ best (ground arith) (min_from-Found ds i d (i + 1)))
  | inr e ↦
      rw e (Found-larger ds d least i _ best (ground arith) (min_from-Found ds best least (i + 1)))
]

Found-IsLeast : (ds : List ℕ) (d r : ℕ) → Found ds 0 d 1 r → (m : ℕ) × IsLeast (d ∷ ds) r m
Found-IsLeast ds d r (inl f) = (d, record { at = rw f.0; least = (omega arith, f.1) })
Found-IsLeast ds d r (inr (j, m, e, g, l, a)) =
    let e' : r ≡ suc j = omega (arith, e) in (m, record { at = rw e' g; least = (l, a) })

min_index-IsLeast : (d : ℕ) (ds : List ℕ) → (m : ℕ) × IsLeast (d ∷ ds) (min_index (d ∷ ds)) m
unfolding min_index
min_index-IsLeast d ds = Found-IsLeast ds d (min_from 0 d 1 ds) (min_from-Found ds 0 d 1)

pub modify-All {ℓ κ} :
    {A : Type ℓ} (P : A → Type κ) (f : A → A) (i : ℕ) (xs : List A) (v : A)
    → get_elem? xs i ≡ some v
    → P (f v)
    → All P xs
    → All P (modify f i xs)
modify-All P f i [] v e p a = tt
modify-All P f zero (x ∷ xs) v e p a = (subst (λ y. P (f y)) (some-injective v x (sym e)) p, a.1)
modify-All P f (suc i) (x ∷ xs) v e p a = (a.0, modify-All P f i xs v e p a.1)

pub length-modify {ℓ} :
    {A : Type ℓ} (f : A → A) (i : ℕ) (xs : List A) → length (modify f i xs) ≡ length xs
length-modify f i [] = refl
length-modify f zero (x ∷ xs) = refl
length-modify f (suc i) (x ∷ xs) = ap suc (length-modify f i xs)

pub get_elem?-some {ℓ} :
    {A : Type ℓ} (xs : List A) (i : ℕ) (v : A) → get_elem? xs i ≡ some v → i < length xs
get_elem?-some [] i v e = cc
get_elem?-some (x ∷ xs) zero v e = omega arith
get_elem?-some (x ∷ xs) (suc i) v e = omega (arith, get_elem?-some xs i v e)

pub min_index-lem :
    (loads : List ℕ) → 0 < length loads → (m : ℕ) × IsLeast loads (min_index loads) m
min_index-lem [] h = elim h [ ]
min_index-lem (d ∷ ds) h = min_index-IsLeast d ds

pub All-at {κ} :
    (P : ℕ → Type κ) (i m : ℕ) (loads : List ℕ) → get_elem? loads i ≡ some m → All P loads → P m
All-at P i m [] e a = cc
All-at P zero m (x ∷ xs) e a = subst P (some-injective x m e) a.0
All-at P (suc i) m (x ∷ xs) e a = All-at P i m xs e a.1

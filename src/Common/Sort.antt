-- ===== src/Common/Sort.antt =====
-- Rust's `sort_by` with `b.cmp(a)`: a stable sort by a number in falling order.
use Prim.Native.Nat.{ℕ, ◌+◌, ◌≤◌}
use mathlib.Core.Path.{◌≡◌, refl, ap, ◌∙◌}
use mathlib.Core.List.{List, [], ◌∷◌, Perm, map}
use mathlib.Core.List.Perm
use native.Mathlib.Omega.{arith}
use rpytest.Common.Tests.{leb, if◌then◌else◌, Bool-cases}
use rpytest.Common.Lists.{sum_of, All}
use mathlib.Core.Logic.{inl, inr}

module _ {ℓ} {A : Type ℓ} (key : A → ℕ) where
  -- A new item goes before those that are not larger, so equal items keep their order.
  insert_falling : A → List A → List A
  insert_falling x [] = x ∷ []
  insert_falling x (y ∷ ys) =
      let rest = insert_falling x ys in if leb (key y) (key x) then x ∷ y ∷ ys else y ∷ rest

  unfoldable pub sort_falling : List A → List A
  unfolding insert_falling
  sort_falling [] = []
  sort_falling (x ∷ xs) = insert_falling x (sort_falling xs)

  -- Each item is at least as large as all that follow it.
  abbrev pub IsFalling : List A → Type 0
  IsFalling [] = Unit
  IsFalling (x ∷ xs) = All (λ y. key y ≤ key x) xs × IsFalling xs

  insert_falling-perm : (x : A) (ys : List A) → Perm (insert_falling x ys) (x ∷ ys)
  unfolding insert_falling
  insert_falling-perm x [] = Perm.refl _
  insert_falling-perm x (y ∷ ys) = elim (Bool-cases (leb (key y) (key x))) [
    | inl e ↦ rw e (Perm.refl _)
    | inr e ↦ rw e (Perm.trans (Perm.cons y (insert_falling-perm x ys)) (Perm.swap x y ys))
  ]

  pub sort_falling-perm : (xs : List A) → Perm (sort_falling xs) xs
  unfolding sort_falling
  sort_falling-perm [] = Perm.refl _
  sort_falling-perm (x ∷ xs) =
      Perm.trans (insert_falling-perm x (sort_falling xs)) (Perm.cons x (sort_falling-perm xs))

  All-mono : {m n : ℕ} (ys : List A) → m ≤ n → All (λ y. key y ≤ m) ys → All (λ y. key y ≤ n) ys
  All-mono [] h a = tt
  All-mono {m} {n} (y ∷ ys) h a = (omega arith, All-mono {m = m} {n = n} ys h a.1)

  insert_falling-All :
      (n : ℕ) (x : A) (ys : List A)
      → key x ≤ n
      → All (λ y. key y ≤ n) ys
      → All (λ y. key y ≤ n) (insert_falling x ys)
  unfolding insert_falling
  insert_falling-All n x [] h a = (h, tt)
  insert_falling-All n x (y ∷ ys) h a = ground (arith, insert_falling-All n x ys h a.1)

  insert_falling-IsFalling : (x : A) (ys : List A) → IsFalling ys → IsFalling (insert_falling x ys)
  unfolding insert_falling
  insert_falling-IsFalling x [] s = (tt, tt)
  insert_falling-IsFalling x (y ∷ ys) s = ground (
    arith,
    All-mono {m = key y} {n = key x} ys,
    insert_falling-All (key y) x ys,
    insert_falling-IsFalling x ys s.1,
  )

  pub sort_falling-IsFalling : (xs : List A) → IsFalling (sort_falling xs)
  unfolding sort_falling
  sort_falling-IsFalling [] = tt
  sort_falling-IsFalling (x ∷ xs) =
      insert_falling-IsFalling x (sort_falling xs) (sort_falling-IsFalling xs)

  insert_falling_max :
      (x : A) (ys : List A) → All (λ y. key y ≤ key x) ys → insert_falling x ys ≡ x ∷ ys
  unfolding insert_falling
  insert_falling_max x [] a = refl
  insert_falling_max x (y ∷ ys) a = ground arith

  -- A list that is in order stays as it is.
  pub sort_falling_sorted : (xs : List A) → IsFalling xs → sort_falling xs ≡ xs
  unfolding sort_falling
  sort_falling_sorted [] s = refl
  sort_falling_sorted (x ∷ xs) s = rw (sort_falling_sorted xs s.1) (insert_falling_max x xs s.0)

  insert_falling-All_of {κ} :
      (P : A → Type κ) (x : A) (ys : List A) → P x → All P ys → All P (insert_falling x ys)
  unfolding insert_falling
  insert_falling-All_of P x [] p a = (p, tt)
  insert_falling-All_of P x (y ∷ ys) p a = elim (Bool-cases (leb (key y) (key x))) [
    | inl e ↦ rw e (p, a)
    | inr e ↦ rw e (a.0, insert_falling-All_of P x ys p a.1)
  ]

  pub sort_falling-All {κ} : (P : A → Type κ) (xs : List A) → All P xs → All P (sort_falling xs)
  unfolding sort_falling
  sort_falling-All P [] a = tt
  sort_falling-All P (x ∷ xs) a =
      insert_falling-All_of P x (sort_falling xs) a.0 (sort_falling-All P xs a.1)

  insert_falling-sum_of :
      (f : A → ℕ) (x : A) (ys : List A) → sum_of f (insert_falling x ys) ≡ f x + sum_of f ys
  unfolding insert_falling
  insert_falling-sum_of f x [] = refl
  insert_falling-sum_of f x (y ∷ ys) = ground (arith, insert_falling-sum_of f x ys)

  pub sort_falling-sum_of : (f : A → ℕ) (xs : List A) → sum_of f (sort_falling xs) ≡ sum_of f xs
  unfolding sort_falling
  sort_falling-sum_of f [] = refl
  sort_falling-sum_of f (x ∷ xs) =
      omega (arith, insert_falling-sum_of f x (sort_falling xs), sort_falling-sum_of f xs)

module _ {ℓ κ} {A : Type ℓ} {B : Type κ} (key : B → ℕ) (f : A → B) where
  insert_falling-map :
      (x : A) (ys : List A)
      → insert_falling key (f x) (map f ys) ≡ map f (insert_falling (λ a. key (f a)) x ys)
  unfolding insert_falling
  insert_falling-map x [] = refl
  insert_falling-map x (y ∷ ys) = elim (Bool-cases (leb (key (f y)) (key (f x)))) [
    | inl e ↦ rw e refl
    | inr e ↦ rw e (ap (◌∷◌ (f y)) (insert_falling-map x ys))
  ]

  pub sort_falling-map :
      (xs : List A) → sort_falling key (map f xs) ≡ map f (sort_falling (λ a. key (f a)) xs)
  unfolding sort_falling
  sort_falling-map [] = refl
  sort_falling-map (x ∷ xs) =
      ap (insert_falling key (f x)) (sort_falling-map xs)
      ∙ insert_falling-map x (sort_falling (λ a. key (f a)) xs)

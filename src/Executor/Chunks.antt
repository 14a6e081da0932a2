-- ===== src/Executor/Chunks.antt =====
-- Rust's `chunks` of a slice, by which run_tests of crates/rpytest-daemon/src/executor.rs cuts the
-- tests into batches.
use mathlib.Core.List.{flatten}
use rpytest.Common.{
  ℕ, zero, suc, ◌-◌, ◌≤◌, ◌<◌, ◌≡◌, refl, ap, List, [], ◌∷◌, ◌++◌, length, All, arith,
}

-- The chunk that is being filled, with its room left, and the chunks behind it.
abbrev pub fill {ℓ} : {A : Type ℓ} → ℕ → ℕ → List A → List A × List (List A)
fill size room [] = ([], [])
fill size zero (x ∷ xs) = let (chunk, later) = fill size (size - 1) xs in ([], (x ∷ chunk) ∷ later)
fill size (suc room) (x ∷ xs) = let (chunk, later) = fill size room xs in (x ∷ chunk, later)

-- `chunks`, for a size that is not 0.
unfoldable pub chunks {ℓ} : {A : Type ℓ} → ℕ → List A → List (List A)
chunks size xs = let (chunk, later) = fill size 0 xs in later

module _ {ℓ} {A : Type ℓ} where
  fill-shape :
      (size room : ℕ) (xs : List A)
      → 0 < size
      → let (chunk, later) = fill size room xs in
        (chunk ++ flatten later ≡ xs)
        × (length chunk ≤ room)
        × All (λ c. (0 < length c) × (length c ≤ size)) later
  unfolding flatten
  fill-shape size room [] h = (refl, omega arith, tt)
  fill-shape size zero (x ∷ xs) h =
      let (whole, short, all) = fill-shape size (size - 1) xs h in
      (ap (◌∷◌ x) whole, omega arith, ((omega arith, omega (arith, short, h)), all))
  fill-shape size (suc room) (x ∷ xs) h =
      let (whole, short, all) = fill-shape size room xs h in
      (ap (◌∷◌ x) whole, omega (arith, short), all)

  -- The chunks, one behind the other, are the list; none is empty and none is longer than the size.
  pub chunks-shape :
      (size : ℕ) (xs : List A)
      → 0 < size
      → (flatten (chunks size xs) ≡ xs)
        × All (λ c. (0 < length c) × (length c ≤ size)) (chunks size xs)
  unfolding chunks
  chunks-shape size xs h =
      let (whole, short, all) = fill-shape size 0 xs h in (no_head _ _ whole short, all)
    where
      no_head :
          (chunk : List A) (later : List A) → chunk ++ later ≡ xs → length chunk ≤ 0 → later ≡ xs
      no_head [] later e k = e
      no_head (x ∷ chunk) later e k = absurd (omega (arith, k))

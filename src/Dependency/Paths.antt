-- ===== src/Dependency/Paths.antt =====
-- Paths as crates/rpytest/src/watch/dependency.rs uses them: a path is the list of its components, with
-- "/" first if it is absolute and "." only first. Sets are lists without order that counts.
use Prim.Native.String.{len, slice}
use rpytest.Common.{
  ◌-◌, ◌≡◌, refl, ap, ◌∙◌, String, str_eq, eq_iff, eq_refl, Bool, true, false, ◌&&◌, ◌||◌, List, [],
  ◌∷◌, Option, none, some, if◌then◌else◌, arith, any, leb,
}

abbrev pub FilePath : Type 0
FilePath = List String

unfoldable pub path_eq : FilePath → FilePath → Bool
path_eq [] [] = true
path_eq (x ∷ xs) (y ∷ ys) = let rest = path_eq xs ys in str_eq x y && rest
path_eq _ _ = false

-- `Path::starts_with`
unfoldable pub path_starts_with : FilePath → FilePath → Bool
path_starts_with xs [] = true
path_starts_with (x ∷ xs) (y ∷ ys) = let rest = path_starts_with xs ys in str_eq x y && rest
path_starts_with [] (y ∷ ys) = false

-- A component that is no file's name.
abbrev is_special : String → Bool
is_special c = str_eq c "/" || (str_eq c "." || str_eq c "..")

-- `Path::file_name`
unfoldable pub file_name : FilePath → Option String
file_name [] = none
file_name (c ∷ []) = if is_special c then none else some c
file_name (c ∷ d ∷ p) = file_name (d ∷ p)

abbrev pub drop_last : FilePath → FilePath
drop_last [] = []
drop_last (c ∷ []) = []
drop_last (c ∷ d ∷ p) = c ∷ drop_last (d ∷ p)

abbrev pub parent : FilePath → Option FilePath
parent [] = none
parent (c ∷ []) = if str_eq c "/" then none else some []
parent (c ∷ d ∷ p) = some (drop_last (c ∷ d ∷ p))

abbrev pub text_ends_with : String → String → Bool
text_ends_with s t = leb (len t) (len s) && str_eq (slice s (len s - len t) (len s)) t

pub path_eq_iff : (p q : FilePath) → path_eq p q ≡ true → p ≡ q
unfolding path_eq
path_eq_iff [] [] e = refl
path_eq_iff (x ∷ xs) (y ∷ ys) e = ground (arith, eq_iff x y, path_eq_iff xs ys)
path_eq_iff [] (y ∷ ys) e = cc
path_eq_iff (x ∷ xs) [] e = cc

pub path_eq_refl : (p : FilePath) → path_eq p p ≡ true
unfolding path_eq
path_eq_refl [] = refl
path_eq_refl (x ∷ xs) = rw (eq_refl x, path_eq_refl xs) refl

abbrev pub has : List String → String → Bool
has xs k = any (λ x. str_eq x k) xs

-- `HashSet::insert`
abbrev pub add : List String → String → List String
add xs k = if has xs k then xs else k ∷ xs

-- `HashSet::extend`
abbrev pub extend : List String → List String → List String
extend xs [] = xs
extend xs (k ∷ ks) = extend (add xs k) ks

pub has-add : (xs : List String) (k u : String) → has (add xs k) u ≡ (str_eq k u || has xs u)
has-add xs k u = ground (arith, eq_iff k u)

pub has-extend : (ks xs : List String) (u : String) → has (extend xs ks) u ≡ (has xs u || has ks u)
has-extend [] xs u = ground arith
has-extend (k ∷ ks) xs u = ground (arith, has-extend ks (add xs k) u, has-add xs k u)

-- A map from paths to sets of tests.
abbrev pub TestsOf : Type 0
TestsOf = List (FilePath × List String)

-- `map.entry(p).or_default().insert(t)`
unfoldable pub insert_test : TestsOf → FilePath → String → TestsOf
insert_test [] p t = (p, t ∷ []) ∷ []
insert_test ((q, ts) ∷ d) p t =
    let rest = insert_test d p t in if path_eq q p then (q, add ts t) ∷ d else (q, ts) ∷ rest

unfoldable pub tests_of : TestsOf → FilePath → List String
tests_of [] p = []
tests_of ((q, ts) ∷ d) p = let rest = tests_of d p in if path_eq q p then ts else rest

-- The tests of all paths under a directory.
unfoldable pub tests_under : TestsOf → FilePath → List String → List String
tests_under [] scope affected = affected
tests_under ((q, ts) ∷ d) scope affected =
    tests_under d scope (if path_starts_with q scope then extend affected ts else affected)

pub tests_of-insert_test :
    (d : TestsOf) (p q : FilePath) (t u : String)
    → has (tests_of (insert_test d p t) q) u ≡ ((path_eq p q && str_eq t u) || has (tests_of d q) u)
unfolding insert_test tests_of
tests_of-insert_test [] p q t u = ground arith
tests_of-insert_test ((r, ts) ∷ d) p q t u = ground (
  arith,
  path_eq_iff r p,
  path_eq_iff r q,
  path_eq_iff p q,
  path_eq_refl p,
  has-add ts t u,
  tests_of-insert_test d p q t u,
)

-- Some path under the directory has the test.
abbrev pub some_under : FilePath → String → FilePath × List String → Bool
some_under scope u (q, ts) = path_starts_with q scope && has ts u

pub has-tests_under :
    (d : TestsOf) (scope : FilePath) (xs : List String) (u : String)
    → has (tests_under d scope xs) u ≡ (has xs u || any (some_under scope u) d)
unfolding tests_under
has-tests_under [] scope xs u = ground arith
has-tests_under ((q, ts) ∷ d) scope xs u =
    has-tests_under d scope (if path_starts_with q scope then extend xs ts else xs) u
    ∙ ground (arith, has-extend ts xs u)

pub some_under-insert_test :
    (d : TestsOf) (p scope : FilePath) (t u : String)
    → any (some_under scope u) (insert_test d p t)
      ≡ ((path_starts_with p scope && str_eq t u) || any (some_under scope u) d)
unfolding insert_test
some_under-insert_test [] p scope t u = ground arith
some_under-insert_test ((q, ts) ∷ d) p scope t u = ground (
  arith,
  path_eq_iff q p,
  ap (λ r. path_starts_with r scope),
  has-add ts t u,
  some_under-insert_test d p scope t u,
)

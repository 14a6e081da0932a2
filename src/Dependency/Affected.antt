-- ===== src/Dependency/Affected.antt =====
-- What compute_affected of crates/rpytest/src/watch/dependency.rs gives, said by what was registered.
use rpytest.Common.{
  ◌≡◌, refl, ap, ◌∙◌, String, str_eq, Bool, true, false, not, ◌&&◌, ◌||◌, List, [], ◌∷◌, none, some,
  if◌then◌else◌, arith, any, Bool-cases, Option-cases, inl, inr,
}
use rpytest.Dependency.Paths.{
  FilePath, path_eq, path_eq_iff, path_eq_refl, path_starts_with, parent, file_name, has,
  has-extend, tests_of, tests_of-insert_test, some_under, has-tests_under, some_under-insert_test,
}
use rpytest.Dependency.{
  DependencyGraph, new, add_test, add_dependency, insert_scope, scope_of, add_conftest, is_conftest,
  is_test_file, is_root, visit, visit_all, compute_affected,
}

-- One call that registers something.
pub data Registration : Type 0 where
  test dependency : String → FilePath → Registration
  conftest : FilePath → Registration

unfoldable pub register : DependencyGraph → List Registration → DependencyGraph
register g [] = g
register g (test t p ∷ rs) = register (add_test g t p) rs
register g (dependency t p ∷ rs) = register (add_dependency g t p) rs
register g (conftest p ∷ rs) = register (add_conftest g p) rs

abbrev pub is_test_in : (FilePath → Bool) → String → Registration → Bool
is_test_in f u (test t p) = f p && str_eq t u
is_test_in f u _ = false

abbrev pub is_user_of : FilePath → String → Registration → Bool
is_user_of q u (dependency t p) = path_eq p q && str_eq t u
is_user_of q u _ = false

abbrev pub is_conftest_at : FilePath → Registration → Bool
is_conftest_at q (conftest p) = path_eq p q
is_conftest_at q _ = false

tests_of-register :
    (rs : List Registration) (g : DependencyGraph) (q : FilePath) (u : String)
    → has (tests_of (register g rs).test_file_to_tests q) u
      ≡ (any (is_test_in (λ p. path_eq p q) u) rs || has (tests_of g.test_file_to_tests q) u)
unfolding register add_test add_dependency add_conftest
tests_of-register [] g q u = refl
tests_of-register (test t p ∷ rs) g q u =
    tests_of-register rs (add_test g t p) q u
    ∙ ground (arith, tests_of-insert_test g.test_file_to_tests p q t u)
tests_of-register (dependency t p ∷ rs) g q u = tests_of-register rs (add_dependency g t p) q u
tests_of-register (conftest p ∷ rs) g q u =
    tests_of-register rs (add_conftest g p) q u ∙ ground arith

users-register :
    (rs : List Registration) (g : DependencyGraph) (q : FilePath) (u : String)
    → has (tests_of (register g rs).source_to_tests q) u
      ≡ (any (is_user_of q u) rs || has (tests_of g.source_to_tests q) u)
unfolding register add_test add_dependency add_conftest
users-register [] g q u = refl
users-register (test t p ∷ rs) g q u = users-register rs (add_test g t p) q u
users-register (dependency t p ∷ rs) g q u =
    users-register rs (add_dependency g t p) q u
    ∙ ground (arith, tests_of-insert_test g.source_to_tests p q t u)
users-register (conftest p ∷ rs) g q u = users-register rs (add_conftest g p) q u ∙ ground arith

under-register :
    (rs : List Registration) (g : DependencyGraph) (scope : FilePath) (u : String)
    → any (some_under scope u) (register g rs).test_file_to_tests ≡ (
        any (is_test_in (λ p. path_starts_with p scope) u) rs
        || any (some_under scope u) g.test_file_to_tests)
unfolding register add_test add_dependency add_conftest
under-register [] g scope u = refl
under-register (test t p ∷ rs) g scope u =
    under-register rs (add_test g t p) scope u
    ∙ ground (arith, some_under-insert_test g.test_file_to_tests p scope t u)
under-register (dependency t p ∷ rs) g scope u = under-register rs (add_dependency g t p) scope u
under-register (conftest p ∷ rs) g scope u =
    under-register rs (add_conftest g p) scope u ∙ ground arith

scope_of-insert_scope :
    (d : List (FilePath × FilePath)) (p q s : FilePath)
    → scope_of (insert_scope d p s) q ≡ (if path_eq p q then some s else scope_of d q)
unfolding scope_of insert_scope
scope_of-insert_scope [] p q s = refl
scope_of-insert_scope ((r, t) ∷ d) p q s = ground (
  arith,
  path_eq_iff r p,
  path_eq_iff r q,
  path_eq_iff p q,
  path_eq_refl p,
  scope_of-insert_scope d p q s,
)

scope_of-add_conftest :
    (g : DependencyGraph) (p q s : FilePath)
    → parent q ≡ some s
    → scope_of (add_conftest g p).conftest_scopes q
      ≡ (if path_eq p q then some s else scope_of g.conftest_scopes q)
unfolding add_conftest
scope_of-add_conftest g p q s e = elim (Bool-cases (path_eq p q)) [
  | inl same ↦
      let e' : parent p ≡ some s = ap parent (path_eq_iff p q same) ∙ e in
      ground (arith, scope_of-insert_scope g.conftest_scopes p q s)
  | inr other ↦ elim (Option-cases (parent p)) [
    | inl n ↦ ground arith
    | inr (t, n) ↦ ground (arith, scope_of-insert_scope g.conftest_scopes p q t)
  ]
]

scope_of-register :
    (rs : List Registration) (g : DependencyGraph) (q s : FilePath)
    → parent q ≡ some s
    → scope_of (register g rs).conftest_scopes q
      ≡ (if any (is_conftest_at q) rs then some s else scope_of g.conftest_scopes q)
unfolding register add_test add_dependency
scope_of-register [] g q s e = refl
scope_of-register (test t p ∷ rs) g q s e = scope_of-register rs (add_test g t p) q s e
scope_of-register (dependency t p ∷ rs) g q s e = scope_of-register rs (add_dependency g t p) q s e
scope_of-register (conftest p ∷ rs) g q s e =
    scope_of-register rs (add_conftest g p) q s e ∙ ground (arith, scope_of-add_conftest g p q s e)

abbrev pub directory : FilePath → FilePath
directory p = elim (parent p) [ none ↦ [] | some s ↦ s ]

parent-is_conftest : (p : FilePath) → is_conftest p ≡ true → parent p ≡ some (directory p)
unfolding file_name
parent-is_conftest [] e = cc
parent-is_conftest (c ∷ []) e = ground arith
parent-is_conftest (c ∷ d ∷ p) e = refl

-- A change of this file asks for the test to run again.
abbrev pub affects : List Registration → String → FilePath → Bool
affects rs u f =
    if is_conftest f
    then any (is_conftest_at f) rs && any (is_test_in (λ p. path_starts_with p (directory f)) u) rs
    else if is_test_file f
    then any (is_test_in (λ p. path_eq p f) u) rs
    else any (is_user_of f u) rs

-- A change of this file asks for all tests.
abbrev pub affects_all : List Registration → FilePath → Bool
affects_all rs f = is_conftest f && (not (any (is_conftest_at f) rs) || is_root (directory f))

visit-affects :
    (rs : List Registration) (f : FilePath) (xs : List String) (b : Bool) (u : String)
    → (has (visit (register new rs) f xs b).0 u ≡ (has xs u || affects rs u f))
      × ((visit (register new rs) f xs b).1 ≡ (b || affects_all rs f))
unfolding visit new
visit-affects rs f xs b u = elim (Bool-cases (is_conftest f)) [
  | inl c ↦
      let known = scope_of-register rs new f (directory f) (parent-is_conftest f c) in
      let under = under-register rs new (directory f) u in
      let seen = has-tests_under (register new rs).test_file_to_tests (directory f) xs u in
      ground arith
  | inr c ↦
      let t = tests_of-register rs new f u in
      let d = users-register rs new f u in
      ground (
        arith,
        has-extend (tests_of (register new rs).test_file_to_tests f) xs u,
        has-extend (tests_of (register new rs).source_to_tests f) xs u,
      )
]

visit_all-affects :
    (rs : List Registration) (fs : List FilePath) (xs : List String) (b : Bool) (u : String)
    → (has (visit_all (register new rs) fs xs b).0 u ≡ (has xs u || any (affects rs u) fs))
      × ((visit_all (register new rs) fs xs b).1 ≡ (b || any (affects_all rs) fs))
unfolding visit_all
visit_all-affects rs [] xs b u = (ground arith, ground arith)
visit_all-affects rs (f ∷ fs) xs b u =
    let one = visit-affects rs f xs b u in
    let r = visit (register new rs) f xs b in
    let later = visit_all-affects rs fs r.0 r.1 u in
    (
      later.0 ∙ ap (λ q. q || any (affects rs u) fs) one.0 ∙ ground arith,
      later.1 ∙ ap (λ q. q || any (affects_all rs) fs) one.1 ∙ ground arith,
    )

-- After any registrations on a new graph, a test is among the affected ones of some changed files
-- exactly if one of them asks for it: a registered conftest file asks for the tests registered in
-- files under its directory, another test file for the tests registered in it, and any other file for
-- the tests with a registered dependency on it. All tests are to run exactly if some changed file is
-- a conftest file that is not registered, or one at the root.
pub compute_affected-affects :
    (rs : List Registration) (fs : List FilePath) (u : String)
    → (has (compute_affected (register new rs) fs).node_ids u ≡ any (affects rs u) fs)
      × ((compute_affected (register new rs) fs).run_all ≡ any (affects_all rs) fs)
unfolding compute_affected
compute_affected-affects rs fs u = visit_all-affects rs fs [] false u

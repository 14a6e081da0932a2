-- ===== src/Dependency/Examples.antt =====
-- The affected tests of a concrete graph (crates/rpytest/src/watch/dependency.rs).
use rpytest.Common.{◌≡◌, List, [], ◌∷◌, any}
use rpytest.Dependency.Paths.{FilePath, has}
use rpytest.Dependency.{new, compute_affected}
use rpytest.Dependency.Affected.{
  Registration, test, dependency, conftest, register, affects, affects_all,
  compute_affected-affects,
}

abbrev registrations : List Registration
registrations =
    test "t1" ("tests" ∷ "test_a.py" ∷ [])
    ∷ dependency "t1" ("src" ∷ "m.py" ∷ [])
    ∷ conftest ("tests" ∷ "conftest.py" ∷ [])
    ∷ []

abbrev changes : List FilePath
changes = ("src" ∷ "m.py" ∷ []) ∷ ("tests" ∷ "conftest.py" ∷ []) ∷ []

compute_affected-affects_example :
    (has (compute_affected (register new registrations) changes).node_ids "t1"
      ≡ any (affects registrations "t1") changes)
    × ((compute_affected (register new registrations) changes).run_all
        ≡ any (affects_all registrations) changes)
compute_affected-affects_example = compute_affected-affects registrations changes "t1"

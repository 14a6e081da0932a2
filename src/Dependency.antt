-- ===== src/Dependency.antt =====
-- crates/rpytest/src/watch/dependency.rs: which tests to run again when files have changed.
pub mod Paths
pub mod Affected
mod Examples
use text.Mathlib.Text.{starts_with as text_starts_with}
use rpytest.Common.{
  ℕ, String, str_eq, Bool, true, false, ◌||◌, List, [], ◌∷◌, ◌++◌, Option, none, some,
  if◌then◌else◌,
}
use rpytest.Common.Dict
use rpytest.Common.Dict.{Dict, keys}
use rpytest.Dependency.Paths.{
  FilePath, path_eq, file_name, parent, text_ends_with, TestsOf, insert_test, tests_of, tests_under,
  extend,
}

pub record AffectedTests : Type 0 where
  pub node_ids : List String
  pub run_all : Bool
  pub changed_files : List FilePath

pub record DependencyGraph : Type 0 where
  pub source_to_tests : TestsOf
  pub test_file_to_tests : TestsOf
  pub test_to_file : Dict FilePath
  pub conftest_scopes : List (FilePath × FilePath)

unfoldable pub new : DependencyGraph
new = record {
  source_to_tests = [];
  test_file_to_tests = [];
  test_to_file = [];
  conftest_scopes = [];
}

unfoldable pub add_test : DependencyGraph → String → FilePath → DependencyGraph
add_test g node_id file_path = record g {
  test_to_file = Dict.insert g.test_to_file node_id file_path;
  test_file_to_tests = insert_test g.test_file_to_tests file_path node_id;
}

unfoldable pub add_dependency : DependencyGraph → String → FilePath → DependencyGraph
add_dependency g node_id source_file = record g {
  source_to_tests = insert_test g.source_to_tests source_file node_id;
}

unfoldable pub insert_scope :
    List (FilePath × FilePath) → FilePath → FilePath → List (FilePath × FilePath)
insert_scope [] p scope = (p, scope) ∷ []
insert_scope ((q, s) ∷ d) p scope =
    let rest = insert_scope d p scope in if path_eq q p then (q, scope) ∷ d else (q, s) ∷ rest

unfoldable pub scope_of : List (FilePath × FilePath) → FilePath → Option FilePath
scope_of [] p = none
scope_of ((q, s) ∷ d) p = let rest = scope_of d p in if path_eq q p then some s else rest

unfoldable pub add_conftest : DependencyGraph → FilePath → DependencyGraph
unfolding insert_scope
add_conftest g conftest_path = elim (parent conftest_path) [
  | none ↦ g
  | some scope ↦ record g { conftest_scopes = insert_scope g.conftest_scopes conftest_path scope }
]

abbrev name_is : (String → Bool) → Option String → Bool
name_is f none = false
name_is f (some n) = f n

abbrev pub is_conftest : FilePath → Bool
is_conftest path = name_is (λ n. str_eq n "conftest.py") (file_name path)

abbrev pub is_test_file : FilePath → Bool
is_test_file path =
    name_is (λ n. text_starts_with n "test_" || text_ends_with n "_test.py") (file_name path)

abbrev has_no_parent : Option FilePath → Bool
has_no_parent none = true
has_no_parent (some p) = false

abbrev pub is_root : FilePath → Bool
is_root scope = has_no_parent (parent scope) || path_eq scope ("." ∷ [])

abbrev pub visit_conftest :
    DependencyGraph → List String → Bool → Option FilePath → List String × Bool
visit_conftest g affected run_all none = (affected, true)
visit_conftest g affected run_all (some scope) =
    (tests_under g.test_file_to_tests scope affected, is_root scope || run_all)

-- The body of the loop over the changed files.
unfoldable pub visit : DependencyGraph → FilePath → List String → Bool → List String × Bool
unfolding scope_of tests_of
visit g path affected run_all =
    if is_conftest path
    then visit_conftest g affected run_all (scope_of g.conftest_scopes path)
    else if is_test_file path
    then (extend affected (tests_of g.test_file_to_tests path), run_all)
    else (extend affected (tests_of g.source_to_tests path), run_all)

unfoldable pub visit_all : DependencyGraph → List FilePath → List String → Bool → List String × Bool
unfolding visit
visit_all g [] affected run_all = (affected, run_all)
visit_all g (path ∷ paths) affected run_all =
    let (affected', run_all') = visit g path affected run_all in
    visit_all g paths affected' run_all'

unfoldable pub compute_affected : DependencyGraph → List FilePath → AffectedTests
unfolding visit_all
compute_affected g changed_files =
    let (node_ids, run_all) = visit_all g changed_files [] false in
    record { node_ids = node_ids; run_all = run_all; changed_files = changed_files }

unfoldable pub all_tests : DependencyGraph → List String
all_tests g = keys g.test_to_file

unfoldable pub test_file : DependencyGraph → String → Option FilePath
test_file g node_id = Dict.get g.test_to_file node_id

unfoldable pub clear : DependencyGraph → DependencyGraph
unfolding new
clear g = new

-- `exists` says whether a conftest file is on disk; the pairs are the node ids and their files.
unfoldable pub build_from_inventory :
    (FilePath → Bool) → DependencyGraph → List (String × FilePath) → DependencyGraph
unfolding add_test add_conftest
build_from_inventory exists g [] = g
build_from_inventory exists g ((node_id, path) ∷ tests) =
    let h = add_test g node_id path in
    build_from_inventory exists
      (elim (parent path) [
        | none ↦ h
        | some dir ↦
            if exists (dir ++ "conftest.py" ∷ [])
            then add_conftest h (dir ++ "conftest.py" ∷ [])
            else h
      ])
      tests

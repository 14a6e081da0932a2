-- ===== src/Collector.antt =====
-- The expansion of tests by parametrized fixtures, and the ids of parameters
-- (crates/rpytest-daemon/src/collector.rs). The parsing of Python and the walk over its syntax trees are
-- not modelled: the collected tests and fixtures are arguments.
pub mod Ids
pub mod Variants
mod Examples
use Prim.Native.String.{◌++◌ as append}
use rpytest.Common.{
  ℕ, zero, suc, ◌+◌, String, str_eq, Bool, true, false, ◌||◌, List, [], ◌∷◌, ◌++◌, map, any, length,
  ltb, Option, none, some, if◌then◌else◌,
}
use rpytest.Common.Text.{decimal, join}

-- `NativeTestNode` of models.rs; a JSON value is its text.
pub record NativeTestNode : Type 0 where
  pub node_id : String
  pub file_path : String
  pub name : String
  pub class_name : Option String
  pub line_number : ℕ
  pub markers : List String
  pub is_simple : Bool
  pub parameters : List String
  pub skip : Bool
  pub skip_reason : Option String
  pub xfail : Bool
  pub xfail_reason : Option String
  pub xfail_strict : Bool

-- A fixture's name and the values of its parameter. The `HashMap` is a list.
abbrev pub FixtureParams : Type 0
FixtureParams = List (String × List String)

abbrev pub has_marker : NativeTestNode → String → Bool
has_marker test marker = any (λ m. str_eq m marker) test.markers

-- The parametrized fixtures that a test uses.
unfoldable pub get_fixture_params_for_test : NativeTestNode → FixtureParams → FixtureParams
get_fixture_params_for_test test [] = []
get_fixture_params_for_test test ((fixture_name, values) ∷ params) =
    let rest = get_fixture_params_for_test test params in
    if has_marker test (append "uses_fixture:" fixture_name)
    then (fixture_name, values) ∷ rest
    else rest

abbrev pub with_first :
    String → String → List (List (String × String)) → List (List (String × String))
with_first name value [] = []
with_first name value (combo ∷ combos) = ((name, value) ∷ combo) ∷ with_first name value combos

-- The two loops over the values and over the combinations of the fixtures behind.
abbrev pub with_each :
    String → List String → List (List (String × String)) → List (List (String × String))
with_each name [] rest = []
with_each name (value ∷ values) rest = with_first name value rest ++ with_each name values rest

unfoldable pub compute_product : FixtureParams → List (List (String × String))
compute_product [] = [] ∷ []
compute_product ((name, values) ∷ params) = with_each name values (compute_product params)

abbrev pub singles : String → List String → List (List (String × String))
singles name [] = []
singles name (value ∷ values) = ((name, value) ∷ []) ∷ singles name values

unfoldable pub cartesian_product_of_fixture_params : FixtureParams → List (List (String × String))
unfolding compute_product
cartesian_product_of_fixture_params [] = []
cartesian_product_of_fixture_params ((name, values) ∷ []) = singles name values
cartesian_product_of_fixture_params (p ∷ q ∷ params) = compute_product (p ∷ q ∷ params)

abbrev pub with_suffix : NativeTestNode → String → NativeTestNode
with_suffix test suffix = record test {
  node_id = append test.node_id (append "[" (append suffix "]"));
}

abbrev pub marked : String → String → NativeTestNode → NativeTestNode
marked fixture_name value test = record test {
  markers = test.markers ++ append "fixture_param:" (append fixture_name (append "=" value)) ∷ [];
}

-- The variants by one fixture.
abbrev pub variants : NativeTestNode → String → List String → List NativeTestNode
variants test fixture_name [] = []
variants test fixture_name (value ∷ values) =
    marked fixture_name value (with_suffix test value) ∷ variants test fixture_name values

abbrev pub id_parts : ℕ → List (String × String) → List String
id_parts n [] = []
id_parts n ((name, value) ∷ combo) = append (decimal n) (append "=" value) ∷ id_parts (n + 1) combo

abbrev pub combined : NativeTestNode → List (List (String × String)) → List NativeTestNode
combined test [] = []
combined test (combo ∷ combos) =
    with_suffix test (join "-" (id_parts 1 combo)) ∷ combined test combos

unfoldable pub expand_test : NativeTestNode → FixtureParams → List NativeTestNode
unfolding cartesian_product_of_fixture_params decimal join
expand_test test [] = test ∷ []
expand_test test ((fixture_name, values) ∷ []) = variants test fixture_name values
expand_test test (p ∷ q ∷ params) =
    combined test (cartesian_product_of_fixture_params (p ∷ q ∷ params))

abbrev pub expand_all : List NativeTestNode → FixtureParams → List NativeTestNode
expand_all [] params = []
expand_all (test ∷ tests) params =
    expand_test test (get_fixture_params_for_test test params) ++ expand_all tests params

unfoldable pub expand_tests_by_fixture_params :
    List NativeTestNode → FixtureParams → List NativeTestNode
unfolding expand_test get_fixture_params_for_test
expand_tests_by_fixture_params tests [] = tests
expand_tests_by_fixture_params tests (p ∷ params) = expand_all tests (p ∷ params)

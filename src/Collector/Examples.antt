-- ===== src/Collector/Examples.antt =====
-- Tests of the expansion by fixtures, and its theorem at concrete tests.
use rpytest.Common.{◌≡◌, refl, String, true, false, List, [], ◌∷◌, length, none, sum_of, map}
use rpytest.Collector.{
  NativeTestNode, FixtureParams, get_fixture_params_for_test, expand_tests_by_fixture_params,
}
use rpytest.Collector.Ids.{deduplicate_ids, has_mixed_param_types}
use rpytest.Collector.Variants.{combinations, length-expand_tests_by_fixture_params}

abbrev test : String → List String → NativeTestNode
test id markers = record {
  node_id = id;
  file_path = "a.py";
  name = id;
  class_name = none;
  line_number = 1;
  markers = markers;
  is_simple = true;
  parameters = [];
  skip = false;
  skip_reason = none;
  xfail = false;
  xfail_reason = none;
  xfail_strict = false;
}

abbrev tests : List NativeTestNode
tests =
    test "a" []
    ∷ test "b" ("uses_fixture:db" ∷ [])
    ∷ test "c" ("uses_fixture:db" ∷ "uses_fixture:n" ∷ [])
    ∷ []

abbrev params : FixtureParams
params = ("db", "x" ∷ "y" ∷ []) ∷ ("n", "1" ∷ "2" ∷ []) ∷ []

ids :
    map (λ (t : NativeTestNode). t.node_id) (expand_tests_by_fixture_params tests params)
    ≡ "a" ∷ "b[x]" ∷ "b[y]" ∷ "c[1=x-2=1]" ∷ "c[1=x-2=2]" ∷ "c[1=y-2=1]" ∷ "c[1=y-2=2]" ∷ []
unfolding expand_tests_by_fixture_params
ids = refl

length-expand_tests_by_fixture_params_example :
    length (expand_tests_by_fixture_params tests params)
    ≡ sum_of (λ t. combinations (get_fixture_params_for_test t params)) tests
length-expand_tests_by_fixture_params_example = length-expand_tests_by_fixture_params tests params

-- A suffix can meet an id that stands there already.
repeated_ids : deduplicate_ids ("a" ∷ "a" ∷ "a_0" ∷ []) ≡ "a_0" ∷ "a_1" ∷ "a_0" ∷ []
unfolding deduplicate_ids
repeated_ids = refl

dict_and_list : has_mixed_param_types (("{}" ∷ []) ∷ ("[]" ∷ []) ∷ []) ≡ false
unfolding has_mixed_param_types
dict_and_list = refl

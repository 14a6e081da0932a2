-- ===== src/Collector/Variants.antt =====
-- How many variants the expansion by fixtures makes of a test
-- (crates/rpytest-daemon/src/collector.rs).
use Prim.Native.Nat.mul
use rpytest.Common.{
  ℕ, zero, suc, ◌*◌, ◌≡◌, refl, ap, sym, ◌∙◌, String, List, [], ◌∷◌, length, length-append, sum_of,
  arith,
}
use rpytest.Collector.{
  NativeTestNode, FixtureParams, get_fixture_params_for_test, with_first, with_each,
  compute_product, variants, combined, cartesian_product_of_fixture_params, expand_test, expand_all,
  expand_tests_by_fixture_params,
}

-- The product of the numbers of values.
abbrev pub combinations : FixtureParams → ℕ
combinations [] = 1
combinations ((name, values) ∷ params) = length values * combinations params

length-with_first :
    (name value : String) (combos : List (List (String × String)))
    → length (with_first name value combos) ≡ length combos
length-with_first name value [] = refl
length-with_first name value (c ∷ combos) = ap suc (length-with_first name value combos)

length-with_each :
    (name : String) (values : List String) (rest : List (List (String × String)))
    → length (with_each name values rest) ≡ length values * length rest
length-with_each name [] rest = sym (mul.zero (length rest))
length-with_each name (v ∷ values) rest =
    length-append (with_first name v rest) (with_each name values rest)
    ∙ rw (length-with_first name v rest, length-with_each name values rest)
        (sym (mul.suc (length values) (length rest)))

length-compute_product :
    (params : FixtureParams) → length (compute_product params) ≡ combinations params
unfolding compute_product
length-compute_product [] = refl
length-compute_product ((name, values) ∷ params) =
    length-with_each name values (compute_product params)
    ∙ ap (λ n. length values * n) (length-compute_product params)

length-combined :
    (test : NativeTestNode) (combos : List (List (String × String)))
    → length (combined test combos) ≡ length combos
length-combined test [] = refl
length-combined test (c ∷ combos) = ap suc (length-combined test combos)

length-variants :
    (test : NativeTestNode) (name : String) (values : List String)
    → length (variants test name values) ≡ length values
length-variants test name [] = refl
length-variants test name (v ∷ values) = ap suc (length-variants test name values)

times_one : (n : ℕ) → n ≡ n * 1
times_one zero = sym (mul.zero 1)
times_one (suc n) = omega (arith, times_one n)

length-expand_test :
    (test : NativeTestNode) (params : FixtureParams)
    → length (expand_test test params) ≡ combinations params
unfolding expand_test cartesian_product_of_fixture_params
length-expand_test test [] = refl
length-expand_test test ((name, values) ∷ []) =
    length-variants test name values ∙ times_one (length values)
length-expand_test test (p ∷ q ∷ params) =
    length-combined test (compute_product (p ∷ q ∷ params))
    ∙ length-compute_product (p ∷ q ∷ params)

no_fixtures :
    (ts : List NativeTestNode)
    → length ts ≡ sum_of (λ t. combinations (get_fixture_params_for_test t [])) ts
unfolding get_fixture_params_for_test
no_fixtures [] = refl
no_fixtures (t ∷ ts) = omega (arith, no_fixtures ts)

-- The expansion makes of each test as many variants as the parametrized fixtures that it uses have
-- combinations of values: one if it uses none, and none if it uses one without values.
pub length-expand_tests_by_fixture_params :
    (tests : List NativeTestNode) (params : FixtureParams)
    → length (expand_tests_by_fixture_params tests params)
      ≡ sum_of (λ t. combinations (get_fixture_params_for_test t params)) tests
unfolding expand_tests_by_fixture_params
length-expand_tests_by_fixture_params tests [] = no_fixtures tests
length-expand_tests_by_fixture_params tests (p ∷ params) = each tests
  where
    each :
        (ts : List NativeTestNode)
        → length (expand_all ts (p ∷ params))
          ≡ sum_of (λ t. combinations (get_fixture_params_for_test t (p ∷ params))) ts
    each [] = refl
    each (t ∷ ts) =
        length-append (expand_test t (get_fixture_params_for_test t (p ∷ params)))
          (expand_all ts (p ∷ params))
        ∙ cc (length-expand_test t (get_fixture_params_for_test t (p ∷ params)), each ts)

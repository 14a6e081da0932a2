-- ===== src/Collector/Ids.antt =====
-- The categories of parameter values, and the ids of the variants of one test
-- (crates/rpytest-daemon/src/collector.rs).
use Prim.Native.String.{◌++◌ as append}
use mathlib.Core.List.{flatten}
use rpytest.Common.{
  ℕ, suc, ◌+◌, String, str_eq, Bool, true, false, ◌&&◌, ◌||◌, List, [], ◌∷◌, ltb, Option, none,
  some, if◌then◌else◌,
}
use rpytest.Common.Dict
use rpytest.Common.Dict.{Dict}
use rpytest.Common.Text.{decimal, has_prefix}

pub data ValueCategory : Type 0 where
  dict : ValueCategory
  list : ValueCategory
  simple : ValueCategory

unfoldable pub categorize_value : String → ValueCategory
unfolding has_prefix
categorize_value value =
    if str_eq value "{}" || has_prefix "{" value
    then dict
    else if str_eq value "[]" || has_prefix "[" value
    then list
    else simple

-- Which categories have occurred.
pub record Seen : Type 0 where
  pub has_dict : Bool
  pub has_list : Bool
  pub has_simple : Bool

unfoldable pub see : Seen → ValueCategory → Seen
see s dict = record s { has_dict = true }
see s list = record s { has_list = true }
see s simple = record s { has_simple = true }

unfoldable pub see_all : Seen → List String → Seen
unfolding see categorize_value
see_all s [] = s
see_all s (value ∷ values) = see_all (see s (categorize_value value)) values

-- The variants of a test: of each its values. Their ids and marks are not read.
unfoldable pub has_mixed_param_types : List (List String) → Bool
unfolding see_all flatten
has_mixed_param_types param_values =
    let s =
      see_all (record { has_dict = false; has_list = false; has_simple = false })
        (flatten param_values) in
    (s.has_dict || s.has_list) && s.has_simple

-- How often an id occurs.
unfoldable pub occurrences : String → List String → ℕ
occurrences id [] = 0
occurrences id (k ∷ ids) = let rest = occurrences id ids in if str_eq k id then suc rest else rest

abbrev pub or_zero : Option ℕ → ℕ
or_zero none = 0
or_zero (some n) = n

-- The second pass, with the counters of the ids that occur more than once.
unfoldable pub with_counters : List String → Dict ℕ → List String → List String
unfolding occurrences decimal Dict.get Dict.insert
with_counters all counters [] = []
with_counters all counters (id ∷ ids) =
    let counter = or_zero (Dict.get counters id) in
    let repeated = ltb 1 (occurrences id all) in
    let final = if repeated then append id (append "_" (decimal counter)) else id in
    let next = if repeated then Dict.insert counters id (counter + 1) else counters in
    final ∷ with_counters all next ids

unfoldable pub deduplicate_ids : List String → List String
unfolding with_counters
deduplicate_ids ids = with_counters ids [] ids

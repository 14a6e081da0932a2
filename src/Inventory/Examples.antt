-- ===== src/Inventory/Examples.antt =====
-- Tests of the inventory, and its theorems at concrete inventories.
use rpytest.Common.{
  All, arith, ◌≡◌, refl, String, str_eq, Bool, true, false, List, [], ◌∷◌, none, some, ok,
}
use rpytest.Common.Dict.{Dict, insert}
use rpytest.Inventory.{
  TestNode, new, build_keywords, add_marker, extract_name, extract_class, matches_keyword,
  matches_marker,
}
use rpytest.Inventory.Printed.{Expression, clause, clause_and, negated, word, word_or, text_of}
use rpytest.Inventory.Store.{Inventory, new_inventory, get_node, add}
use rpytest.Inventory.Storage.{Bytes, save, load, save_nodes}
use rpytest.Inventory.Reload.{IsWellStored, stored}
use rpytest.Inventory.Saving.{IsKeyed, overlay, saved-IsWellStored, load-save_overlays}
use rpytest.Inventory.Invariant.{
  Change, adds, removes, updates_meta, mutates, KeepsId, apply_all, map_apply_all, IsValid,
  apply_all_as_map,
}
use rpytest.Inventory.Memory.{
  memory, memory-IsStore, memory-IsReadable, empty-IsWellStored, format_serde,
  format_serde-IsFaithful,
}

name_of_parameters : extract_name "a.py::TestB::test_c[1-2]" ≡ "test_c"
unfolding extract_name
name_of_parameters = refl

-- The last '[' is not always the first one of the parameters.
name_of_nested_brackets : extract_name "a.py::test_c[list[int]]" ≡ "test_c[list"
unfolding extract_name
name_of_nested_brackets = refl

class_of_method : extract_class "a.py::TestB::test_c" ≡ some "TestB"
unfolding extract_class
class_of_method = refl

no_class : extract_class "a.py::test_c" ≡ none
unfolding extract_class
no_class = refl

abbrev node : TestNode
node = build_keywords (add_marker "slow" (new "a.py::TestB::test_c" "tests/a.py"))

keywords_of_node : node.keywords ≡ "test_c" ∷ "TestB" ∷ "a" ∷ "slow" ∷ []
unfolding build_keywords add_marker new
keywords_of_node = refl

by_stem : matches_keyword (λ t. t) node "not slow and a" ≡ false
unfolding matches_keyword build_keywords add_marker new
by_stem = refl

-- `or` binds tighter than `and`: pytest takes this expression as true.
or_binds_tighter : matches_marker node "slow or fast and gpu" ≡ false
unfolding matches_marker build_keywords add_marker new
or_binds_tighter = refl

-- `not` takes in all that follows: pytest takes this expression as false.
not_takes_all : matches_marker node "not fast and gpu" ≡ true
unfolding matches_marker build_keywords add_marker new
not_takes_all = refl

abbrev is_a : String → Bool
is_a t = str_eq t "a"

-- "slow or a and not b or gpu"
abbrev tree : Expression
tree = clause_and (word_or "slow" (word "a")) (negated (clause (word_or "b" (word "gpu"))))

tree_text : text_of tree ≡ "slow or a and not b or gpu"
tree_text = refl

abbrev node_a : TestNode
node_a = new "a.py::a" "a.py"

abbrev node_b : TestNode
node_b = new "a.py::b" "a.py"

abbrev changes : List Change
changes =
    adds node_a
    ∷ adds node_b
    ∷ removes "a.py::a"
    ∷ updates_meta "h" 5
    ∷ mutates "a.py::b" (add_marker "slow")
    ∷ []

changes-KeepsId : All KeepsId changes
unfolding add_marker
changes-KeepsId = (tt, (tt, (tt, (tt, ((λ n. ground arith), tt)))))

new-IsValid : IsValid new_inventory
new-IsValid = (tt, refl)

apply_all_as_map_example :
    IsValid (apply_all changes new_inventory)
    × ((id : String)
        → get_node (apply_all changes new_inventory) id
          ≡ map_apply_all changes (get_node new_inventory) id)
apply_all_as_map_example = apply_all_as_map changes new_inventory changes-KeepsId new-IsValid

-- A store that has kept both tests, and an inventory that has only one of them.
abbrev both : Inventory
both = apply_all (adds node_a ∷ adds node_b ∷ []) new_inventory

abbrev one : Inventory
one = apply_all (adds node_b ∷ []) new_inventory

both-IsKeyed : IsKeyed both.nodes
both-IsKeyed =
    (apply_all_as_map (adds node_a ∷ adds node_b ∷ []) new_inventory (tt, (tt, tt)) new-IsValid).0.0

one-IsKeyed : IsKeyed one.nodes
one-IsKeyed = (apply_all_as_map (adds node_b ∷ []) new_inventory (tt, tt) new-IsValid).0.0

abbrev empty_store : Dict Bytes
empty_store = []

abbrev old_store : Dict Bytes
old_store = (save memory format_serde both "repo" empty_store).0

abbrev new_store : Dict Bytes
new_store = (save memory format_serde one "repo" old_store).0

saves_both : save memory format_serde both "repo" empty_store ≡ (old_store, ok tt)
unfolding save save_nodes add insert new
saves_both = refl

saves_one : save memory format_serde one "repo" old_store ≡ (new_store, ok tt)
unfolding save save_nodes add insert new
saves_one = refl

old-IsWellStored : IsWellStored memory format_serde memory-IsStore "repo" old_store
old-IsWellStored =
    saved-IsWellStored memory format_serde memory-IsStore format_serde-IsFaithful both "repo"
      empty_store old_store both-IsKeyed (empty-IsWellStored "repo") saves_both

load-save_overlays_example :
    (inv' : Inventory) × (load memory format_serde "repo" new_store ≡ ok inv')
    × (inv'.meta.hash ≡ one.meta.hash)
    × ((id : String)
        → get_node inv' id
          ≡ overlay
              (get_node one id)
              (stored memory format_serde memory-IsStore "repo" old_store id))
load-save_overlays_example =
    load-save_overlays memory format_serde memory-IsStore format_serde-IsFaithful one "repo"
      old_store new_store one-IsKeyed old-IsWellStored saves_one
      (memory-IsReadable "repo" new_store)

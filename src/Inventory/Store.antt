-- ===== src/Inventory/Store.antt =====
-- `Inventory` of crates/rpytest-core/src/inventory/store.rs: the tests by id, and the metadata.
use rpytest.Common.{
  ℕ, String, Bool, true, false, ◌&&◌, List, [], length, filter, Option, none, some,
  is_empty as is_empty_list,
}
use rpytest.Common.Dict.{Dict, get, insert, remove, values, keys}
use rpytest.Common.Sort.{sort_falling}
use rpytest.Inventory.{TestNode, matches_keyword, matches_marker, failure_rate}

abbrev pub schema_version : ℕ
schema_version = 1

pub record InventoryMeta : Type 0 where
  pub hash : String
  pub collected_at : ℕ
  pub node_count : ℕ
  pub version : ℕ

pub record Inventory : Type 0 where
  pub nodes : Dict TestNode
  pub meta : InventoryMeta

abbrev pub default_meta : InventoryMeta
default_meta = record { hash = ""; collected_at = 0; node_count = 0; version = schema_version }

abbrev pub new_inventory : Inventory
new_inventory = record { nodes = []; meta = default_meta }

-- The nodes, counted in the metadata.
abbrev pub with_nodes : Inventory → Dict TestNode → Inventory
with_nodes inv nodes = record {
  nodes = nodes;
  meta = record {
    hash = inv.meta.hash;
    collected_at = inv.meta.collected_at;
    node_count = length nodes;
    version = inv.meta.version;
  };
}

unfoldable pub add : TestNode → Inventory → Inventory
unfolding insert
add node inv = with_nodes inv (insert inv.nodes node.node_id node)

unfoldable pub get_node : Inventory → String → Option TestNode
unfolding get
get_node inv node_id = get inv.nodes node_id

-- What is done to the test through the reference that `get_mut` gives.
abbrev pub change_test :
    Option TestNode → (TestNode → TestNode) → String → Dict TestNode → Dict TestNode
change_test none change node_id nodes = nodes
change_test (some node) change node_id nodes = insert nodes node_id (change node)

unfoldable pub get_mut : (TestNode → TestNode) → String → Inventory → Inventory
unfolding get insert
get_mut change node_id inv = record inv {
  nodes = change_test (get inv.nodes node_id) change node_id inv.nodes;
}

unfoldable pub remove_node : String → Inventory → Inventory × Option TestNode
unfolding get remove
remove_node node_id inv = (with_nodes inv (remove inv.nodes node_id), get inv.nodes node_id)

abbrev pub is_some : Option TestNode → Bool
is_some none = false
is_some (some n) = true

unfoldable pub contains_node : Inventory → String → Bool
unfolding get_node
contains_node inv node_id = is_some (get_node inv node_id)

abbrev pub len : Inventory → ℕ
len inv = length inv.nodes

abbrev pub is_empty : Inventory → Bool
is_empty inv = is_empty_list inv.nodes

abbrev pub node_ids : Inventory → List String
node_ids inv = keys inv.nodes

unfoldable pub update_meta : String → ℕ → Inventory → Inventory
update_meta hash collected_at inv = record {
  nodes = inv.nodes;
  meta = record {
    hash = hash;
    collected_at = collected_at;
    node_count = length inv.nodes;
    version = schema_version;
  };
}

unfoldable pub filter_by_keyword : (String → String) → Inventory → String → List TestNode
unfolding matches_keyword
filter_by_keyword lower inv expr = filter (λ n. matches_keyword lower n expr) (values inv.nodes)

unfoldable pub filter_by_marker : Inventory → String → List TestNode
unfolding matches_marker
filter_by_marker inv expr = filter (λ n. matches_marker n expr) (values inv.nodes)

-- `map_or(true, ..)`
abbrev pub or_all : (TestNode → String → Bool) → Option String → TestNode → Bool
or_all matches none n = true
or_all matches (some expr) n = matches n expr

unfoldable pub filter_nodes :
    (String → String) → Inventory → Option String → Option String → List TestNode
unfolding matches_keyword matches_marker
filter_nodes lower inv keyword marker =
    filter (λ n. or_all (matches_keyword lower) keyword n && or_all matches_marker marker n)
      (values inv.nodes)

abbrev pub avg_or_zero : TestNode → ℕ
avg_or_zero n = elim n.avg_duration_ms [ some d ↦ d | none ↦ 0 ]

unfoldable pub sorted_by_duration : Inventory → List TestNode
unfolding sort_falling
sorted_by_duration inv = sort_falling avg_or_zero (values inv.nodes)

-- The rates are bits of floats that are not negative, which are ordered as the floats are.
unfoldable pub sorted_by_failure_rate : (ℕ → ℕ → ℕ) → Inventory → List TestNode
unfolding sort_falling failure_rate
sorted_by_failure_rate percent inv = sort_falling (failure_rate percent) (values inv.nodes)

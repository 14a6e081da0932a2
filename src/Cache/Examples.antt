-- ===== src/Cache/Examples.antt =====
-- The theorems on the cache at concrete caches.
use rpytest.Common.{◌≡◌, refl, String, str_eq, true, false, ◌||◌, [], ◌∷◌, none, some, ok}
use rpytest.Common.Dict.{Dict, insert}
use rpytest.Inventory.{has_marker, contains}
use rpytest.Inventory.Storage.{Bytes, save, save_nodes}
use rpytest.Inventory.Store.{Inventory, new_inventory, add, update_meta}
use rpytest.Inventory.Memory.{
  memory, memory-IsStore, memory-IsReadable, empty-IsWellStored, format_serde,
  format_serde-IsFaithful,
}
use rpytest.Cache.{
  TestNodeInfo, World, CacheManager, new_manager, node_of, inventory_of, open_storage,
  save_inventory, is_cache_valid, with_storage,
}
use rpytest.Cache.Valid.{is_cache_valid-save_inventory}
use rpytest.Cache.Markers.{node_of-marks}

abbrev info : TestNodeInfo
info = record {
  node_id = "a.py::test_x";
  file_path = "a.py";
  lineno = some 3;
  name = "test_x";
  class_name = none;
  markers = "slow" ∷ "skipif" ∷ "slow" ∷ [];
  skip = false;
  xfail = true;
}

node_of-marks_example :
    ((t : String) → has_marker (node_of info) t ≡ contains info.markers t)
    × ((node_of info).skip ≡ (contains info.markers "skip" || contains info.markers "skipif"))
    × ((node_of info).xfail ≡ contains info.markers "xfail")
node_of-marks_example = node_of-marks info

abbrev empty_store : Dict Bytes
empty_store = []

abbrev world : World (Dict Bytes)
world = record {
  exists = λ p. false;
  create_dir_all = λ p. ok tt;
  remove_dir_all = λ p. ok tt;
  open_db = λ p. ok empty_store;
}

abbrev manager : CacheManager (Dict Bytes)
manager = new_manager ("/" ∷ "repo" ∷ [])

abbrev opened_manager : CacheManager (Dict Bytes)
opened_manager = with_storage memory format_serde world manager (some empty_store)

opens : open_storage memory format_serde world manager ≡ (opened_manager, ok empty_store)
unfolding open_storage
opens = refl

abbrev saved_manager : CacheManager (Dict Bytes)
saved_manager = (save_inventory memory format_serde world "repo" "h1" 7 (info ∷ []) manager).0

abbrev saved_inventory : Inventory
saved_inventory = update_meta "h1" 7 (inventory_of (info ∷ []) new_inventory)

abbrev saved_store : Dict Bytes
saved_store = (save memory format_serde saved_inventory "repo" empty_store).0

saves :
    save_inventory memory format_serde world "repo" "h1" 7 (info ∷ []) manager
    ≡ (saved_manager, ok tt)
unfolding save_inventory save save_nodes open_storage inventory_of update_meta add insert
saves = refl

holds_store : saved_manager.storage ≡ some saved_store
unfolding save_inventory save save_nodes open_storage inventory_of update_meta add insert
holds_store = refl

is_cache_valid-save_inventory_example :
    (is_cache_valid memory format_serde world "repo" "h2" saved_manager).1 ≡ ok (str_eq "h1" "h2")
is_cache_valid-save_inventory_example =
    is_cache_valid-save_inventory memory format_serde memory-IsStore format_serde-IsFaithful world
      "repo" "h1" "h2" 7 info [] manager opened_manager saved_manager empty_store saved_store opens
      (empty-IsWellStored "repo") saves holds_store (memory-IsReadable "repo" saved_store)

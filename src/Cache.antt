-- ===== src/Cache.antt =====
-- crates/rpytest/src/cache/mod.rs: the cache of inventories in the directory `.rpytest` of a
-- repository, over any storage backend (the code uses the one by sled). The file system answers
-- through a `World`; a path is the list of its components.

pub mod Valid
pub mod Markers
mod Examples
use rpytest.Common.{
  ℕ, String, str_eq, Bool, true, false, List, [], ◌∷◌, ◌++◌, map, Option, none, some, Result, ok,
  err, if◌then◌else◌, length,
}
use rpytest.Common.Dict.{values}
use rpytest.Dependency.Paths.{FilePath}
use rpytest.Inventory.{TestNode, new, add_marker, build_keywords}
use rpytest.Inventory.Store.{Inventory, new_inventory, add, update_meta, filter_nodes, is_empty}
use rpytest.Inventory.Storage.{StorageError, Backend, Serde, save, load, clear_storage}

-- `TestNodeInfo` of crates/rpytest-core/src/protocol/messages.rs
pub record TestNodeInfo : Type 0 where
  pub node_id : String
  pub file_path : String
  pub lineno : Option ℕ
  pub name : String
  pub class_name : Option String
  pub markers : List String
  pub skip : Bool
  pub xfail : Bool

pub data CacheError : Type 0 where
  not_created not_removed : String → CacheError
  not_opened storage_failed : StorageError → CacheError

-- What the file system and the opening of the database say.
pub record World (S : Type 0) : Type 0 where
  pub exists : FilePath → Bool
  pub create_dir_all : FilePath → Result {0, 0} String Unit
  pub remove_dir_all : FilePath → Result {0, 0} String Unit
  pub open_db : FilePath → Result StorageError S

pub record CacheManager (S : Type 0) : Type 0 where
  pub repo_root : FilePath
  pub cache_dir : FilePath
  pub storage : Option S

abbrev pub new_manager : {S : Type 0} → FilePath → CacheManager S
new_manager repo_root = record {
  repo_root = repo_root;
  cache_dir = repo_root ++ ".rpytest" ∷ [];
  storage = none;
}

abbrev pub add_markers : List String → TestNode → TestNode
add_markers [] node = node
add_markers (marker ∷ markers) node = add_markers markers (add_marker marker node)

abbrev pub class_or : Option String → Option String → Option String
class_or (some c) old = some c
class_or none old = old

-- The conversion of `TestNodeInfo` in `save_inventory`, before its markers are added.
unfoldable pub bare_node : TestNodeInfo → TestNode
unfolding new
bare_node info =
    let node = new info.node_id info.file_path in
    record node { lineno = info.lineno; class_name = class_or info.class_name node.class_name }

unfoldable pub node_of : TestNodeInfo → TestNode
unfolding bare_node add_marker build_keywords
node_of info = build_keywords (add_markers info.markers (bare_node info))

unfoldable pub inventory_of : List TestNodeInfo → Inventory → Inventory
unfolding node_of add
inventory_of [] inv = inv
inventory_of (info ∷ infos) inv = inventory_of infos (add (node_of info) inv)

module _ {S : Type 0} (b : Backend S) (serde : Serde) (world : World S) where
  abbrev pub create_failed : Result {0, 0} String Unit → Result {0, 0} CacheError Unit
  create_failed (ok u) = ok tt
  create_failed (err e) = err (not_created e)

  unfoldable pub ensure_cache_dir : CacheManager S → Result {0, 0} CacheError Unit
  ensure_cache_dir m =
      if world.exists m.cache_dir then ok tt else create_failed (world.create_dir_all m.cache_dir)

  abbrev pub with_storage : CacheManager S → Option S → CacheManager S
  with_storage m s = record { repo_root = m.repo_root; cache_dir = m.cache_dir; storage = s }

  abbrev pub opened : CacheManager S → Result StorageError S → CacheManager S × Result CacheError S
  opened m (ok s) = (with_storage m (some s), ok s)
  opened m (err e) = (m, err (not_opened e))

  abbrev pub open_created :
      CacheManager S → Result {0, 0} CacheError Unit → CacheManager S × Result CacheError S
  open_created m (err e) = (m, err e)
  open_created m (ok u) = opened m (world.open_db (m.cache_dir ++ "cache.db" ∷ []))

  abbrev pub open_if : CacheManager S → Option S → CacheManager S × Result CacheError S
  open_if m (some s) = (m, ok s)
  open_if m none = open_created m (ensure_cache_dir m)

  unfoldable pub open_storage : CacheManager S → CacheManager S × Result CacheError S
  unfolding ensure_cache_dir
  open_storage m = open_if m m.storage

  -- An inventory that cannot be loaded, or that is empty, is none.
  abbrev pub or_none : Result StorageError Inventory → Option Inventory
  or_none (ok inv) = if is_empty inv then none else some inv
  or_none (err e) = none

  abbrev pub inventory_in :
      String
      → CacheManager S × Result CacheError S
      → CacheManager S × Result CacheError (Option Inventory)
  inventory_in context_id (m, err e) = (m, err e)
  inventory_in context_id (m, ok s) = (m, ok (or_none (load b serde context_id s)))

  unfoldable pub get_inventory :
      String → CacheManager S → CacheManager S × Result CacheError (Option Inventory)
  unfolding open_storage load
  get_inventory context_id m = inventory_in context_id (open_storage m)

  abbrev pub hash_of : Result CacheError (Option Inventory) → Result CacheError (Option String)
  hash_of (ok (some inv)) = ok (some inv.meta.hash)
  hash_of (ok none) = ok none
  hash_of (err e) = err e

  unfoldable pub get_inventory_hash :
      String → CacheManager S → CacheManager S × Result CacheError (Option String)
  unfolding get_inventory
  get_inventory_hash context_id m =
      let (m', inventory) = get_inventory context_id m in (m', hash_of inventory)

  abbrev pub stored_in :
      CacheManager S
      → S × Result {0, 0} StorageError Unit
      → CacheManager S × Result {0, 0} CacheError Unit
  stored_in m (s, ok u) = (with_storage m (some s), ok tt)
  stored_in m (s, err e) = (with_storage m (some s), err (storage_failed e))

  abbrev pub save_in :
      String
      → Inventory
      → CacheManager S × Result CacheError S
      → CacheManager S × Result {0, 0} CacheError Unit
  save_in context_id inv (m, err e) = (m, err e)
  save_in context_id inv (m, ok s) = stored_in m (save b serde inv context_id s)

  unfoldable pub save_inventory :
      String
      → String
      → ℕ
      → List TestNodeInfo
      → CacheManager S
      → CacheManager S × Result {0, 0} CacheError Unit
  unfolding open_storage inventory_of update_meta save
  save_inventory context_id hash collected_at nodes m =
      save_in context_id (update_meta hash collected_at (inventory_of nodes new_inventory))
        (open_storage m)

  abbrev pub same_hash : String → Result CacheError (Option String) → Result CacheError Bool
  same_hash current_hash (ok (some cached_hash)) = ok (str_eq cached_hash current_hash)
  same_hash current_hash (ok none) = ok false
  same_hash current_hash (err e) = err e

  unfoldable pub is_cache_valid :
      String → String → CacheManager S → CacheManager S × Result CacheError Bool
  unfolding get_inventory_hash
  is_cache_valid context_id current_hash m =
      let (m', hash) = get_inventory_hash context_id m in (m', same_hash current_hash hash)

  abbrev pub clear_in :
      String → CacheManager S × Result CacheError S → CacheManager S × Result {0, 0} CacheError Unit
  clear_in context_id (m, err e) = (m, err e)
  clear_in context_id (m, ok s) = stored_in m (clear_storage b serde context_id s)

  unfoldable pub clear_context :
      String → CacheManager S → CacheManager S × Result {0, 0} CacheError Unit
  unfolding open_storage clear_storage
  clear_context context_id m = clear_in context_id (open_storage m)

  abbrev pub removed :
      CacheManager S → Result {0, 0} String Unit → CacheManager S × Result {0, 0} CacheError Unit
  removed m (ok u) = (with_storage m none, ok tt)
  removed m (err e) = (m, err (not_removed e))

  unfoldable pub clear_all : CacheManager S → CacheManager S × Result {0, 0} CacheError Unit
  clear_all m =
      if world.exists m.cache_dir then removed m (world.remove_dir_all m.cache_dir) else (m, ok tt)

  abbrev pub filtered :
      (String → String)
      → Option String
      → Option String
      → Result CacheError (Option Inventory)
      → Result CacheError (List String)
  filtered lower keyword marker (ok (some inv)) =
      ok (map (λ (n : TestNode). n.node_id) (filter_nodes lower inv keyword marker))
  filtered lower keyword marker (ok none) = ok []
  filtered lower keyword marker (err e) = err e

  unfoldable pub filter_tests :
      (String → String)
      → String
      → Option String
      → Option String
      → CacheManager S
      → CacheManager S × Result CacheError (List String)
  unfolding get_inventory filter_nodes
  filter_tests lower context_id keyword marker m =
      let (m', inventory) = get_inventory context_id m in
      (m', filtered lower keyword marker inventory)

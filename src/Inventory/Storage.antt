-- ===== src/Inventory/Storage.antt =====
-- Saving, loading and clearing an inventory (crates/rpytest-core/src/inventory/store.rs) on any
-- backend of the trait StorageBackend (crates/rpytest-core/src/storage/traits.rs), and the backend
-- by sled (crates/rpytest-core/src/storage/sled_backend.rs). Keys are texts, values are bytes;
-- rmp_serde is a parameter, with the text of its error.
use Prim.Native.String.{◌++◌}
use rpytest.Common.{
  ℕ, String, ◌==◌, List, [], ◌∷◌, Option, none, some, Result, ok, err, if◌then◌else◌,
}
use rpytest.Common.Dict.{Dict, insert}
use rpytest.Common.Text.{decimal}
use rpytest.Framing.{to_le_bytes, from_le_bytes}
use rpytest.Inventory.{TestNode}
use rpytest.Inventory.Store.{Inventory, InventoryMeta, new_inventory, with_nodes, schema_version}

abbrev pub Bytes : Type 0
Bytes = List ℕ

pub data StorageError : Type 0 where
  io serialization corrupted backend : String → StorageError
  not_found : StorageError

-- The operations of the trait; one that changes the store gives the store after it.
pub record Backend (S : Type 0) : Type 0 where
  pub get_value : String → S → Result StorageError (Option Bytes)
  pub set_value : String → Bytes → S → S × Result {0, 0} StorageError Unit
  pub delete : String → S → S × Result {0, 0} StorageError Unit
  pub flush : S → S × Result {0, 0} StorageError Unit
  pub scan_prefix : String → S → Result StorageError (List (String × Bytes))
  pub clear : S → S × Result {0, 0} StorageError Unit

-- The operations of a sled database, with the texts of its errors.
pub record Sled (D : Type 0) : Type 0 where
  pub get_db : String → D → Result String (Option Bytes)
  pub insert_db : String → Bytes → D → D × Result String (Option Bytes)
  pub remove_db : String → D → D × Result String (Option Bytes)
  pub flush_db : D → D × Result String ℕ
  pub scan_db : String → D → List (Result String (String × Bytes))
  pub clear_db : D → D × Result {0, 0} String Unit

module _ {A : Type 0} where
  abbrev pub to_backend : Result String A → Result StorageError A
  to_backend (ok a) = ok a
  to_backend (err e) = err (backend e)

  abbrev pub done : Result String A → Result {0, 0} StorageError Unit
  done (ok a) = ok tt
  done (err e) = err (backend e)

  abbrev pub and_item : Result String A → Result String (List A) → Result String (List A)
  and_item (err e) rest = err e
  and_item (ok a) (err e) = err e
  and_item (ok a) (ok items) = ok (a ∷ items)

  -- `collect` into a result: the first error, else all items.
  abbrev pub collect : List (Result String A) → Result String (List A)
  collect [] = ok []
  collect (r ∷ rs) = and_item r (collect rs)

abbrev pub sled_backend : {D : Type 0} → Sled D → Backend D
sled_backend db = record {
  get_value = λ k s. to_backend (db.get_db k s);
  set_value = λ k v s. let (s', r) = db.insert_db k v s in (s', done r);
  delete = λ k s. let (s', r) = db.remove_db k s in (s', done r);
  flush = λ s. let (s', r) = db.flush_db s in (s', done r);
  scan_prefix = λ p s. to_backend (collect (db.scan_db p s));
  clear = λ s. let (s', r) = db.clear_db s in (s', done r);
}

-- rmp_serde
pub record Serde : Type 0 where
  pub to_vec : TestNode → Result String Bytes
  pub from_slice : Bytes → Result String TestNode
  pub meta_to_vec : InventoryMeta → Result String Bytes
  pub meta_from_slice : Bytes → Result String InventoryMeta

unfoldable pub node_prefix : String → String
node_prefix context_id = "inv:" ++ (context_id ++ ":")

abbrev pub node_key : String → String → String
node_key context_id node_id = node_prefix context_id ++ node_id

unfoldable pub meta_key : String → String
meta_key context_id = "ctx:" ++ (context_id ++ ":_meta")

abbrev pub schema_key : String
schema_key = "_schema_version"

-- The stored version of the schema, if it is another.
abbrev pub other_version : Option Bytes → Option ℕ
other_version (some (x ∷ y ∷ z ∷ w ∷ rest)) =
    if from_le_bytes x y z w == schema_version then none else some (from_le_bytes x y z w)
other_version _ = none

abbrev pub mismatch : ℕ → String
mismatch v =
    "Schema version mismatch: expected " ++ (decimal schema_version ++ (", found " ++ decimal v))

module _ {S : Type 0} (b : Backend S) (serde : Serde) where
  abbrev pub Outcome : Type 0
  Outcome = S × Result {0, 0} StorageError Unit

  -- `?` after an operation: what comes next, unless it failed.
  abbrev pub and_then : Outcome → (S → Outcome) → Outcome
  and_then (s, ok u) next = next s
  and_then (s, err e) next = (s, err e)

  abbrev pub set_or_fail : String → Result String Bytes → S → Outcome
  set_or_fail key (ok v) s = b.set_value key v s
  set_or_fail key (err e) s = (s, err (serialization e))

  unfoldable pub save_nodes : String → Dict TestNode → S → Outcome
  unfolding node_prefix
  save_nodes context_id [] s = (s, ok tt)
  save_nodes context_id ((node_id, node) ∷ nodes) s =
      and_then (set_or_fail (node_key context_id node_id) (serde.to_vec node) s)
        (save_nodes context_id nodes)

  unfoldable pub save : Inventory → String → S → Outcome
  unfolding save_nodes meta_key to_le_bytes
  save inv context_id s = and_then (save_nodes context_id inv.nodes s) (λ s1.
      and_then (set_or_fail (meta_key context_id) (serde.meta_to_vec inv.meta) s1) (λ s2.
        and_then (b.set_value schema_key (to_le_bytes schema_version) s2)
          (λ s3. and_then (b.flush s3) (λ s4. (s4, ok tt)))))

  abbrev pub load_meta : Option Bytes → Result StorageError InventoryMeta
  load_meta none = ok new_inventory.meta
  load_meta (some v) = elim (serde.meta_from_slice v) [
    | ok m ↦ ok m
    | err e ↦ err (serialization e)
  ]

  unfoldable pub load_nodes :
      List (String × Bytes) → Dict TestNode → Result StorageError (Dict TestNode)
  unfolding insert
  load_nodes [] nodes = ok nodes
  load_nodes ((key, value) ∷ entries) nodes = elim (serde.from_slice value) [
    | ok node ↦ load_nodes entries (insert nodes node.node_id node)
    | err e ↦ err (serialization e)
  ]

  abbrev pub loaded :
      InventoryMeta → Result StorageError (Dict TestNode) → Result StorageError Inventory
  loaded meta (err e) = err e
  loaded meta (ok nodes) = ok (with_nodes (record { nodes = nodes; meta = meta }) nodes)

  abbrev pub load_entries :
      InventoryMeta → Result StorageError (List (String × Bytes)) → Result StorageError Inventory
  load_entries meta (err e) = err e
  load_entries meta (ok entries) = loaded meta (load_nodes entries [])

  abbrev pub load_rest :
      String → S → Result StorageError InventoryMeta → Result StorageError Inventory
  load_rest context_id s (err e) = err e
  load_rest context_id s (ok meta) = load_entries meta (b.scan_prefix (node_prefix context_id) s)

  abbrev pub load_with :
      String → S → Result StorageError (Option Bytes) → Result StorageError Inventory
  load_with context_id s (err e) = err e
  load_with context_id s (ok bytes) = load_rest context_id s (load_meta bytes)

  abbrev pub load_checked :
      String → S → Result StorageError (Option Bytes) → Result StorageError Inventory
  load_checked context_id s (err e) = err e
  load_checked context_id s (ok bytes) = elim (other_version bytes) [
    | some v ↦ err (corrupted (mismatch v))
    | none ↦ load_with context_id s (b.get_value (meta_key context_id) s)
  ]

  unfoldable pub load : String → S → Result StorageError Inventory
  unfolding load_nodes node_prefix meta_key decimal
  load context_id s = load_checked context_id s (b.get_value schema_key s)

  unfoldable pub delete_all : List (String × Bytes) → S → Outcome
  delete_all [] s = (s, ok tt)
  delete_all ((key, value) ∷ entries) s = and_then (b.delete key s) (delete_all entries)

  abbrev delete_found : String → S → Result StorageError (List (String × Bytes)) → Outcome
  delete_found context_id s (err e) = (s, err e)
  delete_found context_id s (ok entries) = and_then (delete_all entries s) (λ s1.
      and_then (b.delete (meta_key context_id) s1)
        (λ s2. and_then (b.flush s2) (λ s3. (s3, ok tt))))

  unfoldable pub clear_storage : String → S → Outcome
  unfolding delete_all node_prefix meta_key
  clear_storage context_id s = delete_found context_id s (b.scan_prefix (node_prefix context_id) s)

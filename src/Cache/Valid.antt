-- ===== src/Cache/Valid.antt =====
-- A saved inventory is valid by its hash (crates/rpytest/src/cache/mod.rs).
use rpytest.Common.{
  All, ℕ, ◌≡◌, refl, sym, ap, ◌∙◌, String, str_eq, eq_refl, false, List, [], ◌∷◌, map, Option, some,
  Result, ok, err, Bool-cases, inl, inr, is_empty as is_empty_list,
}
use mathlib.Core.Path.{subst}
use rpytest.Common.Dict.{Dict, get, insert}
use rpytest.Inventory.{TestNode}
use rpytest.Inventory.Store.{Inventory, new_inventory, add, update_meta, get_node, is_empty}
use rpytest.Inventory.Storage.{StorageError, Backend, Serde, save, load}
use rpytest.Inventory.Laws.{IsStore, IsFaithful, IsReadable}
use rpytest.Inventory.Reload.{IsWellStored, stored, some-injective}
use rpytest.Inventory.Saving.{IsKeyed, overlay, load-save_overlays}
use rpytest.Inventory.Invariant.{adds, KeepsId, apply_all, apply_all_as_map}
use rpytest.Cache.{
  TestNodeInfo, World, CacheManager, node_of, inventory_of, open_storage, save_inventory, or_none,
  is_cache_valid, with_storage, get_inventory, get_inventory_hash, stored_in, save_in, same_hash,
  hash_of,
}

inventory_of-adds :
    (infos : List TestNodeInfo) (inv : Inventory)
    → inventory_of infos inv ≡ apply_all (map (λ i. adds (node_of i)) infos) inv
unfolding inventory_of
inventory_of-adds [] inv = refl
inventory_of-adds (i ∷ infos) inv = inventory_of-adds infos (add (node_of i) inv)

adds-KeepsId : (infos : List TestNodeInfo) → All KeepsId (map (λ i. adds (node_of i)) infos)
adds-KeepsId [] = tt
adds-KeepsId (i ∷ infos) = (tt, adds-KeepsId infos)

inventory_of-IsKeyed :
    (infos : List TestNodeInfo) → IsKeyed (inventory_of infos new_inventory).nodes
inventory_of-IsKeyed infos =
    subst (λ inv. IsKeyed inv.nodes) (sym (inventory_of-adds infos new_inventory))
      (apply_all_as_map (map (λ i. adds (node_of i)) infos) new_inventory (adds-KeepsId infos)
        (tt, refl)).0.0

insert_not_empty :
    (d : Dict TestNode) (k : String) (n : TestNode) → is_empty_list (insert d k n) ≡ false
unfolding insert
insert_not_empty [] k n = refl
insert_not_empty ((j, m) ∷ d) k n = elim (Bool-cases (str_eq j k)) [
  | inl e ↦ rw e refl
  | inr e ↦ rw e refl
]

inventory_of_not_empty :
    (infos : List TestNodeInfo) (inv : Inventory)
    → is_empty inv ≡ false
    → is_empty (inventory_of infos inv) ≡ false
unfolding inventory_of add
inventory_of_not_empty [] inv h = h
inventory_of_not_empty (i ∷ infos) inv h =
    inventory_of_not_empty infos (add (node_of i) inv)
      (insert_not_empty inv.nodes (node_of i).node_id (node_of i))

-- An inventory that is not empty has a test under some id, and the other way round.
some_test :
    (inv : Inventory)
    → is_empty inv ≡ false
    → (id : String) × (n : TestNode) × (get_node inv id ≡ some n)
unfolding get_node get
some_test inv h = in_nodes inv.nodes h
  where
    in_nodes :
        (d : Dict TestNode)
        → is_empty_list d ≡ false
        → (id : String) × (n : TestNode) × (get d id ≡ some n)
    in_nodes [] h = absurd (cc h)
    in_nodes ((k, n) ∷ d) h = (k, n, rw (eq_refl k) refl)

not_empty :
    (inv : Inventory) (id : String) (n : TestNode) → get_node inv id ≡ some n → is_empty inv ≡ false
unfolding get_node get
not_empty inv id n e = in_nodes inv.nodes e
  where
    in_nodes : (d : Dict TestNode) → get d id ≡ some n → is_empty_list d ≡ false
    in_nodes [] e = absurd (cc e)
    in_nodes ((k, m) ∷ d) e = refl

module _ {S : Type 0} (b : Backend S) (serde : Serde) (law : IsStore b) (faith : IsFaithful serde)
    (world : World S) where
  stored_in_succeeds :
      (m m2 : CacheManager S) (p : S × Result {0, 0} StorageError Unit)
      → stored_in b serde world m p ≡ (m2, ok tt)
      → (p.1 ≡ ok tt) × (with_storage b serde world m (some p.0) ≡ m2)
  stored_in_succeeds m m2 (s, ok u) e = (refl, ap (λ r. r.0) e)
  stored_in_succeeds m m2 (s, err x) e = absurd (cc e)

  -- The inventory that is saved.
  abbrev kept : String → ℕ → List TestNodeInfo → Inventory
  kept hash collected_at infos = update_meta hash collected_at (inventory_of infos new_inventory)

  kept-IsKeyed :
      (hash : String) (collected_at : ℕ) (infos : List TestNodeInfo)
      → IsKeyed (kept hash collected_at infos).nodes
  unfolding update_meta
  kept-IsKeyed hash collected_at infos = inventory_of-IsKeyed infos

  kept_not_empty :
      (hash : String) (collected_at : ℕ) (i : TestNodeInfo) (infos : List TestNodeInfo)
      → is_empty (kept hash collected_at (i ∷ infos)) ≡ false
  unfolding update_meta inventory_of add
  kept_not_empty hash collected_at i infos =
      inventory_of_not_empty infos (add (node_of i) new_inventory)
        (insert_not_empty [] (node_of i).node_id (node_of i))

  kept-hash :
      (hash : String) (collected_at : ℕ) (infos : List TestNodeInfo)
      → (kept hash collected_at infos).meta.hash ≡ hash
  unfolding update_meta
  kept-hash hash collected_at infos = refl

  save_inventory_succeeds :
      (context_id hash : String) (collected_at : ℕ) (infos : List TestNodeInfo)
      (m m1 m2 : CacheManager S) (s : S)
      → open_storage b serde world m ≡ (m1, ok s)
      → save_inventory b serde world context_id hash collected_at infos m ≡ (m2, ok tt)
      → ((save b serde (kept hash collected_at infos) context_id s).1 ≡ ok tt)
        × (with_storage b serde world m1
              (some (save b serde (kept hash collected_at infos) context_id s).0)
            ≡ m2)
  unfolding save_inventory
  save_inventory_succeeds context_id hash collected_at infos m m1 m2 s o e =
      stored_in_succeeds m1 m2 _
        (sym (ap (save_in b serde world context_id (kept hash collected_at infos)) o) ∙ e)

  valid_of_loaded :
      (context_id current : String) (m1 : CacheManager S) (s : S) (inv : Inventory)
      → load b serde context_id s ≡ ok inv
      → is_empty inv ≡ false
      → (is_cache_valid b serde world context_id current (with_storage b serde world m1 (some s))).1
        ≡ ok (str_eq inv.meta.hash current)
  unfolding is_cache_valid get_inventory_hash get_inventory open_storage
  valid_of_loaded context_id current m1 s inv l h =
      ap (λ o. same_hash b serde world current (hash_of b serde world (ok o)))
        (ap (or_none b serde world) l ∙ full h)
    where
      full : is_empty inv ≡ false → or_none b serde world (ok inv) ≡ some inv
      full e = rw e refl

  overlaid_not_empty :
      (inv inv' : Inventory) (old : String → Option TestNode)
      → is_empty inv ≡ false
      → ((id : String) → get_node inv' id ≡ overlay (get_node inv id) (old id))
      → is_empty inv' ≡ false
  overlaid_not_empty inv inv' old h g =
      let (id, n, e) = some_test inv h in
      not_empty inv' id n (g id ∙ ap (λ o. overlay o (old id)) e)

  -- For a store whose operations, when they succeed, do what they do on a map from keys to values, and a
  -- serialisation that is read back where it succeeds: if the storage opens, each stored value of the
  -- context is a test under its own key, there are tests to save, saving them with a hash has succeeded,
  -- and the reads of the store after it succeed, then the cache of the context is valid for that hash and
  -- for no other.
  pub is_cache_valid-save_inventory :
      (context_id hash current : String) (collected_at : ℕ) (i : TestNodeInfo)
      (infos : List TestNodeInfo) (m m1 m2 : CacheManager S) (s s' : S)
      → open_storage b serde world m ≡ (m1, ok s)
      → IsWellStored b serde law context_id s
      → save_inventory b serde world context_id hash collected_at (i ∷ infos) m ≡ (m2, ok tt)
      → m2.storage ≡ some s'
      → IsReadable b context_id s'
      → (is_cache_valid b serde world context_id current m2).1 ≡ ok (str_eq hash current)
  is_cache_valid-save_inventory context_id hash current collected_at i infos m m1 m2 s s' o w e t
        readable =
      let inv = kept hash collected_at (i ∷ infos) in
      let p = save b serde inv context_id s in
      let (done, same) =
        save_inventory_succeeds context_id hash collected_at (i ∷ infos) m m1 m2 s o e in
      let store : p.0 ≡ s' = some-injective (ap (λ k. k.storage) same ∙ t) in
      let saves : p ≡ (s', ok tt) = ap (λ r. (p.0, r)) done ∙ ap (λ k. (k, ok tt)) store in
      let (inv', l, h, g) =
        load-save_overlays b serde law faith inv context_id s s'
          (kept-IsKeyed hash collected_at (i ∷ infos)) w saves readable in
      ap (λ k. (is_cache_valid b serde world context_id current k).1)
        (sym same ∙ ap (λ k. with_storage b serde world m1 (some k)) store)
      ∙ valid_of_loaded context_id current m1 s' inv' l (
          overlaid_not_empty inv inv' (stored b serde law context_id s)
            (kept_not_empty hash collected_at i infos) g)
      ∙ ap (λ k. ok (str_eq k current)) (h ∙ kept-hash hash collected_at (i ∷ infos))

-- ===== src/Inventory/Invariant.antt =====
-- Invariants of the inventory (crates/rpytest-core/src/inventory/store.rs) and of a test's markers
-- (crates/rpytest-core/src/inventory/nodes.rs).
use rpytest.Common.{
  ℕ, ◌≡◌, refl, sym, ap, ◌∙◌, String, str_eq, eq_iff, true, false, suc, ◌⊎◌, List, [], ◌∷◌, Option,
  none, some, if◌then◌else◌, All, arith, Bool-cases, inl, inr, length,
}
use rpytest.Common.Dict.{Dict, get, insert, remove, get-insert, get-remove}
use rpytest.Common.TextLaws.{same_text}
use rpytest.Inventory.{TestNode}
use rpytest.Inventory.Store.{
  Inventory, add, remove_node, get_node, update_meta, get_mut, change_test,
}
use rpytest.Inventory.Saving.{IsKeyed}
use rpytest.Inventory.Reload.{some-injective}
use mathlib.Core.Path.{subst}

abbrev IsOtherThan : String → Dict TestNode → Type 0
IsOtherThan k d = All (λ e. str_eq e.0 k ≡ false) d

insert-IsOtherThan :
    (d : Dict TestNode) (k j : String) (n : TestNode)
    → str_eq j k ≡ false
    → IsOtherThan k d
    → IsOtherThan k (insert d j n)
unfolding insert
insert-IsOtherThan [] k j n h a = (h, tt)
insert-IsOtherThan ((i, m) ∷ d) k j n h a = elim (Bool-cases (str_eq i j)) [
  | inl e ↦ rw e (a.0, a.1)
  | inr e ↦ rw e (a.0, insert-IsOtherThan d k j n h a.1)
]

insert-IsKeyed : (d : Dict TestNode) (n : TestNode) → IsKeyed d → IsKeyed (insert d n.node_id n)
unfolding insert
insert-IsKeyed [] n h = (refl, tt, tt)
insert-IsKeyed ((k, m) ∷ d) n h = elim (Bool-cases (str_eq k n.node_id)) [
  | inl e ↦ rw e (sym (same_text k n.node_id e), h.1, h.2)
  | inr e ↦ rw e (
    h.0,
    insert-IsOtherThan d k n.node_id n (ground (arith, eq_iff k n.node_id, eq_iff n.node_id k, e))
        h.1,
    insert-IsKeyed d n h.2,
  )
]

remove-IsOtherThan :
    (d : Dict TestNode) (k j : String) → IsOtherThan k d → IsOtherThan k (remove d j)
unfolding remove
remove-IsOtherThan [] k j a = tt
remove-IsOtherThan ((i, m) ∷ d) k j a = elim (Bool-cases (str_eq i j)) [
  | inl e ↦ rw e (remove-IsOtherThan d k j a.1)
  | inr e ↦ rw e (a.0, remove-IsOtherThan d k j a.1)
]

remove-IsKeyed : (d : Dict TestNode) (j : String) → IsKeyed d → IsKeyed (remove d j)
unfolding remove
remove-IsKeyed [] j h = tt
remove-IsKeyed ((k, m) ∷ d) j h = elim (Bool-cases (str_eq k j)) [
  | inl e ↦ rw e (remove-IsKeyed d j h.2)
  | inr e ↦ rw e (h.0, remove-IsOtherThan d k j h.1, remove-IsKeyed d j h.2)
]

get-same : (d : Dict TestNode) (k id : String) → str_eq k id ≡ true → get d k ≡ get d id
get-same d k id e = ap (get d) (same_text k id e)

-- The test that stands under an id has that id.
get-IsKeyed :
    (d : Dict TestNode) (k : String) (n : TestNode) → IsKeyed d → get d k ≡ some n → n.node_id ≡ k
unfolding get
get-IsKeyed [] k n h e = absurd (cc e)
get-IsKeyed ((j, m) ∷ d) k n h e = elim (Bool-cases (str_eq j k)) [
  | inl p ↦
      let same : m ≡ n = some-injective (ap (λ b. if b then some m else get d k) (sym p) ∙ e) in
      ap (λ (t : TestNode). t.node_id) (sym same) ∙ h.0 ∙ same_text j k p
  | inr p ↦ get-IsKeyed d k n h.2 (ap (λ b. if b then some m else get d k) (sym p) ∙ e)
]

length-insert_known :
    (d : Dict TestNode) (k : String) (n m : TestNode)
    → get d k ≡ some n
    → length (insert d k m) ≡ length d
unfolding get insert
length-insert_known [] k n m e = absurd (cc e)
length-insert_known ((j, w) ∷ d) k n m e = elim (Bool-cases (str_eq j k)) [
  | inl p ↦ rw p refl
  | inr p ↦
      rw p
        (ap suc (length-insert_known d k n m (ap (λ b. if b then some w else get d k) (sym p) ∙ e)))
]

-- The changes of an inventory. A change through the reference of `get_mut` is any function.
pub data Change : Type 0 where
  adds : TestNode → Change
  removes : String → Change
  updates_meta : String → ℕ → Change
  mutates : String → (TestNode → TestNode) → Change

abbrev pub apply : Change → Inventory → Inventory
apply (adds n) inv = add n inv
apply (removes id) inv = (remove_node id inv).0
apply (updates_meta hash collected_at) inv = update_meta hash collected_at inv
apply (mutates id change) inv = get_mut change id inv

abbrev pub apply_all : List Change → Inventory → Inventory
apply_all [] inv = inv
apply_all (c ∷ cs) inv = apply_all cs (apply c inv)

-- A change through a reference leaves the id of the test.
abbrev pub KeepsId : Change → Type 0
KeepsId (mutates id change) = (n : TestNode) → (change n).node_id ≡ n.node_id
KeepsId _ = Unit

-- The same changes of a map from ids to tests.
abbrev pub changed : (TestNode → TestNode) → Option TestNode → Option TestNode
changed change none = none
changed change (some n) = some (change n)

abbrev pub map_apply : Change → (String → Option TestNode) → String → Option TestNode
map_apply (adds n) m id = if str_eq n.node_id id then some n else m id
map_apply (removes k) m id = if str_eq k id then none else m id
map_apply (updates_meta hash collected_at) m id = m id
map_apply (mutates k change) m id = if str_eq k id then changed change (m id) else m id

abbrev pub map_apply_all : List Change → (String → Option TestNode) → String → Option TestNode
map_apply_all [] m id = m id
map_apply_all (c ∷ cs) m id = map_apply_all cs (map_apply c m) id

-- The tests stand under their own ids, no id twice, and the metadata counts them.
abbrev pub IsValid : Inventory → Type 0
IsValid inv = IsKeyed inv.nodes × (inv.meta.node_count ≡ length inv.nodes)

change_test-IsValid :
    (d : Dict TestNode) (k : String) (change : TestNode → TestNode) (o : Option TestNode)
    → ((n : TestNode) → (change n).node_id ≡ n.node_id)
    → get d k ≡ o
    → IsKeyed d
    → IsKeyed (change_test o change k d) × (length d ≡ length (change_test o change k d))
change_test-IsValid d k change none f e h = (h, refl)
change_test-IsValid d k change (some n) f e h =
    let id : (change n).node_id ≡ k = f n ∙ get-IsKeyed d k n h e in
    (
      subst (λ j. IsKeyed (insert d j (change n))) id (insert-IsKeyed d (change n) h),
      sym (length-insert_known d k n (change n) e),
    )

get-change_test :
    (d : Dict TestNode) (k id : String) (change : TestNode → TestNode) (o : Option TestNode)
    → get d k ≡ o
    → get (change_test o change k d) id
      ≡ (if str_eq k id then changed change (get d id) else get d id)
get-change_test d k id change none e = elim (Bool-cases (str_eq k id)) [
  | inl p ↦ rw p (sym (get-same d k id p) ∙ e ∙ ap (changed change) (sym e ∙ get-same d k id p))
  | inr p ↦ rw p refl
]
get-change_test d k id change (some n) e =
    get-insert d k id (change n) ∙ by_id (Bool-cases (str_eq k id))
  where
    by_id :
        ((str_eq k id ≡ true) ⊎ (str_eq k id ≡ false))
        → (if str_eq k id then some (change n) else get d id)
          ≡ (if str_eq k id then changed change (get d id) else get d id)
    by_id (inl p) = rw p (ap (changed change) (sym e ∙ get-same d k id p))
    by_id (inr p) = rw p refl

apply-IsValid : (c : Change) (inv : Inventory) → KeepsId c → IsValid inv → IsValid (apply c inv)
unfolding add remove_node update_meta get_mut
apply-IsValid (adds n) inv f h = (insert-IsKeyed inv.nodes n h.0, refl)
apply-IsValid (removes id) inv f h = (remove-IsKeyed inv.nodes id h.0, refl)
apply-IsValid (updates_meta hash collected_at) inv f h = (h.0, refl)
apply-IsValid (mutates k change) inv f h =
    let (keyed, same) = change_test-IsValid inv.nodes k change (get inv.nodes k) f refl h.0 in
    (keyed, h.1 ∙ same)

apply_as_map :
    (c : Change) (inv : Inventory) (id : String)
    → get_node (apply c inv) id ≡ map_apply c (get_node inv) id
unfolding get_node add remove_node update_meta get_mut
apply_as_map (adds n) inv id = get-insert inv.nodes n.node_id id n
apply_as_map (removes k) inv id = get-remove inv.nodes k id
apply_as_map (updates_meta hash collected_at) inv id = refl
apply_as_map (mutates k change) inv id =
    get-change_test inv.nodes k id change (get inv.nodes k) refl

map_apply_same :
    (c : Change) (f g : String → Option TestNode)
    → ((id : String) → f id ≡ g id)
    → (id : String) → map_apply c f id ≡ map_apply c g id
map_apply_same (adds n) f g h id = rw (h id) refl
map_apply_same (removes k) f g h id = rw (h id) refl
map_apply_same (updates_meta hash collected_at) f g h id = h id
map_apply_same (mutates k change) f g h id = rw (h id) refl

map_apply_all_same :
    (cs : List Change) (f g : String → Option TestNode)
    → ((id : String) → f id ≡ g id)
    → (id : String) → map_apply_all cs f id ≡ map_apply_all cs g id
map_apply_all_same [] f g h id = h id
map_apply_all_same (c ∷ cs) f g h id =
    map_apply_all_same cs (map_apply c f) (map_apply c g) (map_apply_same c f g h) id

-- After any additions, removals, updates of the metadata and changes of tests through `get_mut` that
-- leave the ids of the tests, a valid inventory is valid: its tests stand under their own ids, no id
-- twice, and the metadata counts them. Its tests by id are those of a map from ids to tests after the
-- same changes.
pub apply_all_as_map :
    (cs : List Change) (inv : Inventory)
    → All KeepsId cs
    → IsValid inv
    → IsValid (apply_all cs inv)
      × ((id : String) → get_node (apply_all cs inv) id ≡ map_apply_all cs (get_node inv) id)
apply_all_as_map [] inv f h = (h, λ id. refl)
apply_all_as_map (c ∷ cs) inv f h =
    let (v, g) = apply_all_as_map cs (apply c inv) f.1 (apply-IsValid c inv f.0 h) in
    (
      v,
      λ id.
          g id
          ∙ map_apply_all_same cs (get_node (apply c inv)) (map_apply c (get_node inv))
              (apply_as_map c inv) id,
    )

-- ===== src/Inventory/Reload.antt =====
-- Saving an inventory and loading it again (crates/rpytest-core/src/inventory/store.rs).
use mathlib.Core.Path.{subst}
use rpytest.Common.{
  ◌≡◌, refl, sym, ap, ◌∙◌, String, str_eq, Bool, true, false, List, [], ◌∷◌, Option, none, some,
  Result, ok, err, if◌then◌else◌, All, arith, Bool-cases, inl, inr,
}
use rpytest.Common.Dict.{Dict, get, insert, get-insert}
use rpytest.Common.Text.{has_prefix}
use rpytest.Inventory.{TestNode}
use rpytest.Inventory.Store.{Inventory, InventoryMeta, get_node, with_nodes}
use rpytest.Inventory.Storage.{
  Bytes, Backend, Serde, node_prefix, node_key, meta_key, schema_key, load_nodes, load_meta,
  load_with, load_checked, load, other_version,
}
use rpytest.Common.TextLaws.{same_text}
use rpytest.Inventory.Laws.{IsStore, IsReadable, has_prefix-append, node_key_eq}

abbrev test_of : Result String TestNode → Option TestNode
test_of (ok n) = some n
test_of (err e) = none

pub some-injective {ℓ} : {A : Type ℓ} {x y : A} → some x ≡ some y → x ≡ y
some-injective e = cc e

module _ {S : Type 0} (b : Backend S) (serde : Serde) (law : IsStore b) where
  -- Each stored value under the prefix of the context is a test, under the key of its id.
  abbrev pub IsWellStored : String → S → Type 0
  IsWellStored context_id s =
      (k : String) (v : Bytes)
      → has_prefix k (node_prefix context_id) ≡ true
      → law.view s k ≡ some v
      → (n : TestNode) × (serde.from_slice v ≡ ok n) × (k ≡ node_key context_id n.node_id)

  abbrev pub test_in : Option Bytes → Option TestNode
  test_in none = none
  test_in (some v) = test_of (serde.from_slice v)

  -- The stored test of an id.
  abbrev pub stored : String → S → String → Option TestNode
  stored context_id s id = test_in (law.view s (node_key context_id id))

  abbrev IsOf : String → S → List (String × Bytes) → Type 0
  IsOf context_id s es =
      All (λ e. (has_prefix e.0 (node_prefix context_id) ≡ true) × (law.view s e.0 ≡ some e.1)) es

  get-IsOf :
      (context_id : String) (s : S) (es : List (String × Bytes)) (k : String) (v : Bytes)
      → IsOf context_id s es
      → get es k ≡ some v
      → law.view s k ≡ some v
  unfolding get
  get-IsOf context_id s [] k v h e = absurd (cc e)
  get-IsOf context_id s ((j, w) ∷ es) k v h e = elim (Bool-cases (str_eq j k)) [
    | inl p ↦ subst (λ x. law.view s x ≡ some v) (same_text j k p) (h.0.1 ∙ ground (arith, e, p))
    | inr p ↦ get-IsOf context_id s es k v h.1 (ground (arith, e, p))
  ]

  -- What a list of entries says of a test.
  abbrev said : List (String × Bytes) → String → Option TestNode → Option TestNode
  said es key old = elim (get es key) [ some v ↦ test_of (serde.from_slice v) | none ↦ old ]

  said-known :
      (v : Bytes) (n : TestNode) (o : Option Bytes)
      → serde.from_slice v ≡ ok n
      → ((w : Bytes) → o ≡ some w → w ≡ v)
      → elim o [ some w ↦ test_of (serde.from_slice w) | none ↦ some n ] ≡ some n
  said-known v n none f h = refl
  said-known v n (some w) f h = ap (λ u. test_of (serde.from_slice u)) (h w refl) ∙ ap test_of f

  said-if :
      (v : Bytes) (o : Option Bytes) (old : Option TestNode) (p : Bool)
      → elim (if p then some v else o) [ some w ↦ test_of (serde.from_slice w) | none ↦ old ] ≡ (
          if p
          then test_of (serde.from_slice v)
          else elim o [ some w ↦ test_of (serde.from_slice w) | none ↦ old ])
  said-if v o old true = refl
  said-if v o old false = refl

  said-cons :
      (context_id id : String) (s : S) (es : List (String × Bytes)) (v : Bytes) (n : TestNode)
      (d : Dict TestNode)
      → IsOf context_id s es
      → law.view s (node_key context_id n.node_id) ≡ some v
      → serde.from_slice v ≡ ok n
      → said es (node_key context_id id) (get (insert d n.node_id n) id)
        ≡ said ((node_key context_id n.node_id, v) ∷ es) (node_key context_id id) (get d id)
  unfolding get
  said-cons context_id id s es v n d h w f =
      ap (said es key) (get-insert d n.node_id id n)
      ∙ by_id (str_eq n.node_id id) refl
      ∙ ap (λ p. if p then test_of (serde.from_slice v) else said es key (get d id))
          (sym (node_key_eq context_id n.node_id id))
      ∙ sym (said-if v (get es key) (get d id) (str_eq (node_key context_id n.node_id) key))
    where
      key : String
      key = node_key context_id id

      same_value :
          (u : Bytes)
          → law.view s (node_key context_id id) ≡ some u
          → str_eq n.node_id id ≡ true
          → u ≡ v
      same_value u e p =
          let same = ap (λ i. law.view s (node_key context_id i)) (same_text n.node_id id p) in
          some-injective (sym e ∙ sym same ∙ w)

      by_id :
          (p : Bool)
          → str_eq n.node_id id ≡ p
          → said es key (if p then some n else get d id)
            ≡ (if p then test_of (serde.from_slice v) else said es key (get d id))
      by_id false e = refl
      by_id true e =
          said-known v n (get es key) f (λ u g. same_value u (get-IsOf context_id s es key u h g) e)
          ∙ sym (ap test_of f)

  load_nodes-ok :
      (context_id : String) (s : S) (es : List (String × Bytes)) (d : Dict TestNode)
      → IsWellStored context_id s
      → IsOf context_id s es
      → (d' : Dict TestNode) × (load_nodes b serde es d ≡ ok d')
        × ((id : String) → get d' id ≡ said es (node_key context_id id) (get d id))
  unfolding load_nodes get
  load_nodes-ok context_id s [] d w h = (d, refl, λ id. refl)
  load_nodes-ok context_id s ((k, v) ∷ es) d w h =
      let (n, f, e) = w k v h.0.0 h.0.1 in
      let (d', l, g) = load_nodes-ok context_id s es (insert d n.node_id n) w h.1 in
      (
        d',
        rw (load_nodes, f) l,
        λ id.
            g id
            ∙ said-cons context_id id s es v n d h.1 (sym (ap (law.view s) e) ∙ h.0.1) f
            ∙ ap (λ j. said ((j, v) ∷ es) (node_key context_id id) (get d id)) (sym e),
      )

  get_value-view :
      (s : S) (k : String)
      → (o : Option Bytes) × (b.get_value k s ≡ ok o)
      → b.get_value k s ≡ ok (law.view s k)
  get_value-view s k (o, e) = e ∙ ap ok (law.get_view s k o e)

  -- If the reads succeed, the store's version is the program's, the metadata can be read and each
  -- stored value of the context is a test under its own key, then loading the context succeeds, and
  -- the inventory has for each id the test that is stored for it, and no other test.
  pub load-stored :
      (context_id : String) (s : S) (m : InventoryMeta)
      → IsReadable b context_id s
      → IsWellStored context_id s
      → other_version (law.view s schema_key) ≡ none
      → load_meta b serde (law.view s (meta_key context_id)) ≡ ok m
      → (inv : Inventory) × (load b serde context_id s ≡ ok inv)
        × (inv.meta.hash ≡ m.hash)
        × ((id : String) → get_node inv id ≡ stored context_id s id)
  unfolding load get_node get
  load-stored context_id s m (schema, meta, (es, scan_ok)) w e f =
      let p = node_prefix context_id in
      let (d, l, g) = load_nodes-ok context_id s es [] w (law.scan_sound p s es scan_ok) in
      (
        with_nodes (record { nodes = d; meta = m }) d,
        rw
            (
              get_value-view s schema_key schema,
              load_checked,
              e,
              get_value-view s (meta_key context_id) meta,
              load_with,
              f,
              scan_ok,
              l,
            )
            refl,
        refl,
        λ id.
            g id
            ∙ ap (λ o. elim o [ some v ↦ test_of (serde.from_slice v) | none ↦ none ])
                (law.scan_complete p s es (node_key context_id id) scan_ok (has_prefix-append p id))
            ∙ same (law.view s (node_key context_id id)),
      )
    where
      same :
          (o : Option Bytes)
          → elim o [ some v ↦ test_of (serde.from_slice v) | none ↦ none ] ≡ test_in o
      same none = refl
      same (some v) = refl

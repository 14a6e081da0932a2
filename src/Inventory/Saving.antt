-- ===== src/Inventory/Saving.antt =====
-- What saving an inventory leaves in the store (crates/rpytest-core/src/inventory/store.rs).
use mathlib.Core.Path.{subst}
use rpytest.Common.{
  ◌≡◌, refl, sym, ap, ◌∙◌, String, str_eq, eq_refl, Bool, true, false, [], ◌∷◌, Option, none, some,
  Result, ok, err, if◌then◌else◌, All, inl, inr, ◌⊎◌,
}
use rpytest.Common.Dict.{Dict, get}
use rpytest.Framing.{to_le_bytes}
use rpytest.Inventory.{TestNode}
use rpytest.Inventory.Store.{Inventory, get_node, schema_version}
use rpytest.Inventory.Storage.{
  Bytes, Backend, Serde, Outcome, and_then, set_or_fail, node_prefix, node_key, meta_key,
  schema_key, save_nodes, save, load, load_meta,
}
use rpytest.Common.TextLaws.{same_text}
use rpytest.Inventory.Laws.{
  IsStore, IsFaithful, IsReadable, has_prefix-append, node_key_eq, has_prefix-meta_key,
  has_prefix-schema_key, differ_by_prefix, schema_not_meta,
}
use rpytest.Inventory.Reload.{IsWellStored, stored, test_in, load-stored, some-injective}

-- Each node stands under its own id, and no id stands twice.
abbrev pub IsKeyed : Dict TestNode → Type 0
IsKeyed [] = Unit
IsKeyed ((k, n) ∷ d) = (n.node_id ≡ k) × All (λ e. str_eq e.0 k ≡ false) d × IsKeyed d

-- The tests of an inventory, over those that were there before.
abbrev pub overlay : Option TestNode → Option TestNode → Option TestNode
overlay (some n) old = some n
overlay none old = old

module _ {S : Type 0} (b : Backend S) (serde : Serde) (law : IsStore b)
    (faith : IsFaithful serde) where
  pair_of : {s s' : S} → ◌≡◌ {A = Outcome b serde} (s, ok tt) (s', ok tt) → s ≡ s'
  pair_of e = ap (λ p. p.0) e

  none_saved :
      (context_id : String) (s s' : S) → save_nodes b serde context_id [] s ≡ (s', ok tt) → s ≡ s'
  unfolding save_nodes
  none_saved context_id s s' e = pair_of e

  and_then-succeeds :
      (p : Outcome b serde) (next : S → Outcome b serde) (s' : S)
      → and_then b serde p next ≡ (s', ok tt)
      → (p.1 ≡ ok tt) × (next p.0 ≡ (s', ok tt))
  and_then-succeeds (s, ok u) next s' e = (refl, e)
  and_then-succeeds (s, err x) next s' e = absurd (cc e)

  set_succeeds :
      (key : String) (r : Result String Bytes) (s s' : S) (next : S → Outcome b serde)
      → and_then b serde (set_or_fail b serde key r s) next ≡ (s', ok tt)
      → (v : Bytes) × (r ≡ ok v)
        × ((b.set_value key v s).1 ≡ ok tt)
        × (next (b.set_value key v s).0 ≡ (s', ok tt))
  set_succeeds key (ok v) s s' next e =
      let (o, n) = and_then-succeeds (b.set_value key v s) next s' e in (v, refl, o, n)
  set_succeeds key (err x) s s' next e = absurd (cc e)

  -- What a successful saving of a list of tests does with its first test: the store after that test
  -- differs from the one before it under the test's key only.
  first_saved :
      (context_id k : String) (n : TestNode) (nodes : Dict TestNode) (s s' : S)
      → save_nodes b serde context_id ((k, n) ∷ nodes) s ≡ (s', ok tt)
      → (v : Bytes) × (s1 : S) × (serde.to_vec n ≡ ok v)
        × ((j : String)
            → law.view s1 j ≡ (if str_eq (node_key context_id k) j then some v else law.view s j))
        × (save_nodes b serde context_id nodes s1 ≡ (s', ok tt))
  unfolding save_nodes
  first_saved context_id k n nodes s s' e =
      let key = node_key context_id k in
      let (v, t, o, rest) =
        set_succeeds key (serde.to_vec n) s s' (save_nodes b serde context_id nodes) e in
      (v, (b.set_value key v s).0, t, (λ j. law.set_view s key j v o), rest)

  get-absent :
      (nodes : Dict TestNode) (k : String)
      → All (λ e. str_eq e.0 k ≡ false) nodes
      → get nodes k ≡ none
  unfolding get
  get-absent [] k h = refl
  get-absent ((j, n) ∷ nodes) k h = rw h.0 (get-absent nodes k h.1)

  -- The value of a key after the saving: the bytes of the saved test, or the value before.
  abbrev IsSaved : Option TestNode → Option Bytes → Option Bytes → Type 0
  IsSaved none old new = new ≡ old
  IsSaved (some n) old new = (v : Bytes) × (serde.to_vec n ≡ ok v) × (new ≡ some v)

  IsSaved-cons :
      (context_id k id : String) (n : TestNode) (nodes : Dict TestNode) (s s1 : S) (v : Bytes)
      (new : Option Bytes)
      → All (λ e. str_eq e.0 k ≡ false) nodes
      → serde.to_vec n ≡ ok v
      → ((j : String)
          → law.view s1 j ≡ (if str_eq (node_key context_id k) j then some v else law.view s j))
      → IsSaved (get nodes id) (law.view s1 (node_key context_id id)) new
      → IsSaved (get ((k, n) ∷ nodes) id) (law.view s (node_key context_id id)) new
  unfolding get
  IsSaved-cons context_id k id n nodes s s1 v new absent t view h = by_id (str_eq k id) refl (
      view (node_key context_id id)
      ∙ ap (λ p. if p then some v else law.view s (node_key context_id id))
          (node_key_eq context_id k id))
    where
      by_id :
          (p : Bool)
          → str_eq k id ≡ p
          → law.view s1 (node_key context_id id)
            ≡ (if p then some v else law.view s (node_key context_id id))
          → IsSaved (if p then some n else get nodes id) (law.view s (node_key context_id id)) new
      by_id false e w = subst (λ old. IsSaved (get nodes id) old new) w h
      by_id true e w =
          let none_left =
            subst (λ i. get nodes i ≡ none) (same_text k id e) (get-absent nodes k absent) in
          let kept : new ≡ law.view s1 (node_key context_id id) =
            subst (λ o. IsSaved o (law.view s1 (node_key context_id id)) new) none_left h in
          (v, t, kept ∙ w)

  save_nodes-IsSaved :
      (context_id : String) (nodes : Dict TestNode) (s s' : S) (id : String)
      → IsKeyed nodes
      → save_nodes b serde context_id nodes s ≡ (s', ok tt)
      → IsSaved
          (get nodes id)
          (law.view s (node_key context_id id))
          (law.view s' (node_key context_id id))
  save_nodes-IsSaved context_id [] s s' id h e =
      unfold get in
      ap (λ t. law.view t (node_key context_id id)) (sym (none_saved context_id s s' e))
  save_nodes-IsSaved context_id ((k, n) ∷ nodes) s s' id h e =
      let (v, s1, t, view, rest) = first_saved context_id k n nodes s s' e in
      IsSaved-cons context_id k id n nodes s s1 v (law.view s' (node_key context_id id)) h.1 t view
        (save_nodes-IsSaved context_id nodes s1 s' id h.2 rest)

  -- A value in the store is one of the saved tests, or stood there before.
  abbrev IsNewOrOld : String → S → String → Bytes → Type 0
  IsNewOrOld context_id s k v =
      ((n : TestNode) × (k ≡ node_key context_id n.node_id) × (serde.to_vec n ≡ ok v))
      ⊎ (law.view s k ≡ some v)

  save_nodes-IsNewOrOld :
      (context_id : String) (nodes : Dict TestNode) (s s' : S) (k : String) (v : Bytes)
      → IsKeyed nodes
      → save_nodes b serde context_id nodes s ≡ (s', ok tt)
      → law.view s' k ≡ some v
      → IsNewOrOld context_id s k v
  save_nodes-IsNewOrOld context_id [] s s' k v h e w =
      inr (ap (λ t. law.view t k) (none_saved context_id s s' e) ∙ w)
  save_nodes-IsNewOrOld context_id ((j, n) ∷ nodes) s s' k v h e w =
      let (u, s1, t, view, rest) = first_saved context_id j n nodes s s' e in
      from_rest u s1 t (view k) (save_nodes-IsNewOrOld context_id nodes s1 s' k v h.2 rest w)
    where
      from_after :
          (u : Bytes) (p : Bool)
          → serde.to_vec n ≡ ok u
          → str_eq (node_key context_id j) k ≡ p
          → (if p then some u else law.view s k) ≡ some v
          → IsNewOrOld context_id s k v
      from_after u true t q g = inl (
        n,
        sym (same_text (node_key context_id j) k q) ∙ ap (node_key context_id) (sym h.0),
        t ∙ ap ok (some-injective g),
      )
      from_after u false t q g = inr g

      from_rest :
          (u : Bytes) (s1 : S)
          → serde.to_vec n ≡ ok u
          → law.view s1 k ≡ (if str_eq (node_key context_id j) k then some u else law.view s k)
          → IsNewOrOld context_id s1 k v
          → IsNewOrOld context_id s k v
      from_rest u s1 t view (inl x) = inl x
      from_rest u s1 t view (inr g) =
          from_after u (str_eq (node_key context_id j) k) t refl (sym view ∙ g)

  -- The store after a successful `save`, by the store that has the tests.
  abbrev EndsWith : Inventory → String → S → S → Type 0
  EndsWith inv context_id s1 s' =
      (law.view s' schema_key ≡ some (to_le_bytes schema_version))
      × ((v : Bytes) × (serde.meta_to_vec inv.meta ≡ ok v)
          × (law.view s' (meta_key context_id) ≡ some v))
      × ((j : String)
          → str_eq (meta_key context_id) j ≡ false
          → str_eq schema_key j ≡ false
          → law.view s' j ≡ law.view s1 j)

  save_succeeds :
      (inv : Inventory) (context_id : String) (s s' : S)
      → save b serde inv context_id s ≡ (s', ok tt)
      → (s1 : S) × (save_nodes b serde context_id inv.nodes s ≡ (s1, ok tt))
        × EndsWith inv context_id s1 s'
  unfolding save
  save_succeeds inv context_id s s' e =
      let p = save_nodes b serde context_id inv.nodes s in
      let (o1, e1) = and_then-succeeds p _ s' e in
      let (v, t, o2, e2) =
        set_succeeds (meta_key context_id) (serde.meta_to_vec inv.meta) p.0 s' _ e1 in
      let s2 = (b.set_value (meta_key context_id) v p.0).0 in
      let set = b.set_value schema_key (to_le_bytes schema_version) s2 in
      let (o3, e3) = and_then-succeeds set _ s' e2 in
      let (o4, e4) = and_then-succeeds (b.flush set.0) (λ s4. (s4, ok tt)) s' e3 in
      let last : (j : String) → law.view s' j ≡ law.view set.0 j =
        λ j. ap (λ r. law.view r j) (sym (pair_of e4)) ∙ law.flush_view set.0 j o4 in
      let third = λ (j : String). law.set_view s2 schema_key j (to_le_bytes schema_version) o3 in
      let second = λ (j : String). law.set_view p.0 (meta_key context_id) j v o2 in
      (
        p.0,
        ap (λ r. (p.0, r)) o1,
        (
          last schema_key ∙ third schema_key,
          (
            v,
            t,
            last (meta_key context_id)
                ∙ third (meta_key context_id)
                ∙ rw (schema_not_meta context_id)
                    (second (meta_key context_id) ∙ rw (eq_refl (meta_key context_id)) refl),
          ),
          λ j m k. last j ∙ third j ∙ rw k (second j ∙ rw m refl),
        ),
      )

  pub saved-IsWellStored :
      (inv : Inventory) (context_id : String) (s s' : S)
      → IsKeyed inv.nodes
      → IsWellStored b serde law context_id s
      → save b serde inv context_id s ≡ (s', ok tt)
      → IsWellStored b serde law context_id s'
  saved-IsWellStored inv context_id s s' h w done k v p e =
      let (s1, tests, (schema, meta, others)) = save_succeeds inv context_id s s' done in
      by_origin (
        save_nodes-IsNewOrOld context_id inv.nodes s s1 k v h tests (
          sym (
            others k
              (differ_by_prefix (meta_key context_id) k (node_prefix context_id)
                (has_prefix-meta_key context_id context_id) p)
              (differ_by_prefix schema_key k (node_prefix context_id)
                (has_prefix-schema_key context_id) p))
          ∙ e))
    where
      by_origin :
          IsNewOrOld context_id s k v
          → (n : TestNode) × (serde.from_slice v ≡ ok n) × (k ≡ node_key context_id n.node_id)
      by_origin (inl (n, i, t)) = (n, faith.from_slice-to_vec n v t, i)
      by_origin (inr g) = w k v p g

  saved-test :
      (o : Option TestNode) (old new : Option Bytes)
      → IsSaved o old new
      → test_in b serde law new ≡ overlay o (test_in b serde law old)
  saved-test none old new h = ap (test_in b serde law) h
  saved-test (some n) old new (v, t, e) =
      ap (test_in b serde law) e ∙ rw (faith.from_slice-to_vec n v t) refl

  -- For a store whose operations, when they succeed, do what they do on a map from keys to values, and a
  -- serialisation that is read back where it succeeds: if an inventory's tests stand under their own ids,
  -- each stored value of the context is a test under its own key, saving the inventory has succeeded,
  -- and the reads of the store after it succeed, then loading the context succeeds. What is loaded has
  -- the hash that was saved; for an id of the inventory it has the saved test, and for any other id it
  -- has what was stored before. So a test that the inventory no longer has is loaded again.
  pub load-save_overlays :
      (inv : Inventory) (context_id : String) (s s' : S)
      → IsKeyed inv.nodes
      → IsWellStored b serde law context_id s
      → save b serde inv context_id s ≡ (s', ok tt)
      → IsReadable b context_id s'
      → (inv' : Inventory) × (load b serde context_id s' ≡ ok inv')
        × (inv'.meta.hash ≡ inv.meta.hash)
        × ((id : String)
            → get_node inv' id ≡ overlay (get_node inv id) (stored b serde law context_id s id))
  unfolding get_node
  load-save_overlays inv context_id s s' h w done readable =
      let (s1, tests, (schema, (v, t, meta), others)) = save_succeeds inv context_id s s' done in
      let (inv', l, m, g) =
        load-stored b serde law context_id s' inv.meta readable
          (saved-IsWellStored inv context_id s s' h w done) (rw schema (unfold to_le_bytes in refl))
          (rw (meta, load_meta, faith.meta_from_slice-to_vec inv.meta v t) refl) in
      (
        inv',
        l,
        m,
        λ id.
            g id
            ∙ ap (test_in b serde law) (
                others (node_key context_id id)
                  (differ_by_prefix (meta_key context_id) (node_key context_id id)
                    (node_prefix context_id) (has_prefix-meta_key context_id context_id)
                    (has_prefix-append (node_prefix context_id) id))
                  (differ_by_prefix schema_key (node_key context_id id) (node_prefix context_id)
                    (has_prefix-schema_key context_id)
                    (has_prefix-append (node_prefix context_id) id)))
            ∙ saved-test (get inv.nodes id) _ _
                (save_nodes-IsSaved context_id inv.nodes s s1 id h tests),
      )

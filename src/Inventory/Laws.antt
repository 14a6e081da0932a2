-- ===== src/Inventory/Laws.antt =====
-- What the storage backend and rmp_serde promise, as crates/rpytest-core/src/inventory/store.rs
-- relies on it, and the stored tests of a context.
use Prim.Native.String.{◌++◌}
use Prim.Native.String.append
use text.Mathlib.TextLemmas.{append_cancel_left}
use rpytest.Common.TextLaws.{append_behind, same_text}
use rpytest.Common.{
  ◌≡◌, ◌≢◌, refl, ◌∙◌, String, str_eq, eq_iff, true, false, List, Option, none, some, ok,
  if◌then◌else◌, All, arith, ap, sym, Bool-cases, inl, inr,
}
use rpytest.Common.Dict.{get}
use rpytest.Common.Text.{has_prefix}
use rpytest.Inventory.{TestNode}
use rpytest.Inventory.Store.{InventoryMeta}
use rpytest.Inventory.Storage.{Bytes, Backend, Serde, node_prefix, node_key, meta_key, schema_key}

-- A store of which each operation may fail. One that succeeds does what it does on a map from keys to
-- values; a scan that succeeds gives entries of the store with the prefix, and each of them.
pub record IsStore {S : Type 0} (b : Backend S) : Type 0 where
  pub view : S → String → Option Bytes
  pub get_view : (s : S) (k : String) (o : Option Bytes) → b.get_value k s ≡ ok o → o ≡ view s k
  pub set_view :
      (s : S) (k j : String) (v : Bytes)
      → (b.set_value k v s).1 ≡ ok tt
      → view (b.set_value k v s).0 j ≡ (if str_eq k j then some v else view s j)
  pub delete_view :
      (s : S) (k j : String)
      → (b.delete k s).1 ≡ ok tt
      → view (b.delete k s).0 j ≡ (if str_eq k j then none else view s j)
  pub flush_view : (s : S) (j : String) → (b.flush s).1 ≡ ok tt → view (b.flush s).0 j ≡ view s j
  pub scan_sound :
      (p : String) (s : S) (es : List (String × Bytes))
      → b.scan_prefix p s ≡ ok es
      → All (λ e. (has_prefix e.0 p ≡ true) × (view s e.0 ≡ some e.1)) es
  pub scan_complete :
      (p : String) (s : S) (es : List (String × Bytes)) (k : String)
      → b.scan_prefix p s ≡ ok es
      → has_prefix k p ≡ true
      → get es k ≡ view s k

-- What has been written down is read back; the writing may fail.
pub record IsFaithful (serde : Serde) : Type 0 where
  pub from_slice-to_vec :
      (n : TestNode) (v : Bytes) → serde.to_vec n ≡ ok v → serde.from_slice v ≡ ok n
  pub meta_from_slice-to_vec :
      (m : InventoryMeta) (v : Bytes) → serde.meta_to_vec m ≡ ok v → serde.meta_from_slice v ≡ ok m

-- The three reads of a load succeed.
abbrev pub IsReadable : {S : Type 0} → Backend S → String → S → Type 0
IsReadable b context_id s =
    ((o : Option Bytes) × (b.get_value schema_key s ≡ ok o))
    × ((o : Option Bytes) × (b.get_value (meta_key context_id) s ≡ ok o))
    × ((es : List (String × Bytes)) × (b.scan_prefix (node_prefix context_id) s ≡ ok es))

pub has_prefix-append : (p t : String) → has_prefix (p ++ t) p ≡ true
unfolding has_prefix
has_prefix-append String.[] t = refl
has_prefix-append (String.◌∷◌ c p) t = rw (append.cons c p t, has_prefix-append p t) (ground arith)

-- The values of a store stand under their tests' ids, for one context.
pub node_key-injective :
    (context_id i j : String) → node_key context_id i ≡ node_key context_id j → i ≡ j
node_key-injective context_id i j e = append_cancel_left (node_prefix context_id) i j e

pub node_key_eq :
    (context_id i j : String) → str_eq (node_key context_id i) (node_key context_id j) ≡ str_eq i j
node_key_eq context_id i j = ground (
  arith,
  eq_iff i j,
  eq_iff (node_key context_id i) (node_key context_id j),
  node_key-injective context_id i j,
  λ (e : i ≡ j). ap (node_key context_id) e,
)

-- The keys of the metadata and of the schema are not keys of tests.
pub has_prefix-meta_key :
    (context_id other : String) → has_prefix (meta_key context_id) (node_prefix other) ≡ false
unfolding has_prefix node_prefix meta_key
has_prefix-meta_key context_id other =
    rw (append_behind "ctx:" (context_id ++ ":_meta"), append_behind "inv:" (other ++ ":")) refl

pub has_prefix-schema_key : (other : String) → has_prefix schema_key (node_prefix other) ≡ false
unfolding has_prefix node_prefix
has_prefix-schema_key other = rw (append_behind "inv:" (other ++ ":")) refl

-- Texts of which one only has a prefix differ.
pub differ_by_prefix :
    (s t p : String) → has_prefix s p ≡ false → has_prefix t p ≡ true → str_eq s t ≡ false
differ_by_prefix s t p h k = elim (Bool-cases (str_eq s t)) [
  | inl e ↦ absurd (false≢true (sym h ∙ ap (λ u. has_prefix u p) (same_text s t e) ∙ k))
  | inr e ↦ e
]
  where
    false≢true : false ≢ true
    false≢true e = cc e

pub schema_not_meta : (context_id : String) → str_eq schema_key (meta_key context_id) ≡ false
unfolding has_prefix meta_key
schema_not_meta context_id =
    differ_by_prefix schema_key (meta_key context_id) "ctx:" refl
      (has_prefix-append "ctx:" (context_id ++ ":_meta"))

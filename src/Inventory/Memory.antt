-- ===== src/Inventory/Memory.antt =====
-- A storage backend in memory and a byte format in place of sled and rmp_serde, for examples: what the
-- theorems on crates/rpytest-core/src/inventory/store.rs ask of the two can hold.
use mathlib.Core.Path.{subst}
use rpytest.Common.{
  ◌≡◌, refl, sym, ap, ◌∙◌, String, str_eq, Bool, true, false, List, [], ◌∷◌, Option, none, some,
  Result, ok, err, if◌then◌else◌, All, any, Bool-cases, inl, inr,
}
use rpytest.Common.Dict.{Dict, get, insert, remove, keys, get-insert, get-remove}
use rpytest.Common.Text.{has_prefix}
use rpytest.Inventory.Storage.{Bytes, Backend, Serde}
use rpytest.Common.TextLaws.{same_text}
use rpytest.Inventory.Laws.{IsStore, IsFaithful, IsReadable}
use rpytest.Inventory.Reload.{IsWellStored}
use rpytest.Inventory.Format.{nodes, metas}

abbrev pub read_whole : {A : Type 0} → Option (A × Bytes) → Result String A
read_whole (some (a, rest)) = ok a
read_whole none = err "unexpected end"

abbrev pub format_serde : Serde
format_serde = record {
  to_vec = λ n. ok (nodes.write n []);
  from_slice = λ bytes. read_whole (nodes.read bytes);
  meta_to_vec = λ m. ok (metas.write m []);
  meta_from_slice = λ bytes. read_whole (metas.read bytes);
}

ok-injective : {E A : Type 0} {x y : A} → ◌≡◌ {A = Result E A} (ok x) (ok y) → x ≡ y
ok-injective e = cc e

pub format_serde-IsFaithful : IsFaithful format_serde
format_serde-IsFaithful = record {
  from_slice-to_vec = λ n v e.
      ap (λ u. read_whole (nodes.read u)) (sym (ok-injective e))
      ∙ ap read_whole (nodes.read-write n []);
  meta_from_slice-to_vec = λ m v e.
      ap (λ u. read_whole (metas.read u)) (sym (ok-injective e))
      ∙ ap read_whole (metas.read-write m []);
}

-- The entries under these keys, those with the prefix only.
abbrev pub entry_if : Bool → String → Option Bytes → List (String × Bytes) → List (String × Bytes)
entry_if true k (some v) rest = (k, v) ∷ rest
entry_if true k none rest = rest
entry_if false k o rest = rest

abbrev pub scan : String → List String → Dict Bytes → List (String × Bytes)
scan p [] d = []
scan p (k ∷ ks) d = entry_if (has_prefix k p) k (get d k) (scan p ks d)

abbrev pub memory : Backend (Dict Bytes)
memory = record {
  get_value = λ k s. ok (get s k);
  set_value = λ k v s. (insert s k v, ok tt);
  delete = λ k s. (remove s k, ok tt);
  flush = λ s. (s, ok tt);
  scan_prefix = λ p s. ok (scan p (keys s) s);
  clear = λ s. ([], ok tt);
}

abbrev AreOf : String → Dict Bytes → List (String × Bytes) → Type 0
AreOf p d es = All (λ e. (has_prefix e.0 p ≡ true) × (get d e.0 ≡ some e.1)) es

entry_if-AreOf :
    (p k : String) (d : Dict Bytes) (es : List (String × Bytes)) (b : Bool) (o : Option Bytes)
    → has_prefix k p ≡ b
    → get d k ≡ o
    → AreOf p d es
    → AreOf p d (entry_if b k o es)
entry_if-AreOf p k d es true (some v) h e a = ((h, e), a)
entry_if-AreOf p k d es true none h e a = a
entry_if-AreOf p k d es false o h e a = a

scan_all : (p : String) (ks : List String) (d : Dict Bytes) → AreOf p d (scan p ks d)
scan_all p [] d = tt
scan_all p (k ∷ ks) d =
    entry_if-AreOf p k d (scan p ks d) (has_prefix k p) (get d k) refl refl (scan_all p ks d)

abbrev has_key : List String → String → Bool
has_key ks k = any (λ j. str_eq j k) ks

get-entry_if :
    (b : Bool) (j : String) (o : Option Bytes) (rest : List (String × Bytes)) (k : String)
    → str_eq j k ≡ false
    → get (entry_if b j o rest) k ≡ get rest k
unfolding get
get-entry_if true j (some v) rest k h = rw h refl
get-entry_if true j none rest k h = refl
get-entry_if false j o rest k h = refl

get-entry_found :
    (j k : String) (o : Option Bytes) (rest : List (String × Bytes))
    → str_eq j k ≡ true
    → (o ≡ none → get rest k ≡ none)
    → get (entry_if true j o rest) k ≡ o
unfolding get
get-entry_found j k (some v) rest h f = rw h refl
get-entry_found j k none rest h f = f refl

get-scan :
    (p : String) (ks : List String) (d : Dict Bytes) (k : String)
    → has_prefix k p ≡ true
    → get (scan p ks d) k ≡ (if has_key ks k then get d k else none)
get-scan p [] d k h = unfold get in refl
get-scan p (j ∷ ks) d k h = elim (Bool-cases (str_eq j k)) [
  | inl e ↦ rw e (
      subst (λ i. get (entry_if (has_prefix i p) j (get d i) (scan p ks d)) k ≡ get d k)
        (sym (same_text j k e))
        (rw h (
          get-entry_found j k (get d k) (scan p ks d) e
            (λ n. get-scan p ks d k h ∙ if_none (has_key ks k) n))))
  | inr e ↦ rw e (get-entry_if (has_prefix j p) j (get d j) (scan p ks d) k e ∙ get-scan p ks d k h)
]
  where
    if_none : (b : Bool) → get d k ≡ none → (if b then get d k else none) ≡ none
    if_none true n = n
    if_none false n = refl

get-keys : (d : Dict Bytes) (k : String) → (if has_key (keys d) k then get d k else none) ≡ get d k
unfolding get
get-keys [] k = refl
get-keys ((j, v) ∷ d) k = elim (Bool-cases (str_eq j k)) [
  | inl e ↦ rw e refl
  | inr e ↦ rw e (get-keys d k)
]

pub memory-IsStore : IsStore memory
memory-IsStore = record {
  view = λ s k. get s k;
  get_view = λ s k o e. sym (ok-injective e);
  set_view = λ s k j v e. get-insert s k j v;
  delete_view = λ s k j e. get-remove s k j;
  flush_view = λ s j e. refl;
  scan_sound = λ p s es e. subst (AreOf p s) (ok-injective e) (scan_all p (keys s) s);
  scan_complete = λ p s es k e h.
      ap (λ xs. get xs k) (sym (ok-injective e)) ∙ get-scan p (keys s) s k h ∙ get-keys s k;
}

pub memory-IsReadable : (context_id : String) (s : Dict Bytes) → IsReadable memory context_id s
memory-IsReadable context_id s = ((_, refl), (_, refl), (_, refl))

none_not_some : {A : Type 0} {a : A} → none ≡ some a → ⊥
none_not_some e = cc e

pub empty-IsWellStored :
    (context_id : String) → IsWellStored memory format_serde memory-IsStore context_id []
unfolding memory-IsStore get
empty-IsWellStored context_id k v h e = absurd (none_not_some e)

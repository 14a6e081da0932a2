-- ===== src/Flakiness/Tracker/Reload.antt =====
-- Saving and loading the records (save, load and new of crates/rpytest-daemon/src/flakiness.rs).
use mathlib.Core.List.{append_assoc, append-nil}
use rpytest.Common.{
  ◌≡◌, refl, sym, ap, ◌∙◌, inl, inr, Option-cases, String, str_eq, eq_iff, eq_refl, true, false,
  List, [], ◌∷◌, ◌++◌, Option, none, some, arith, ok,
}
use rpytest.Common.Dict.{get, insert, get-insert, values, Dict}
use rpytest.Models.{TestOutcome, FlakinessRecord}
use rpytest.Flakiness.{update_record, new_record}
use rpytest.Flakiness.Tracker.{
  FlakinessTracker, record_of, record_outcome, Files, Disk, save, load, insert_all,
}

-- Each record stands at the name of its test, and no name twice.
abbrev pub WellKeyed : Dict FlakinessRecord → Type 0
WellKeyed [] = Unit
WellKeyed ((k, r) ∷ d) = (r.node_id ≡ k) × (get d k ≡ none) × WellKeyed d

node_id-get :
    (d : Dict FlakinessRecord) (k : String) (r : FlakinessRecord)
    → WellKeyed d
    → get d k ≡ some r
    → r.node_id ≡ k
unfolding get
node_id-get [] k r w e = cc
node_id-get ((j, s) ∷ d) k r w e =
    ground (arith, eq_iff j k, node_id-get d k r w.2, ap FlakinessRecord.node_id)

insert-WellKeyed :
    (d : Dict FlakinessRecord) (k : String) (r : FlakinessRecord)
    → WellKeyed d
    → r.node_id ≡ k
    → WellKeyed (insert d k r)
unfolding insert get
insert-WellKeyed [] k r w e = (e, refl, tt)
insert-WellKeyed ((j, s) ∷ d) k r w e =
    ground (arith, eq_iff j k, eq_iff k j, insert-WellKeyed d k r w.2 e, get-insert d k j r)

node_id-record_of :
    (t : FlakinessTracker) (k : String) → WellKeyed t.records → (record_of t k).node_id ≡ k
unfolding record_of new_record
node_id-record_of t k w = elim (Option-cases (get t.records k)) [
  | inl e ↦ rw (e, record_of) refl
  | inr (r, e) ↦ rw (e, record_of) (node_id-get t.records k r w e)
]

-- Recording an outcome keeps each record at the name of its test, and no name twice.
record_outcome-WellKeyed :
    (t : FlakinessTracker) (k : String) (o : TestOutcome) (m : Option String)
    → WellKeyed t.records
    → WellKeyed (record_outcome t k o m).records
unfolding record_outcome update_record
record_outcome-WellKeyed t k o m w = insert-WellKeyed t.records k _ w (node_id-record_of t k w)

-- No name of `e` is in `d`.
abbrev Avoids : Dict FlakinessRecord → Dict FlakinessRecord → Type 0
Avoids d [] = Unit
Avoids d ((k, r) ∷ e) = (get d k ≡ none) × Avoids d e

insert_new :
    (d : Dict FlakinessRecord) (k : String) (r : FlakinessRecord)
    → get d k ≡ none
    → insert d k r ≡ d ++ (k, r) ∷ []
unfolding get insert
insert_new [] k r e = refl
insert_new ((j, s) ∷ d) k r e = ground (arith, insert_new d k r)

get_after :
    (d : Dict FlakinessRecord) (k j : String) (r : FlakinessRecord)
    → get d j ≡ none
    → str_eq k j ≡ false
    → get (d ++ (k, r) ∷ []) j ≡ none
unfolding get
get_after [] k j r e f = ground arith
get_after ((i, s) ∷ d) k j r e f = ground (arith, get_after d k j r)

Avoids-snoc :
    (d e : Dict FlakinessRecord) (k : String) (r : FlakinessRecord)
    → get e k ≡ none
    → Avoids d e
    → Avoids (d ++ (k, r) ∷ []) e
unfolding get
Avoids-snoc d [] k r f a = tt
Avoids-snoc d ((j, s) ∷ e) k r f a =
    ground (arith, eq_iff j k, eq_iff k j, get_after d k j r a.0, Avoids-snoc d e k r)

insert_all-values :
    (d e : Dict FlakinessRecord) → WellKeyed e → Avoids d e → insert_all d (values e) ≡ d ++ e
unfolding insert_all
insert_all-values d [] w a = sym (append-nil d)
insert_all-values d ((k, r) ∷ e) w a =
    ap (λ d'. insert_all d' (values e)) (ap (λ j. insert d j r) w.0 ∙ insert_new d k r a.0)
    ∙ insert_all-values (d ++ (k, r) ∷ []) e w.2 (Avoids-snoc d e k r w.1 a.1)
    ∙ append_assoc d ((k, r) ∷ []) e

Avoids-nil : (e : Dict FlakinessRecord) → Avoids [] e
unfolding get
Avoids-nil [] = tt
Avoids-nil ((k, r) ∷ e) = (refl, Avoids-nil e)

-- If the JSON of a list of records reads back as that list, then a tracker that loads the file a
-- successful save has written has exactly the records that were saved.
pub load-save :
    (fs : Files) (t u : FlakinessTracker) (path : String) (disk disk' : Disk)
    → ((rs : List FlakinessRecord) (text : String)
        → fs.to_string_pretty rs ≡ some text
        → fs.from_str text ≡ some rs)
    → fs.can_read path ≡ true
    → WellKeyed t.records
    → t.storage_path ≡ some path
    → u.storage_path ≡ some path
    → save fs t disk ≡ ok disk'
    → load fs u disk' ≡ ok (record u { records = t.records })
load-save fs t u path disk disk' law readable w tp up e =
    elim (Option-cases (fs.to_string_pretty (values t.records))) [
      | inl none_text ↦ unfold save in ground (arith)
      | inr (text, got) ↦
          let back = law (values t.records) text got in
          let written : disk' path ≡ some text = unfold save in ground (arith, eq_refl path) in
          let all = insert_all-values [] t.records w (Avoids-nil t.records) in
          unfold load in ground (arith)
    ]

-- ===== src/Flakiness/Tracker.antt =====
-- `FlakinessTracker` of crates/rpytest-daemon/src/flakiness.rs. The file system and serde_json are
-- not of this repository: they are the parameter `Files`. A disk is what stands at each path.
pub mod Lookup
pub mod Reload
use rpytest.Common.{
  ℕ, ◌+◌, ◌≤◌, ◌≡◌, String, str_eq, Bool, true, false, not, ◌||◌, ◌&&◌, List, [], ◌∷◌, Option, none,
  some, if◌then◌else◌, leb, ltb, length, any, filter, Result, ok, err,
}
use rpytest.Common.Dict
use rpytest.Common.Dict.{Dict, values}
use rpytest.Models.{TestOutcome, FlakinessRecord, StabilityState, unknown, is_flaky}
use rpytest.Flakiness.{update_record, new_record, is_fail_str}

pub record FlakinessTracker : Type 0 where
  pub records : Dict FlakinessRecord
  pub max_outcomes : ℕ
  pub storage_path : Option String
  pub dirty : Bool

-- The call of `record_outcome` on the record of one test; `or_insert_with` gives a fresh one.
unfoldable pub record_of : FlakinessTracker → String → FlakinessRecord
record_of t node_id = elim (Dict.get t.records node_id) [ none ↦ new_record node_id | some r ↦ r ]

unfoldable pub record_outcome :
    FlakinessTracker → String → TestOutcome → Option String → FlakinessTracker
record_outcome t node_id outcome message = record t {
  records =
      Dict.insert t.records node_id
        (update_record t.max_outcomes (record_of t node_id) outcome message);
  dirty = true;
}

unfoldable pub get_record : FlakinessTracker → String → Option FlakinessRecord
get_record t node_id = Dict.get t.records node_id

unfoldable pub is_flaky_test : FlakinessTracker → String → Bool
is_flaky_test t node_id = elim (Dict.get t.records node_id) [
  | none ↦ false
  | some r ↦ is_flaky r.stability
]

unfoldable pub stability_state : FlakinessTracker → String → StabilityState
stability_state t node_id = elim (Dict.get t.records node_id) [
  | none ↦ unknown
  | some r ↦ r.stability
]

abbrev has_fail : FlakinessRecord → Bool
has_fail r = any is_fail_str r.outcomes

-- The older heuristic.
unfoldable pub check_is_flaky : FlakinessRecord → Bool
check_is_flaky r =
    if ltb (length r.outcomes) 3
    then false
    else any (λ o. str_eq o "passed") r.outcomes && (has_fail r && leb 2 r.flaky_streak)

-- A quotient of two counts, as the `f64` division takes it: (failures, outcomes). Where the code
-- returns 0.0 without a division this is (0, 1).
abbrev failure_rate_of : FlakinessRecord → ℕ × ℕ
failure_rate_of r = elim r.outcomes [
  | [] ↦ (0, 1)
  | _ ↦ (length (filter is_fail_str r.outcomes), length r.outcomes)
]

unfoldable pub get_failure_rate : FlakinessTracker → String → ℕ × ℕ
get_failure_rate t node_id = elim (Dict.get t.records node_id) [
  | none ↦ (0, 1)
  | some r ↦ failure_rate_of r
]

abbrev is_unstable_record : FlakinessRecord → Bool
is_unstable_record r = has_fail r && not (is_flaky r.stability)

abbrev is_stable_record : FlakinessRecord → Bool
is_stable_record r = not (is_flaky r.stability) && not (has_fail r)

unfoldable pub get_flaky_tests : FlakinessTracker → List FlakinessRecord
get_flaky_tests t = filter (λ r. is_flaky r.stability) (values t.records)

unfoldable pub get_unstable_tests : FlakinessTracker → List FlakinessRecord
get_unstable_tests t = filter is_unstable_record (values t.records)

unfoldable pub stable_count : FlakinessTracker → ℕ
stable_count t = length (filter is_stable_record (values t.records))

unfoldable pub total_tracked : FlakinessTracker → ℕ
total_tracked t = length t.records

abbrev is_dirty : FlakinessTracker → Bool
is_dirty t = t.dirty

-- What stands on disk at a path, if anything does.
abbrev pub Disk : Type 0
Disk = String → Option String

abbrev pub write : String → Option String → Disk → Disk
write path content disk p = if str_eq path p then content else disk p

pub data DaemonError : Type 0 where
  io json : DaemonError

-- `can_create` and `can_write` say whether `create_dir_all` of the parent and `write` succeed, and
-- `can_read` whether an existing file reads as text.
pub record Files : Type 0 where
  pub to_string_pretty : List FlakinessRecord → Option String
  pub from_str : String → Option (List FlakinessRecord)
  pub can_create : String → Bool
  pub can_write : String → Bool
  pub can_read : String → Bool

-- `for record in data { self.records.insert(record.node_id.clone(), record); }`
unfoldable pub insert_all : Dict FlakinessRecord → List FlakinessRecord → Dict FlakinessRecord
insert_all d [] = d
insert_all d (r ∷ rs) = insert_all (Dict.insert d r.node_id r) rs

module _ (fs : Files) where
  open fs use {to_string_pretty, from_str, can_create, can_write, can_read}

  abbrev save_json : String → Option String → Disk → Result DaemonError Disk
  save_json path none disk = err json
  save_json path (some text) disk =
      if can_write path then ok (write path (some text) disk) else err io

  unfoldable pub save : FlakinessTracker → Disk → Result DaemonError Disk
  save t disk = elim t.storage_path [
    | none ↦ ok disk
    | some path ↦
        if can_create path
        then save_json path (to_string_pretty (values t.records)) disk
        else err io
  ]

  abbrev flushed :
      FlakinessTracker → Result DaemonError Disk → Result DaemonError (FlakinessTracker × Disk)
  flushed t (ok disk) = ok (record t { dirty = false }, disk)
  flushed t (err e) = err e

  unfoldable pub flush_if_dirty :
      FlakinessTracker → Disk → Result DaemonError (FlakinessTracker × Disk)
  unfolding save
  flush_if_dirty t disk = if t.dirty then flushed t (save t disk) else ok (t, disk)

  abbrev load_json :
      FlakinessTracker → Option (List FlakinessRecord) → Result DaemonError FlakinessTracker
  load_json t none = err json
  load_json t (some rs) = ok (record t { records = insert_all [] rs })

  abbrev load_content :
      FlakinessTracker → String → Option String → Result DaemonError FlakinessTracker
  load_content t path none = ok t
  load_content t path (some text) = if can_read path then load_json t (from_str text) else err io

  unfoldable pub load : FlakinessTracker → Disk → Result DaemonError FlakinessTracker
  load t disk = elim t.storage_path [ none ↦ ok t | some path ↦ load_content t path (disk path) ]

  -- An error of `load` is dropped: the tracker stays empty.
  abbrev loaded_or : FlakinessTracker → Result DaemonError FlakinessTracker → FlakinessTracker
  loaded_or t (ok u) = u
  loaded_or t (err e) = t

  -- `FlakinessTracker::new`
  unfoldable pub new : Option String → Disk → FlakinessTracker
  unfolding load
  new storage_path disk =
      let t : FlakinessTracker = record {
        records = [];
        max_outcomes = 20;
        storage_path = storage_path;
        dirty = false;
      } in
      loaded_or t (load t disk)

  -- `clear`: the file goes too; a failure to remove it is ignored.
  unfoldable pub clear : Bool → FlakinessTracker → Disk → FlakinessTracker × Disk
  clear removed t disk = (
    record t { records = [] },
    elim t.storage_path [
      | none ↦ disk
      | some path ↦ if removed then write path none disk else disk
    ],
  )

-- ===== src/Flakiness/Tracker/Lookup.antt =====
-- What one call changes in the tracker, and how its three reports divide the tests
-- (crates/rpytest-daemon/src/flakiness.rs).
use rpytest.Common.{
  suc, ◌+◌, ◌≡◌, refl, ap, ◌∙◌, String, str_eq, true, List, [], ◌∷◌, Option, some, if◌then◌else◌,
  arith, length, filter,
}
use rpytest.Common.Dict.{get-insert, values, Dict}
use rpytest.Models.{TestOutcome, FlakinessRecord, is_flaky}
use rpytest.Flakiness.{update_record}
use rpytest.Flakiness.Tracker.{
  FlakinessTracker, record_of, record_outcome, get_record, get_flaky_tests, get_unstable_tests,
  stable_count, total_tracked, is_unstable_record, is_stable_record,
}

-- Recording an outcome updates the record of its test, makes one where there was none, marks the
-- tracker dirty, and leaves the records of all other tests alone.
get_record-record_outcome :
    (t : FlakinessTracker) (k j : String) (o : TestOutcome) (m : Option String)
    → (get_record (record_outcome t k o m) j ≡ (
        if str_eq k j
        then some (update_record t.max_outcomes (record_of t k) o m)
        else get_record t j))
      × ((record_outcome t k o m).dirty ≡ true)
unfolding get_record record_outcome
get_record-record_outcome t k j o m = (get-insert t.records k j _, refl)

length-values {ℓ} : {V : Type ℓ} (d : Dict V) → length (values d) ≡ length d
length-values [] = refl
length-values ((k, v) ∷ d) = ap suc (length-values d)

reports_divide :
    (rs : List FlakinessRecord)
    → length (filter (λ r. is_flaky r.stability) rs)
        + length (filter is_unstable_record rs)
        + length (filter is_stable_record rs)
      ≡ length rs
reports_divide [] = omega arith
reports_divide (r ∷ rs) = ground (arith, reports_divide rs)

-- Each tracked test is in exactly one of the reports: flaky, unstable or stable. The three counts
-- add up to the number of tracked tests.
reports-total_tracked :
    (t : FlakinessTracker)
    → length (get_flaky_tests t) + length (get_unstable_tests t) + stable_count t ≡ total_tracked t
unfolding get_flaky_tests get_unstable_tests stable_count total_tracked
reports-total_tracked t = reports_divide (values t.records) ∙ length-values t.records

-- ===== src/Verify/Verdict.antt =====
-- The verdict of verify_dropin (crates/rpytest/src/verify/dropin.rs), by the numbers of the two runs.
use rpytest.Common.{
  ℕ, ◌≡◌, ◌↔◌, refl, ap, ◌∙◌, String, Bool, true, false, not, ◌&&◌, ◌==◌, List, [], ◌∷◌, ◌++◌,
  arith, Bool-cases, inl, inr, str_eq,
}
use rpytest.Common.Text.{decimal}
use rpytest.Verify.{
  DiffKind, OutputDiff, is_critical, exit_code, test_count, passed_count, failed_count,
  skipped_count,
}
use rpytest.Verify.Compare.{
  RunResult, Output, Externals, normalize_output, number_diff, counts_match, test_diffs,
  strict_diff, missing_diff, extra_diff, difference, compare_results, no_critical, verify_dropin,
  extract_test_node_ids, run_pytest, run_rpytest, show_i32,
}

no_critical-append :
    (xs ys : List OutputDiff) → no_critical (xs ++ ys) ≡ (no_critical xs && no_critical ys)
unfolding no_critical
no_critical-append [] ys = ground arith
no_critical-append (d ∷ xs) ys = ground (arith, no_critical-append xs ys)

no_critical-number_diff :
    (kind : DiffKind) (show : ℕ → String) (context : String) (a b : ℕ)
    → is_critical kind ≡ true
    → no_critical (number_diff kind show context a b) ≡ (a == b)
unfolding no_critical
no_critical-number_diff kind show context a b h = ground (arith, h)

no_critical-strict_diff :
    (ex : Externals) (strict : Bool) (p r : String) → no_critical (strict_diff ex strict p r) ≡ true
unfolding no_critical is_critical
no_critical-strict_diff ex strict p r =
    elim (Bool-cases (strict && not (str_eq (normalize_output ex p) (normalize_output ex r)))) [
      | inl e ↦ rw e refl
      | inr e ↦ rw e refl
    ]

missing_diff-match : (ex : Externals) (only : List String) → missing_diff ex only true ≡ []
missing_diff-match ex [] = refl
missing_diff-match ex (id ∷ only) = refl

extra_diff-match : (ex : Externals) (only : List String) → extra_diff ex only true ≡ []
extra_diff-match ex [] = refl
extra_diff-match ex (id ∷ only) = refl

test_diffs-match : (ex : Externals) (ps rs : List String) → test_diffs ex ps rs true ≡ []
test_diffs-match ex [] rs = refl
test_diffs-match ex (id ∷ ps) [] = refl
test_diffs-match ex (id ∷ ps) (id' ∷ rs) =
    rw (missing_diff-match ex (difference (id ∷ ps) (id' ∷ rs)))
      (extra_diff-match ex (difference (id' ∷ rs) (id ∷ ps)))

-- The tests' ids matter only where the counts differ already.
no_critical-test_diffs :
    (ex : Externals) (ps rs : List String) (match : Bool)
    → (match && no_critical (test_diffs ex ps rs match)) ≡ match
unfolding no_critical
no_critical-test_diffs ex ps rs false = refl
no_critical-test_diffs ex ps rs true = ap no_critical (test_diffs-match ex ps rs)

abbrev pub RunsAgree : RunResult → RunResult → Type 0
RunsAgree p r =
    (p.exit_code ≡ r.exit_code)
    × (p.counts.collected ≡ r.counts.collected)
    × (p.counts.passed ≡ r.counts.passed)
    × (p.counts.failed ≡ r.counts.failed)
    × (p.counts.skipped ≡ r.counts.skipped)

abbrev runs_agree : RunResult → RunResult → Bool
runs_agree p r = (p.exit_code == r.exit_code) && counts_match p.counts r.counts

first :
    (kind : DiffKind) (show : ℕ → String) (context : String) (a b : ℕ)
    → is_critical kind ≡ true
    → (rest : List OutputDiff)
    → no_critical (number_diff kind show context a b ++ rest) ≡ ((a == b) && no_critical rest)
first kind show context a b h rest =
    no_critical-append (number_diff kind show context a b) rest
    ∙ rw (no_critical-number_diff kind show context a b h) refl

all_and :
    (e c p f k t : Bool)
    → ((c && (p && (f && k))) && t) ≡ (c && (p && (f && k)))
    → (e && (c && (p && (f && (k && (t && true)))))) ≡ (e && (c && (p && (f && k))))
all_and e c p f k t h = ground (arith, h)

no_critical-compare_results :
    (ex : Externals) (strict : Bool) (p r : RunResult)
    → no_critical (compare_results ex strict p r) ≡ runs_agree p r
unfolding compare_results is_critical
no_critical-compare_results ex strict p r =
    let others = strict_diff ex strict p.stdout r.stdout in
    let tests =
      test_diffs ex (extract_test_node_ids p.stdout) (extract_test_node_ids r.stdout)
        (counts_match p.counts r.counts) in
    rw
      (
        first exit_code show_i32 "Exit code mismatch" p.exit_code r.exit_code refl,
        first test_count decimal "Collection count mismatch" p.counts.collected r.counts.collected
            refl,
        first passed_count decimal "Passed count mismatch" p.counts.passed r.counts.passed refl,
        first failed_count decimal "Failed count mismatch" p.counts.failed r.counts.failed refl,
        first skipped_count decimal "Skipped count mismatch" p.counts.skipped r.counts.skipped refl,
        no_critical-append tests others,
        no_critical-strict_diff ex strict p.stdout r.stdout,
      )
      (all_and (p.exit_code == r.exit_code) (p.counts.collected == r.counts.collected)
        (p.counts.passed == r.counts.passed) (p.counts.failed == r.counts.failed)
        (p.counts.skipped == r.counts.skipped) (no_critical tests)
        (no_critical-test_diffs ex (extract_test_node_ids p.stdout) (extract_test_node_ids r.stdout)
          (counts_match p.counts r.counts)))

runs_agree-RunsAgree : (p r : RunResult) → (runs_agree p r ≡ true) ↔ RunsAgree p r
runs_agree-RunsAgree p r = ground arith

-- The verdict is that the verification passed just if the two runs have the same exit code and the
-- same numbers of tests collected, passed, failed and skipped, as read from their outputs. The numbers
-- of errors, the names of the tests and the strict comparison of the outputs do not change it.
pub verify_dropin_passes :
    (ex : Externals) (strict : Bool) (a b : Output)
    → ((verify_dropin ex strict a b).passed ≡ true) ↔ RunsAgree (run_pytest a) (run_rpytest b)
unfolding verify_dropin
verify_dropin_passes ex strict a b =
    let p = run_pytest a in
    let r = run_rpytest b in
    rw (no_critical-compare_results ex strict p r) (runs_agree-RunsAgree p r)

-- ===== src/Context/Summary.antt =====
-- The summary of a run (run_tests of crates/rpytest-daemon/src/context.rs).
use rpytest.Common.{
  ℕ, ◌+◌, ◌≡◌, refl, String, List, [], ◌∷◌, length, Option, ok, arith, Bool-cases, inl, inr, sum_of,
}
use rpytest.Common.Dict.{Dict, get}
use rpytest.Models.{TestOutcome, passed, failed, skipped, error, xfail, xpass, TestResult}
use rpytest.Flakiness.Tracker.{FlakinessTracker}
use rpytest.Context.{
  TestNodeInternal, RepoContext, is_skipped, split_skipped, Counts, count_outcome, process_result,
  process_all, RunSummary, RunEnv, configured, prepared, save_state, summary_of, or_summary,
  no_counts, run_tests,
}

length-split_skipped :
    (inventory : Dict TestNodeInternal) (ids : List String)
    → length (split_skipped inventory ids).0 + (split_skipped inventory ids).1 ≡ length ids
unfolding split_skipped
length-split_skipped inventory [] = refl
length-split_skipped inventory (k ∷ ids) = elim (Bool-cases (is_skipped (get inventory k))) [
  | inl e ↦ rw e (omega (arith, length-split_skipped inventory ids))
  | inr e ↦ rw e (omega (arith, length-split_skipped inventory ids))
]

-- 1 for an expected failure or an unexpected pass, which the summary does not count.
abbrev pub uncounted : TestResult → ℕ
uncounted r = elim r.outcome [ xfail ↦ 1 | xpass ↦ 1 | _ ↦ 0 ]

abbrev counted : Counts → ℕ
counted n = n.passed + n.failed + n.skipped + n.errors

counted-count_outcome :
    (r : TestResult) (n : Counts)
    → counted (count_outcome r.outcome n) + uncounted r ≡ counted n + 1
unfolding count_outcome
counted-count_outcome r n = by_outcome r.outcome
  where
    by_outcome :
        (o : TestOutcome)
        → counted (count_outcome o n) + elim o [ xfail ↦ 1 | xpass ↦ 1 | _ ↦ 0 ] ≡ counted n + 1
    by_outcome passed = omega arith
    by_outcome failed = omega arith
    by_outcome skipped = omega arith
    by_outcome error = omega arith
    by_outcome xfail = omega arith
    by_outcome xpass = omega arith

counted-process_all :
    (rs : List TestResult) (c : RepoContext) (n : Counts)
    → counted (process_all c n rs).1 + sum_of uncounted rs ≡ counted n + length rs
unfolding process_all
counted-process_all [] c n = omega arith
counted-process_all (r ∷ rs) c n = omega (
  arith,
  counted-process_all rs (process_result c r) (count_outcome r.outcome n),
  counted-count_outcome r n,
)

-- The results that the executor gives for the tests that a run does not skip.
abbrev pub results_of : RunEnv → List String → Option ℕ → Option ℕ → RepoContext → List TestResult
results_of env node_ids workers maxfail c =
    env.run (configured env workers maxfail c).executor_config
      (split_skipped c.inventory node_ids).0

save_state-ok :
    (env : RunEnv) (c : RepoContext) (s : RunSummary)
    → ((t : FlakinessTracker) → (t' : FlakinessTracker) × (env.flush t ≡ ok t'))
    → ((d : Dict (List ℕ)) → env.save_durations d ≡ ok tt)
    → (or_summary s (save_state env c)).1 ≡ ok s
unfolding save_state
save_state-ok env c s f d = elim (Bool-cases c.has_storage) [
  | inl e ↦ let (t, g) = f c.flakiness_tracker in rw (e, g, d c.duration_history) refl
  | inr e ↦ rw e refl
]

-- If the executor gives as many results as it gets tests and the state can be saved, a run ends with a
-- summary whose total is the number of the tests that were asked for, and whose counts of passed, failed
-- and skipped tests and of errors add up to the total less the expected failures and unexpected passes.
pub run_tests_adds_up :
    (env : RunEnv) (node_ids : List String) (workers maxfail : Option ℕ) (c : RepoContext)
    → length (results_of env node_ids workers maxfail c)
      ≡ length (split_skipped c.inventory node_ids).0
    → ((t : FlakinessTracker) → (t' : FlakinessTracker) × (env.flush t ≡ ok t'))
    → ((d : Dict (List ℕ)) → env.save_durations d ≡ ok tt)
    → (s : RunSummary) × ((run_tests env node_ids workers maxfail c).1 ≡ ok s)
      × (s.total ≡ length node_ids)
      × (s.passed
            + s.failed
            + s.skipped
            + s.errors
            + sum_of uncounted (results_of env node_ids workers maxfail c)
          ≡ s.total)
unfolding run_tests prepared
run_tests_adds_up env node_ids workers maxfail c h f d =
    let results = results_of env node_ids workers maxfail c in
    let split = split_skipped c.inventory node_ids in
    let processed = process_all (prepared env workers maxfail c) no_counts results in
    (
      summary_of (length results) split.1 env.elapsed_ms processed.1,
      save_state-ok env processed.0 _ f d,
      omega (arith, h, length-split_skipped c.inventory node_ids),
      omega (arith, counted-process_all results (prepared env workers maxfail c) no_counts),
    )

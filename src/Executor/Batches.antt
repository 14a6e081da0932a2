-- ===== src/Executor/Batches.antt =====
-- The results of PythonExecutor::run_tests (crates/rpytest-daemon/src/executor.rs) against the tests
-- it was asked for, in the sequential and the parallel branch.
use mathlib.Core.List.{flatten, map-append, append_assoc, append-nil}
use rpytest.Common.{
  ℕ, ◌+◌, ◌≡◌, refl, ap, ◌∙◌, sym, String, List, [], ◌∷◌, ◌++◌, map, Option, some, length, ltb,
  ◌&&◌, ◌==◌, ◌<◌, arith, Bool-cases, inl, inr,
}
use rpytest.Common.Dict.{Dict}
use rpytest.Common.Text.{lines}
use rpytest.Models.{TestOutcome, TestResult}
use rpytest.Executor.Parse.{parse_batch_output, Summary, line_outcomes, summary_of, result_for}
use rpytest.Executor.{
  ExecutorConfig, World, run_pytest, pytest_args, run_batch, spawned, collect, run_sequential,
  run_batches, run_tests, or_one,
}
use rpytest.Executor.Chunks.{chunks, chunks-shape}

abbrev pub names : List TestResult → List String
names rs = map (λ (r : TestResult). r.node_id) rs

names-result_for :
    (d : Dict TestOutcome) (s : Summary) (ids : List String)
    → names (map (result_for d s) ids) ≡ ids
names-result_for d s [] = refl
names-result_for d s (k ∷ ids) = ap (◌∷◌ k) (names-result_for d s ids)

module _ (world : World) (config : ExecutorConfig) where
  names-run_batch :
      (i : ℕ) (node_ids : List String) → names (run_batch world config i node_ids) ≡ node_ids
  unfolding run_batch parse_batch_output
  names-run_batch i node_ids =
      let output = run_pytest world config i node_ids in
      names-result_for (line_outcomes (lines output) []) (summary_of output) node_ids

  run_sequential-spawned :
      (i : ℕ) (batches : List (List String)) (results : List TestResult)
      → run_sequential world config i batches results
        ≡ results ++ collect (spawned world config i batches)
  run_sequential-spawned i [] results = sym (append-nil results)
  run_sequential-spawned i (b ∷ bs) results =
      run_sequential-spawned (i + 1) bs (results ++ run_batch world config i b)
      ∙ append_assoc results _ _

  -- The sequential and the parallel branch give the same results.
  run_batches-collect :
      (batches : List (List String))
      → run_batches world config batches ≡ collect (spawned world config 0 batches)
  run_batches-collect batches =
      elim (Bool-cases (ltb 1 (or_one config.workers) && ltb 1 (length batches))) [
        | inl e ↦ rw e refl
        | inr e ↦ rw e (run_sequential-spawned 0 batches [])
      ]

  names-collect :
      (i : ℕ) (batches : List (List String))
      → names (collect (spawned world config i batches)) ≡ flatten batches
  unfolding flatten
  names-collect i [] = refl
  names-collect i (b ∷ bs) =
      map-append (λ (r : TestResult). r.node_id) (run_batch world config i b) _
      ∙ rw (names-run_batch i b, names-collect (i + 1) bs) refl

  -- If the batch size is not 0, a run of any tests ends without a panic, with one result for each
  -- test, in the order of the tests, whatever pytest prints and whichever branch runs the batches.
  pub run_tests-names :
      (node_ids : List String)
      → 0 < config.batch_size
      → (results : List TestResult) × (run_tests world config node_ids ≡ some results)
        × (names results ≡ node_ids)
  unfolding run_tests
  run_tests-names [] h = ([], refl, refl)
  run_tests-names (k ∷ ids) h = elim (Bool-cases (config.batch_size == 0)) [
    | inl e ↦ absurd (ground arith)
    | inr e ↦
        let batches = chunks config.batch_size (k ∷ ids) in
        (
          run_batches world config batches,
          rw e refl,
          rw run_batches-collect
              (names-collect 0 batches ∙ (chunks-shape config.batch_size (k ∷ ids) h).0),
        )
  ]

-- The configuration with another number of workers.
abbrev pub with_workers : ExecutorConfig → Option ℕ → ExecutorConfig
with_workers config n = record {
  workers = n;
  maxfail = config.maxfail;
  batch_size = config.batch_size;
  test_timeout_secs = config.test_timeout_secs;
  extra_args = config.extra_args;
}

spawned-with_workers :
    (world : World) (config : ExecutorConfig) (n : Option ℕ) (i : ℕ) (batches : List (List String))
    → spawned world (with_workers config n) i batches ≡ spawned world config i batches
unfolding run_batch run_pytest pytest_args
spawned-with_workers world config n i [] = refl
spawned-with_workers world config n i (b ∷ bs) =
    ap (◌∷◌ (run_batch world config i b)) (spawned-with_workers world config n (i + 1) bs)

run_batches-with_workers :
    (world : World) (config : ExecutorConfig) (n : Option ℕ) (batches : List (List String))
    → run_batches world (with_workers config n) batches ≡ run_batches world config batches
run_batches-with_workers world config n batches =
    run_batches-collect world (with_workers config n) batches
    ∙ ap collect (spawned-with_workers world config n 0 batches)
    ∙ sym (run_batches-collect world config batches)

-- The number of workers, and so the choice between the sequential and the parallel branch, does not
-- change what a run gives, if the process of each batch does the same in both.
pub run_tests-with_workers :
    (world : World) (config : ExecutorConfig) (n : Option ℕ) (node_ids : List String)
    → run_tests world (with_workers config n) node_ids ≡ run_tests world config node_ids
unfolding run_tests
run_tests-with_workers world config n [] = refl
run_tests-with_workers world config n (k ∷ ids) = elim (Bool-cases (config.batch_size == 0)) [
  | inl e ↦ rw e refl
  | inr e ↦
      rw e (ap some (run_batches-with_workers world config n (chunks config.batch_size (k ∷ ids))))
]

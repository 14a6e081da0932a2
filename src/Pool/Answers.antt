-- ===== src/Pool/Answers.antt =====
-- The results of one batch (crates/rpytest-daemon/src/pool.rs): what they can come from, whatever a
-- worker replies.
use mathlib.Core.Path.{subst}
use rpytest.Common.{
  ℕ, ◌≡◌, refl, ap, String, str_eq, false, Option, none, some, List, [], ◌∷◌, map, Result, ok, err,
  Bool-cases, inl, inr, ◌⊎◌,
}
use rpytest.Models.{TestResult}
use rpytest.Pool.{
  Stage, test_run, invalid_response, WorkerResponse, WorkerError, Externals, Reply, late, broken,
  line, is_ready, into_test_result,
}
use rpytest.Pool.Worker.{
  Worker, spawn, RunEnv, run_tests, execute_tests, read_response, results_of, flushed, written,
  sent,
}
use rpytest.Pool.Workers.{BatchEnv, acquire, or_errors, error_result}
use rpytest.Pool.Schedules.{
  Task, queued, spawns_one, holds, ran, returned, done, advance, acquired, with_spare,
}

-- A reply, of those that are offered, that is a response other than an error.
abbrev pub Gave : Externals → (Reply → Type 0) → WorkerResponse → Type 0
Gave ex Offered response =
    (text : String) × Offered (line text)
    × (ex.from_str text ≡ ok response)
    × (str_eq response.status "error" ≡ false)

-- The results of a batch are one error for each of its tests, with one message for all, or just what
-- an offered reply of a worker says.
abbrev pub ComeFrom : Externals → (Reply → Type 0) → List String → List TestResult → Type 0
ComeFrom ex Offered tests rs =
    ((message : String) × (rs ≡ map (error_result message) tests))
    ⊎ ((response : WorkerResponse) × Gave ex Offered response
        × (rs ≡ map (into_test_result ex) response.results))

module _ (ex : Externals) (Offered : Reply → Type 0) where
  -- These results, if there are any, are what a reply says.
  abbrev AreGiven : Result WorkerError (List TestResult) → Type 0
  AreGiven (ok rs) =
      (response : WorkerResponse) × Gave ex Offered response
      × (rs ≡ map (into_test_result ex) response.results)
  AreGiven (err e) = Unit

  abbrev parsed :
      Stage → ℕ → String → Result String WorkerResponse → Result WorkerError WorkerResponse
  parsed stage id text (ok response) = ok response
  parsed stage id text (err e) = err (invalid_response stage id e text)

  parsed-AreGiven :
      (id : ℕ) (text : String) (r : Result String WorkerResponse)
      → Offered (line text)
      → ex.from_str text ≡ r
      → AreGiven (results_of ex id (parsed test_run id text r))
  parsed-AreGiven id text (ok response) o h = elim (Bool-cases (str_eq response.status "error")) [
    | inl e ↦ rw e tt
    | inr e ↦ rw e (response, (text, o, h, e), refl)
  ]
  parsed-AreGiven id text (err e) o h = tt

  results_of-AreGiven :
      (id : ℕ) (reply : Reply)
      → Offered reply
      → AreGiven (results_of ex id (read_response ex test_run id reply))
  unfolding read_response
  results_of-AreGiven id late o = tt
  results_of-AreGiven id (broken e) o = tt
  results_of-AreGiven id (line text) o = parsed-AreGiven id text (ex.from_str text) o refl

  flushed-AreGiven :
      (env : RunEnv) (id : ℕ) (r : Result String (Unit {0}))
      → Offered env.reply
      → AreGiven (flushed ex env id r)
  flushed-AreGiven env id (ok u) o = results_of-AreGiven id env.reply o
  flushed-AreGiven env id (err e) o = tt

  written-AreGiven :
      (env : RunEnv) (id : ℕ) (r : Result String (Unit {0}))
      → Offered env.reply
      → AreGiven (written ex env id r)
  written-AreGiven env id (ok u) o = flushed-AreGiven env id env.flush o
  written-AreGiven env id (err e) o = tt

  sent-AreGiven :
      (env : RunEnv) (id : ℕ) (r : Result String String)
      → Offered env.reply
      → AreGiven (sent ex env id r)
  sent-AreGiven env id (ok text) o = written-AreGiven env id env.write_all o
  sent-AreGiven env id (err e) o = tt

  or_errors-ComeFrom :
      (tests : List String) (r : Result WorkerError (List TestResult))
      → AreGiven r
      → ComeFrom ex Offered tests (or_errors ex tests r)
  or_errors-ComeFrom tests (ok rs) h = inr h
  or_errors-ComeFrom tests (err e) h = inl (_, refl)

  run_tests-ComeFrom :
      (env : RunEnv) (w : Worker) (tests : List String)
      → Offered env.reply
      → ComeFrom ex Offered tests (or_errors ex tests (run_tests ex env w).1)
  unfolding run_tests execute_tests
  run_tests-ComeFrom env w tests o = elim (Bool-cases (is_ready w.state)) [
    | inl e ↦ rw e (
        or_errors-ComeFrom tests (execute_tests ex env w.id)
          (sent-AreGiven env w.id env.to_string o))
    | inr e ↦ rw e (inl (_, refl))
  ]

  -- A task has these tests still to run, or results that come from them.
  abbrev pub IsFor : List String → Task → Type 0
  IsFor tests (queued ts) = ts ≡ tests
  IsFor tests (spawns_one ts) = ts ≡ tests
  IsFor tests (holds ts w) = ts ≡ tests
  IsFor tests (ran w rs) = ComeFrom ex Offered tests rs
  IsFor tests (returned rs) = ComeFrom ex Offered tests rs
  IsFor tests (done rs) = ComeFrom ex Offered tests rs

  acquired-IsFor :
      (tests : List String) (r : List Worker × Option Worker) → IsFor tests (acquired tests r).1
  acquired-IsFor tests (ws, some w) = refl
  acquired-IsFor tests (ws, none) = refl

  with_spare-IsFor :
      (tests : List String) (r : Result WorkerError Worker) → IsFor tests (with_spare ex tests r)
  with_spare-IsFor tests (ok w) = refl
  with_spare-IsFor tests (err e) = inl (_, refl)

  pub advance-IsFor :
      (env : BatchEnv) (size : ℕ) (tests : List String) (ws : List Worker) (t : Task)
      → Offered env.run.reply
      → IsFor tests t
      → IsFor tests (advance ex env size ws t).1
  unfolding advance
  advance-IsFor env size tests ws (queued []) o k = inl ("", ap (map (error_result "")) k)
  advance-IsFor env size tests ws (queued (t ∷ ts)) o k =
      subst (λ all. IsFor all (acquired (t ∷ ts) (acquire env.try_wait ws)).1) k
        (acquired-IsFor (t ∷ ts) (acquire env.try_wait ws))
  advance-IsFor env size tests ws (spawns_one ts) o k =
      subst (λ all. IsFor all (with_spare ex ts (spawn ex env.spare 999))) k
        (with_spare-IsFor ts (spawn ex env.spare 999))
  advance-IsFor env size tests ws (holds ts w) o k =
      subst (λ all. IsFor all (ran w (or_errors ex ts (run_tests ex env.run w).1))) k
        (run_tests-ComeFrom env.run w ts o)
  advance-IsFor env size tests ws (ran w rs) o k = k
  advance-IsFor env size tests ws (returned rs) o k = k
  advance-IsFor env size tests ws (done rs) o k = k

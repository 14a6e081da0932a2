-- ===== src/Executor/Examples.antt =====
-- Tests of the executor, and its theorems at concrete inputs.
use rpytest.Common.{
  ℕ, zero, suc, ok, if◌then◌else◌, ◌≡◌, refl, String, Bool, true, false, not, ◌&&◌, ◌==◌, List, [],
  ◌∷◌, map, none, some, All, eq_iff, str_eq, ◌≢◌, arith,
}
use Prim.Native.Char.{code}
use mathlib.Core.Option
use rpytest.Common.Text.{is_whitespace, lines, after_last}
use rpytest.Common.Dict.{get, insert}
use rpytest.Models.{passed, failed, xfail, TestResult}
use rpytest.Pool.{Externals, WorkerResponse, ready, line, going}
use rpytest.Pool.Worker.{SpawnEnv}
use rpytest.Pool.Workers.{BatchEnv}
use rpytest.Executor.Pooled
use rpytest.Executor.Pooled.{PooledExecutor, new_executor}
use rpytest.Executor.{
  ExecutorConfig, World, PytestRun, not_spawned, exited, stdout_line, stderr_line, stdout_end,
  run_tests, pytest_args,
}
use rpytest.Executor.Parse.{line_entry, parse_batch_output, extract_duration}
use rpytest.Executor.Batches.{names, run_tests-names, run_tests-with_workers, with_workers}
use rpytest.Executor.Listing.{Line, shows, says, print, shown, IsLine, AreDistinct}
use rpytest.Common.TextLaws.{AllChars, IsInk, IsInLine}
use rpytest.Executor.Reading.{parse_batch_output-print, said}

abbrev listing : List Line
listing =
    says "collected 3 items"
    ∷ says ""
    ∷ shows "test_a.py::test_x" passed " [ 33%]"
    ∷ shows "test_a.py::TestB::test_y" failed " [ 66%]"
    ∷ shows "test_b.py::test_x" xfail " (slow) [100%]"
    ∷ says "=== 1 failed, 1 passed, 1 xfailed in 0.12s ==="
    ∷ []

abbrev all_chars : (ℕ → Bool) → String → Bool
all_chars p String.[] = true
all_chars p (String.◌∷◌ c s) = let rest = all_chars p s in p (code c) && rest

chars_by_test :
    (P : ℕ → Type 0) (p : ℕ → Bool)
    → ((c : ℕ) → p c ≡ true → P c)
    → (s : String) → all_chars p s ≡ true
    → AllChars P s
chars_by_test P p f String.[] h = tt
chars_by_test P p f (String.◌∷◌ c s) h =
    (f (code c) (ground (arith, h)), chars_by_test P p f s (ground (arith, h)))

ink : (s : String) → all_chars (λ c. not (is_whitespace c)) s ≡ true → AllChars IsInk s
ink = chars_by_test IsInk (λ c. not (is_whitespace c)) (λ c h. ground (arith, h))

in_line :
    (s : String) → all_chars (λ c. not (c == 10) && not (c == 13)) s ≡ true → AllChars IsInLine s
in_line =
    chars_by_test IsInLine (λ c. not (c == 10) && not (c == 13))
      (λ c h. (ground (arith, h), ground (arith, h)))

differ_by_test : (s t : String) → str_eq s t ≡ false → s ≢ t
differ_by_test s t h e = ground (arith, eq_iff s t, h)

listing_lines : All IsLine listing
unfolding line_entry after_last
listing_lines = (
  (in_line "collected 3 items" refl, refl),
  (
    (in_line "" refl, refl),
    (
      (
        ink "test_a.py::test_x" refl,
        differ_by_test _ _ refl,
        (λ e. cc e),
        (λ e. cc e),
        in_line " [ 33%]" refl,
      ),
      (
        (
          ink "test_a.py::TestB::test_y" refl,
          differ_by_test _ _ refl,
          (λ e. cc e),
          (λ e. cc e),
          in_line " [ 66%]" refl,
        ),
        (
          (
            ink "test_b.py::test_x" refl,
            differ_by_test _ _ refl,
            (λ e. cc e),
            (λ e. cc e),
            in_line " (slow) [100%]" refl,
          ),
          ((in_line "=== 1 failed, 1 passed, 1 xfailed in 0.12s ===" refl, refl), tt),
        ),
      ),
    ),
  ),
)

listing_distinct : AreDistinct (shown listing)
listing_distinct = (
  (differ_by_test _ _ refl, (differ_by_test _ _ refl, tt)),
  ((differ_by_test _ _ refl, tt), (tt, tt)),
)

parse_batch_output-print_example :
    map said (parse_batch_output (map (λ e. e.0) (shown listing)) (print listing)) ≡ shown listing
parse_batch_output-print_example = parse_batch_output-print listing listing_lines listing_distinct

abbrev no_python : String
no_python = "ERROR: Failed to spawn pytest: No such file or directory (os error 2)"

-- The tests of a batch pass if pytest cannot be started.
no_python_passes :
    map said (parse_batch_output ("a.py::t" ∷ "a.py::u" ∷ []) no_python)
    ≡ ("a.py::t", passed) ∷ ("a.py::u", passed) ∷ []
unfolding parse_batch_output lines line_entry get insert
no_python_passes = refl

-- A run of four tests in batches of two: one process that ends well, one that does not start.
abbrev config : ExecutorConfig
config = record {
  workers = some 2;
  maxfail = none;
  batch_size = 2;
  test_timeout_secs = 60;
  extra_args = [];
}

abbrev runs : ℕ → List String → PytestRun
runs zero args =
    exited
      (stdout_line "a.py::t PASSED"
        ∷ stderr_line "warning"
        ∷ stdout_line "a.py::u FAILED"
        ∷ stdout_end
        ∷ [])
      false "exit status: 1"
runs (suc i) args = not_spawned "none"

abbrev world : World
world = record { fake = false; run = runs; millis = λ t. none }

abbrev tests : List String
tests = "a.py::t" ∷ "a.py::u" ∷ "b.py::t" ∷ []

outcomes :
    Option.map (map said) (run_tests world config tests)
    ≡ some (("a.py::t", passed) ∷ ("a.py::u", failed) ∷ ("b.py::t", passed) ∷ [])
unfolding run_tests get insert
outcomes = refl

command_line :
    pytest_args config ("a.py::t" ∷ [])
    ≡ "-m" ∷ "pytest" ∷ "a.py::t" ∷ "-v" ∷ "--tb=short" ∷ "--no-header" ∷ "--capture=no" ∷ []
unfolding pytest_args
command_line = refl

no_duration : extract_duration (λ t. none) "1 passed [0.12s]" ≡ none
unfolding extract_duration
no_duration = refl

read_seconds :
    extract_duration (λ t. if str_eq t "0.12" then some 120 else none) "x\n1 passed [0.12s]"
    ≡ some 120
unfolding extract_duration
read_seconds = refl

run_tests-names_example :
    (results : List TestResult) × (run_tests world config tests ≡ some results)
    × (names results ≡ tests)
run_tests-names_example = run_tests-names world config tests (omega arith)

run_tests-with_workers_example :
    run_tests world (with_workers config none) tests ≡ run_tests world config tests
run_tests-with_workers_example = run_tests-with_workers world config none tests

-- The pool's worker answers with the tests of the only batch.
abbrev response : WorkerResponse
response = record {
  status = "complete";
  exit_code = 0;
  results =
      record { nodeid = "b"; outcome = "passed"; duration = 1; message = none }
      ∷ record { nodeid = "a"; outcome = "failed"; duration = 1; message = none }
      ∷ [];
  message = none;
}

abbrev externals : Externals
externals = record { from_str = λ text. ok response; display = λ e. "error"; millis = λ d. d }

abbrev spawns : SpawnEnv
spawns = record { child = ok 5; has_stdin = true; has_stdout = true; reply = line "ready" }

abbrev env : BatchEnv
env = record {
  try_wait = λ child. going;
  spare = spawns;
  run = record { now = 1; to_string = ok ""; write_all = ok tt; flush = ok tt; reply = line "" };
  spawns = λ id. spawns;
}

abbrev five_turns : List (ℕ × BatchEnv)
five_turns = (0, env) ∷ (0, env) ∷ (0, env) ∷ (0, env) ∷ (0, env) ∷ []

abbrev pooled : PooledExecutor
pooled =
    new_executor 8 (record { child = 1; id = 0; state = ready; run_count = 0; max_runs = 100 } ∷ [])
      1

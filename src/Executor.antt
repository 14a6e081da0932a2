-- ===== src/Executor.antt =====
-- crates/rpytest-daemon/src/executor.rs: running tests by pytest processes, batch by batch. Here are
-- the configuration, the command line of pytest, and PythonExecutor; the output of pytest is read in
-- the child Parse, and the executor on the worker pool is the child Pooled. `none` of run_tests is
-- the panic of `chunks(0)`, which ends the program.
pub mod Parse
pub mod Chunks
pub mod Batches
pub mod Pooled
pub mod Delivery
pub mod Listing
pub mod Reading
mod Examples
use Prim.Native.String.{◌++◌ as append}
use rpytest.Common.{
  ℕ, zero, suc, ◌-◌, ◌*◌, ◌+◌, String, Bool, true, false, List, [], ◌∷◌, ◌++◌, map, Option, none,
  some, if◌then◌else◌, leb, ltb, length, is_empty, ◌&&◌, ◌==◌,
}
use rpytest.Common.Text.{decimal}
use rpytest.Models.{TestResult}
use rpytest.Executor.Parse.{
  parse_batch_output, parse_pytest_output, extract_duration, extract_message,
}
use rpytest.Executor.Chunks.{chunks}

pub record ExecutorConfig : Type 0 where
  pub workers : Option ℕ
  pub maxfail : Option ℕ
  pub batch_size : ℕ
  pub test_timeout_secs : ℕ
  pub extra_args : List String

-- `cpus` is what `num_cpus::get` says.
abbrev pub optimal_batch_size : ℕ → ℕ
optimal_batch_size cpus = if ltb (cpus * 50) 500 then 500 else cpus * 50

abbrev pub new_config : ℕ → ExecutorConfig
new_config cpus = record {
  workers = none;
  maxfail = none;
  batch_size = optimal_batch_size cpus;
  test_timeout_secs = 60;
  extra_args = [];
}

-- What the two pipes of a process give, in the order in which `select!` takes it. A standard output
-- that ends or fails ends the reading.
pub data Event : Type 0 where
  stdout_line stderr_line : String → Event
  stdout_end stderr_end : Event

unfoldable pub read_output : List Event → String
read_output [] = ""
read_output (stdout_line l ∷ events) = append l (append "\n" (read_output events))
read_output (stderr_line l ∷ events) = append l (append "\n" (read_output events))
read_output (stdout_end ∷ events) = ""
read_output (stderr_end ∷ events) = read_output events

-- How the start of a process ends: the texts are those of the errors and of the exit status.
pub data PytestRun : Type 0 where
  not_spawned : String → PytestRun
  no_stdout no_stderr : PytestRun
  not_waited : List Event → String → PytestRun
  exited : List Event → Bool → String → PytestRun

-- What an executor meets: whether RPYTEST_FAKE_PYTEST is set, what becomes of the process of each
-- batch, by the batch's place and its arguments, and `parse::<f64>` with the conversion to
-- milliseconds.
pub record World : Type 0 where
  pub fake : Bool
  pub run : ℕ → List String → PytestRun
  pub millis : String → Option ℕ

abbrev pub fake_lines : List String → String
fake_lines [] = ""
fake_lines (node_id ∷ node_ids) = append node_id (append " PASSED\n" (fake_lines node_ids))

unfoldable pub fake_output : List String → String
unfolding decimal
fake_output node_ids =
    append (fake_lines node_ids) (append (decimal (length node_ids)) " passed in 0.01s\n")

abbrev pub maxfail_args : Option ℕ → List String
maxfail_args none = []
maxfail_args (some n) = "--maxfail" ∷ decimal n ∷ []

unfoldable pub pytest_args : ExecutorConfig → List String → List String
unfolding decimal
pytest_args config node_ids =
    "-m"
    ∷ "pytest"
    ∷ (node_ids
        ++ ("-v"
            ∷ "--tb=short"
            ∷ "--no-header"
            ∷ (maxfail_args config.maxfail ++ (config.extra_args ++ ("--capture=no" ∷ [])))))

unfoldable pub output_of : PytestRun → String
unfolding read_output
output_of (not_spawned e) = append "ERROR: Failed to spawn pytest: " e
output_of no_stdout = "ERROR: Failed to capture stdout"
output_of no_stderr = "ERROR: Failed to capture stderr"
output_of (not_waited events e) =
    append (read_output events) (append "\nERROR: Failed to wait on pytest: " e)
output_of (exited events success status) =
    if success
    then read_output events
    else append (read_output events) (append "\nExit code: " status)

unfoldable pub run_pytest : World → ExecutorConfig → ℕ → List String → String
unfolding fake_output pytest_args output_of
run_pytest world config i node_ids =
    if world.fake
    then fake_output node_ids
    else output_of (world.run i (pytest_args config node_ids))

unfoldable pub run_batch : World → ExecutorConfig → ℕ → List String → List TestResult
unfolding run_pytest parse_batch_output
run_batch world config i node_ids = parse_batch_output node_ids (run_pytest world config i node_ids)

abbrev pub or_zero : Option ℕ → ℕ
or_zero none = 0
or_zero (some n) = n

unfoldable pub run_test : World → ExecutorConfig → String → TestResult
unfolding run_pytest parse_pytest_output extract_duration extract_message
run_test world config node_id =
    let output = run_pytest world config 0 (node_id ∷ []) in
    record {
      node_id = node_id;
      outcome = parse_pytest_output output;
      duration_ms = or_zero (extract_duration world.millis output);
      message = extract_message output;
      stdout = none;
      stderr = none;
    }

-- The handles of the batches' tasks, in the order of the batches: what each task will give.
abbrev pub spawned : World → ExecutorConfig → ℕ → List (List String) → List (List TestResult)
spawned world config i [] = []
spawned world config i (batch ∷ batches) =
    run_batch world config i batch ∷ spawned world config (i + 1) batches

abbrev pub collect : List (List TestResult) → List TestResult
collect [] = []
collect (batch_results ∷ handles) = batch_results ++ collect handles

abbrev pub run_sequential :
    World → ExecutorConfig → ℕ → List (List String) → List TestResult → List TestResult
run_sequential world config i [] results = results
run_sequential world config i (batch ∷ batches) results =
    run_sequential world config (i + 1) batches (results ++ run_batch world config i batch)

abbrev pub or_one : Option ℕ → ℕ
or_one none = 1
or_one (some n) = n

abbrev pub run_batches : World → ExecutorConfig → List (List String) → List TestResult
run_batches world config batches =
    if ltb 1 (or_one config.workers) && ltb 1 (length batches)
    then collect (spawned world config 0 batches)
    else run_sequential world config 0 batches []

unfoldable pub run_tests : World → ExecutorConfig → List String → Option (List TestResult)
unfolding run_batch chunks
run_tests world config node_ids =
    if is_empty node_ids
    then some []
    else if config.batch_size == 0
    then none
    else some (run_batches world config (chunks config.batch_size node_ids))

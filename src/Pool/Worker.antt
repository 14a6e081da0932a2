-- ===== src/Pool/Worker.antt =====
-- `Worker` of crates/rpytest-daemon/src/pool.rs: starting a worker process, running tests on it,
-- asking whether it lives, and shutting it down.
use rpytest.Common.{
  ℕ, String, str_eq, Bool, true, false, not, Option, none, some, List, map, Result, ok, err,
  if◌then◌else◌, leb, add_u64,
}
use rpytest.Models.{TestResult}
use rpytest.Pool.{
  Stage, startup, test_run, WorkerState, spawning, ready, busy, recycling, dead, max_runs_reached,
  unhealthy, is_ready, is_terminal, WorkerResponse, WorkerError, spawn_failed, timed_out,
  read_failed, invalid_response, unexpected_status, write_failed, flush_failed, reported, no_stdin,
  no_stdout, cannot_run, serialize_failed, Externals, into_test_result, Reply, late, broken, line,
  Wait, going, exited, unknown,
}

pub record Worker : Type 0 where
  pub child : ℕ
  pub id : ℕ
  pub state : WorkerState
  pub run_count : ℕ
  pub max_runs : ℕ

abbrev pub default_max_runs : ℕ
default_max_runs = 100

-- What the world answers when a worker is started.
pub record SpawnEnv : Type 0 where
  pub child : Result String ℕ
  pub has_stdin : Bool
  pub has_stdout : Bool
  pub reply : Reply

-- The read and the parse of one line of a worker; an error shows the line.
unfoldable pub read_response : Externals → Stage → ℕ → Reply → Result WorkerError WorkerResponse
read_response ex stage id late = err (timed_out stage id)
read_response ex stage id (broken e) = err (read_failed id e)
read_response ex stage id (line text) = elim (ex.from_str text) [
  | ok response ↦ ok response
  | err e ↦ err (invalid_response stage id e text)
]

abbrev expect_ready : ℕ → Result WorkerError WorkerResponse → Result WorkerError (Unit {0})
expect_ready id (ok response) =
    if str_eq response.status "ready" then ok tt else err (unexpected_status id response.status)
expect_ready id (err e) = err e

unfoldable pub wait_ready : Externals → ℕ → Reply → Result WorkerError (Unit {0})
unfolding read_response
wait_ready ex id reply = expect_ready id (read_response ex startup id reply)

abbrev pub started : Worker → Result WorkerError (Unit {0}) → Result WorkerError Worker
started w (ok u) = ok (record w { state = ready })
started w (err e) = err e

abbrev pub with_child : Externals → SpawnEnv → ℕ → Result String ℕ → Result WorkerError Worker
with_child ex env id (err e) = err (spawn_failed id e)
with_child ex env id (ok child) =
    if not env.has_stdin
    then err (no_stdin id)
    else if not env.has_stdout
    then err (no_stdout id)
    else started
        (record {
          child = child;
          id = id;
          state = spawning;
          run_count = 0;
          max_runs = default_max_runs;
        })
        (wait_ready ex id env.reply)

unfoldable pub spawn : Externals → SpawnEnv → ℕ → Result WorkerError Worker
unfolding wait_ready
spawn ex env id = with_child ex env id env.child

-- What the world answers when tests run on a worker.
pub record RunEnv : Type 0 where
  pub now : ℕ
  pub to_string : Result String String
  pub write_all : Result String (Unit {0})
  pub flush : Result String (Unit {0})
  pub reply : Reply

abbrev text_or_empty : Option String → String
text_or_empty none = ""
text_or_empty (some text) = text

abbrev pub results_of :
    Externals → ℕ → Result WorkerError WorkerResponse → Result WorkerError (List TestResult)
results_of ex id (err e) = err e
results_of ex id (ok response) =
    if str_eq response.status "error"
    then err (reported id (text_or_empty response.message))
    else ok (map (into_test_result ex) response.results)

abbrev pub flushed :
    Externals → RunEnv → ℕ → Result String (Unit {0}) → Result WorkerError (List TestResult)
flushed ex env id (err e) = err (flush_failed id e)
flushed ex env id (ok u) = results_of ex id (read_response ex test_run id env.reply)

abbrev pub written :
    Externals → RunEnv → ℕ → Result String (Unit {0}) → Result WorkerError (List TestResult)
written ex env id (err e) = err (write_failed id e)
written ex env id (ok u) = flushed ex env id env.flush

abbrev pub sent :
    Externals → RunEnv → ℕ → Result String String → Result WorkerError (List TestResult)
sent ex env id (err e) = err (serialize_failed e)
sent ex env id (ok request) = written ex env id env.write_all

unfoldable pub execute_tests : Externals → RunEnv → ℕ → Result WorkerError (List TestResult)
unfolding read_response into_test_result
execute_tests ex env id = sent ex env id env.to_string

abbrev pub needs_recycle : Worker → Bool
needs_recycle w = leb w.max_runs w.run_count

abbrev pub count_run : Worker → Worker
count_run w = record w { run_count = add_u64 w.run_count 1 }

abbrev pub after_run : Worker → Result WorkerError (List TestResult) → Worker
after_run w (ok results) = record (count_run w) {
  state = if needs_recycle (count_run w) then recycling max_runs_reached else ready;
}
after_run w (err e) = record w { state = recycling unhealthy }

unfoldable pub run_tests :
    Externals → RunEnv → Worker → Worker × Result WorkerError (List TestResult)
unfolding is_ready execute_tests
run_tests ex env w =
    if not (is_ready w.state)
    then (w, err (cannot_run w.id w.state))
    else let result = execute_tests ex env w.id in
      (after_run (record w { state = busy env.now }) result, result)

abbrev pub waited : Worker → Wait → Worker × Bool
waited w going = (w, true)
waited w (exited code) = (record w { state = dead code }, false)
waited w unknown = (record w { state = dead none }, false)

abbrev pub polled : Worker → WorkerState → Wait → Worker × Bool
polled w (dead code) wait = (w, false)
polled w _ wait = waited w wait

-- `Worker::is_alive`
unfoldable pub poll_alive : (ℕ → Wait) → Worker → Worker × Bool
poll_alive try_wait w = polled w w.state (try_wait w.child)

-- `Worker::shutdown`: the messages to the process may be lost, and the process is killed.
unfoldable pub shutdown_worker : Worker → Worker
unfolding is_terminal
shutdown_worker w = if is_terminal w.state then w else record w { state = dead (some 0) }

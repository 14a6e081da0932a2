-- ===== src/Watch.antt =====
-- crates/rpytest/src/watch/state.rs: the state machine of the watch mode. An `Instant` is a number of
-- milliseconds; a path is its text; a set of names is a list.
pub mod Debounce
mod Examples
use rpytest.Common.{
  ℕ, ◌+◌, String, Bool, true, false, not, ◌||◌, List, [], ◌∷◌, ◌++◌, map, Result, ok, err, is_empty,
}

pub data WatchEventKind : Type 0 where
  modified created deleted renamed : WatchEventKind

pub record WatchFileEvent : Type 0 where
  pub path : String
  pub kind : WatchEventKind

pub data WatchEvent : Type 0 where
  file_changes : List WatchFileEvent → WatchEvent
  debounced user_trigger run_complete shutdown no_op : WatchEvent

pub data RecollectReason : Type 0 where
  conftest_changed : RecollectReason
  test_files_changed : List String → RecollectReason

pub data WatchState : Type 0 where
  idle waiting_for_trigger : WatchState
  debouncing : List WatchFileEvent → ℕ → WatchState
  computing_affected : List String → WatchState
  recollecting : RecollectReason → WatchState
  running : ℕ → ℕ → WatchState

unfoldable pub is_idle : WatchState → Bool
is_idle idle = true
is_idle waiting_for_trigger = true
is_idle _ = false

unfoldable pub is_running : WatchState → Bool
is_running (running test_count start_time) = true
is_running _ = false

abbrev pub paths : List WatchFileEvent → List String
paths es = map (λ (e : WatchFileEvent). e.path) es

-- `transition` at the time `now`. The error holds the state and the event that its message shows.
-- The arm for a shutdown from any state comes before the arm for no event at all.
unfoldable pub transition :
    ℕ → WatchState → WatchEvent → Result (WatchState × WatchEvent) WatchState
transition now idle (file_changes events) = ok (debouncing events (now + 300))
transition now idle user_trigger = ok waiting_for_trigger
transition now (debouncing events deadline) (file_changes new_events) =
    ok (debouncing (events ++ new_events) deadline)
transition now (debouncing events deadline) debounced = ok (computing_affected (paths events))
transition now (computing_affected changed_files) debounced = ok (computing_affected changed_files)
transition now (recollecting reason) run_complete = ok idle
transition now (running test_count start_time) run_complete = ok idle
transition now waiting_for_trigger user_trigger = ok (running 0 now)
transition now waiting_for_trigger (file_changes events) = ok (debouncing events (now + 300))
transition now s shutdown = ok idle
transition now s no_op = ok s
transition now s e = err (s, e)

pub record AffectedTests : Type 0 where
  pub run_all : Bool
  pub node_ids : List String
  pub test_files_changed : Bool
  pub changed_test_file_names : List String

unfoldable pub has_tests : AffectedTests → Bool
has_tests a = a.run_all || not (is_empty a.node_ids)

-- ===== src/Watch/Examples.antt =====
-- A burst of changes at concrete files (crates/rpytest/src/watch/state.rs).
use rpytest.Common.{◌≡◌, refl, true, [], ◌∷◌, ok}
use rpytest.Watch.{
  WatchFileEvent, modified, created, waiting_for_trigger, computing_affected, is_idle,
}
use rpytest.Watch.Debounce.{transitions, burst, burst-transitions}

abbrev first : WatchFileEvent
first = record { path = "a.py"; kind = modified }

abbrev second : WatchFileEvent
second = record { path = "b.py"; kind = created }

waits : is_idle waiting_for_trigger ≡ true
unfolding is_idle
waits = refl

burst-transitions_example :
    transitions waiting_for_trigger (burst ((10, first ∷ []) ∷ (20, second ∷ first ∷ []) ∷ []))
    ≡ ok (computing_affected ("a.py" ∷ "b.py" ∷ "a.py" ∷ []))
burst-transitions_example =
    burst-transitions waiting_for_trigger 10 (first ∷ []) ((20, second ∷ first ∷ []) ∷ []) waits

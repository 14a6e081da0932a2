-- ===== src/Watch/Debounce.antt =====
-- Changes that come one after another (transition of crates/rpytest/src/watch/state.rs).
use mathlib.Core.List.{append_assoc, append-nil}
use rpytest.Common.{ℕ, ◌+◌, ◌≡◌, sym, ap, ◌∙◌, true, List, [], ◌∷◌, ◌++◌, Result, ok, err}
use rpytest.Watch.{
  WatchFileEvent, WatchEvent, file_changes, debounced, WatchState, idle, debouncing,
  computing_affected, is_idle, waiting_for_trigger, running, recollecting, transition, paths,
}

-- A run of events, each at its time, to the end or to the first that the machine refuses.
unfoldable pub transitions :
    WatchState → List (ℕ × WatchEvent) → Result (WatchState × WatchEvent) WatchState
unfolding transition
transitions s [] = ok s
transitions s ((now, e) ∷ rest) = elim (transition now s e) [
  | err x ↦ err x
  | ok t ↦ transitions t rest
]

-- Groups of changes, with the times at which they come, then the end of the debounce window.
abbrev pub burst : List (ℕ × List WatchFileEvent) → List (ℕ × WatchEvent)
burst [] = (0, debounced) ∷ []
burst ((now, es) ∷ rest) = (now, file_changes es) ∷ burst rest

abbrev pub changed : List (ℕ × List WatchFileEvent) → List WatchFileEvent
changed [] = []
changed ((now, es) ∷ rest) = es ++ changed rest

debouncing-burst :
    (es : List WatchFileEvent) (deadline : ℕ) (groups : List (ℕ × List WatchFileEvent))
    → transitions (debouncing es deadline) (burst groups)
      ≡ ok (computing_affected (paths (es ++ changed groups)))
unfolding transitions transition
debouncing-burst es deadline [] =
    ap (λ xs. ok (computing_affected (paths xs))) (sym (append-nil es))
debouncing-burst es deadline ((now, new) ∷ rest) =
    debouncing-burst (es ++ new) deadline rest
    ∙ ap (λ xs. ok (computing_affected (paths xs))) (append_assoc es new (changed rest))

-- From a state that waits, any groups of changes followed by the end of the debounce window give
-- the paths of all changes of all groups, in the order in which they came.
pub burst-transitions :
    (s : WatchState) (now : ℕ) (es : List WatchFileEvent) (groups : List (ℕ × List WatchFileEvent))
    → is_idle s ≡ true
    → transitions s (burst ((now, es) ∷ groups))
      ≡ ok (computing_affected (paths (es ++ changed groups)))
unfolding transitions transition is_idle
burst-transitions idle now es groups h = debouncing-burst es (now + 300) groups
burst-transitions waiting_for_trigger now es groups h = debouncing-burst es (now + 300) groups
burst-transitions (debouncing fs d) now es groups h = cc
burst-transitions (computing_affected fs) now es groups h = cc
burst-transitions (recollecting r) now es groups h = cc
burst-transitions (running n t) now es groups h = cc

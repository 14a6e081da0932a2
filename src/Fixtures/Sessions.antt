-- ===== src/Fixtures/Sessions.antt =====
-- The sessions after each operation (crates/rpytest-daemon/src/fixtures.rs).
use mathlib.Core.Path.{subst}
use rpytest.Common.{
  ℕ, ◌≡◌, refl, sym, ap, ◌∙◌, inl, inr, String, str_eq, eq_iff, false, List, [], ◌∷◌, none, some,
  arith, Bool-cases, Option-cases,
}
use rpytest.Common.Dict.{Dict, get, insert, remove, get-insert, get-remove}
use rpytest.Fixtures.{
  FixtureScope, FixtureState, FixtureConfig, SessionState, FixtureManager, new, create_session,
  fresh_session, get_session, with_session, enabled_session, disabled_session, enable_reuse,
  disable_reuse, entry, used, use_fixture, mark_fixture_used, complete_run, mark_run_complete,
  clear_all, remove_session, configure,
}

-- No name twice.
abbrev pub IsDistinct : Dict FixtureState → Type 0
IsDistinct [] = Unit
IsDistinct ((k, f) ∷ d) = (get d k ≡ none) × IsDistinct d

-- What holds of a session: each fixture stands at its name, no name stands twice, and while reuse is
-- off there is none.
pub record IsSound (s : SessionState) : Type 0 where
  pub off : s.enabled ≡ false → s.fixtures ≡ []
  pub named : (k : String) (f : FixtureState) → get s.fixtures k ≡ some f → f.name ≡ k
  pub distinct : IsDistinct s.fixtures

-- All sessions of a manager are sound.
abbrev pub AllSound : FixtureManager → Type 0
AllSound m = (c : String) (s : SessionState) → get_session m c ≡ some s → IsSound s

-- One operation that changes the manager, at its time.
pub data Call : Type 0 where
  creates : String → String → String → Call
  enables disables completes removes : String → Call
  uses : String → String → FixtureScope → Call
  clears : Call
  configures : FixtureConfig → Call

unfoldable pub perform : (String → ℕ → String) → FixtureManager → ℕ × Call → FixtureManager
unfolding create_session enable_reuse disable_reuse mark_fixture_used mark_run_complete
perform id_of m (now, creates c repo python) = (create_session id_of now c repo python m).0
perform id_of m (now, enables c) = (enable_reuse c m).0
perform id_of m (now, disables c) = (disable_reuse c m).0
perform id_of m (now, completes c) = mark_run_complete now c m
perform id_of m (now, removes c) = remove_session c m
perform id_of m (now, uses c name scope) = mark_fixture_used now c name scope m
perform id_of m (now, clears) = clear_all m
perform id_of m (now, configures config) = configure config m

unfoldable pub run : (String → ℕ → String) → FixtureManager → List (ℕ × Call) → FixtureManager
unfolding perform
run id_of m [] = m
run id_of m (c ∷ cs) = run id_of (perform id_of m c) cs

insert-AllSound :
    (m : FixtureManager) (c : String) (s : SessionState)
    → AllSound m
    → IsSound s
    → AllSound (record m { sessions = insert m.sessions c s })
unfolding get_session
insert-AllSound m c s a h d t e = elim (Bool-cases (str_eq c d)) [
  | inl q ↦ subst IsSound (ground (arith, get-insert m.sessions c d s)) h
  | inr q ↦ a d t (ground (arith, get-insert m.sessions c d s))
]

with_session_missing :
    (f : SessionState → SessionState) (c : String) (m : FixtureManager)
    → get m.sessions c ≡ none
    → with_session f c m ≡ m
with_session_missing f c m e = rw (e, with_session) refl

pub with_session_found :
    (f : SessionState → SessionState) (c : String) (m : FixtureManager) (s : SessionState)
    → get m.sessions c ≡ some s
    → with_session f c m ≡ record m { sessions = insert m.sessions c (f s) }
with_session_found f c m s e = rw (e, with_session) refl

with_session-AllSound :
    (f : SessionState → SessionState) (c : String) (m : FixtureManager)
    → ((s : SessionState) → IsSound s → IsSound (f s))
    → AllSound m
    → AllSound (with_session f c m)
with_session-AllSound f c m k a = elim (Option-cases (get m.sessions c)) [
  | inl e ↦ subst AllSound (sym (with_session_missing f c m e)) a
  | inr (s, e) ↦
      subst AllSound (sym (with_session_found f c m s e))
        (insert-AllSound m c (f s) a (k s (a c s (unfold get_session in e))))
]

fresh_session-IsSound :
    (id repo python : String) (now : ℕ) → IsSound (fresh_session id repo python now)
unfolding get
fresh_session-IsSound id repo python now = record {
  off = λ e. refl;
  named = λ k f e. cc;
  distinct = tt;
}

enabled_session-IsSound : (s : SessionState) → IsSound s → IsSound (enabled_session s)
enabled_session-IsSound s h = record { off = λ e. cc; named = h.named; distinct = h.distinct }

disabled_session-IsSound : (s : SessionState) → IsSound s → IsSound (disabled_session s)
unfolding get
disabled_session-IsSound s h = record { off = λ e. refl; named = λ k f e. cc; distinct = tt }

complete_run-IsSound : (now : ℕ) (s : SessionState) → IsSound s → IsSound (complete_run now s)
complete_run-IsSound now s h = record { off = h.off; named = h.named; distinct = h.distinct }

name-entry :
    (now : ℕ) (name : String) (scope : FixtureScope) (s : SessionState)
    → IsSound s
    → (entry now name scope (get s.fixtures name)).name ≡ name
name-entry now name scope s h = elim (Option-cases (get s.fixtures name)) [
  | inl e ↦ rw e refl
  | inr (f, e) ↦ rw e (h.named name f e)
]

insert-named :
    (d : Dict FixtureState) (name : String) (f : FixtureState)
    → ((k : String) (g : FixtureState) → get d k ≡ some g → g.name ≡ k)
    → f.name ≡ name
    → (k : String) (g : FixtureState) → get (insert d name f) k ≡ some g
    → g.name ≡ k
insert-named d name f h n k g e = elim (Bool-cases (str_eq name k)) [
  | inl q ↦
      let same : f ≡ g = ground (arith, get-insert d name k f) in
      ap FixtureState.name (sym same) ∙ n ∙ (eq_iff name k).0 q
  | inr q ↦ h k g (ground (arith, get-insert d name k f))
]

insert-IsDistinct :
    (d : Dict FixtureState) (name : String) (f : FixtureState)
    → IsDistinct d
    → IsDistinct (insert d name f)
unfolding insert get
insert-IsDistinct [] name f h = (refl, tt)
insert-IsDistinct ((j, g) ∷ d) name f h =
    ground
      (arith, eq_iff j name, eq_iff name j, insert-IsDistinct d name f h.1, get-insert d name j f)

pub use_fixture-IsSound :
    (now : ℕ) (name : String) (scope : FixtureScope) (s : SessionState)
    → IsSound s
    → IsSound (use_fixture now name scope s)
use_fixture-IsSound now name scope s h = elim (Bool-cases s.enabled) [
  | inl e ↦ rw e record {
    off = λ q. cc;
    named =
        insert-named s.fixtures name (used now (entry now name scope (get s.fixtures name))) h.named
          (name-entry now name scope s h);
    distinct = insert-IsDistinct s.fixtures name _ h.distinct;
  }
  | inr e ↦ let same : use_fixture now name scope s ≡ s = ground arith in subst IsSound (sym same) h
]

removed :
    (d : Dict SessionState) (c k : String) (s : SessionState)
    → get (remove d c) k ≡ some s
    → get d k ≡ some s
removed d c k s e = ground (arith, get-remove d c k)

perform-AllSound :
    (id_of : String → ℕ → String) (m : FixtureManager) (call : ℕ × Call)
    → AllSound m
    → AllSound (perform id_of m call)
unfolding perform create_session enable_reuse disable_reuse mark_fixture_used mark_run_complete
    configure get_session clear_all remove_session get
perform-AllSound id_of m (now, creates c repo python) a =
    insert-AllSound m c _ a (fresh_session-IsSound (id_of c now) repo python now)
perform-AllSound id_of m (now, enables c) a =
    with_session-AllSound enabled_session c m enabled_session-IsSound a
perform-AllSound id_of m (now, disables c) a =
    with_session-AllSound disabled_session c m disabled_session-IsSound a
perform-AllSound id_of m (now, completes c) a =
    with_session-AllSound (complete_run now) c m (complete_run-IsSound now) a
perform-AllSound id_of m (now, removes c) a = λ d s e. a d s (removed m.sessions c d s e)
perform-AllSound id_of m (now, uses c name scope) a =
    with_session-AllSound (use_fixture now name scope) c m (use_fixture-IsSound now name scope) a
perform-AllSound id_of m (now, clears) a = λ d s e. cc
perform-AllSound id_of m (now, configures config) a = a

run-AllSound :
    (id_of : String → ℕ → String) (m : FixtureManager) (calls : List (ℕ × Call))
    → AllSound m
    → AllSound (run id_of m calls)
unfolding run
run-AllSound id_of m [] a = a
run-AllSound id_of m (c ∷ cs) a =
    run-AllSound id_of (perform id_of m c) cs (perform-AllSound id_of m c a)

-- After any operations on a new manager, in every session each fixture stands at its own name, no
-- name stands twice, and a session for which reuse is off holds no fixture.
pub new-AllSound :
    (id_of : String → ℕ → String) (unit : ℕ) (calls : List (ℕ × Call))
    → AllSound (run id_of (new unit) calls)
unfolding new get_session get
new-AllSound id_of unit calls = run-AllSound id_of (new unit) calls (λ c s e. cc)

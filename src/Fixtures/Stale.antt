-- ===== src/Fixtures/Stale.antt =====
-- When a fixture counts as stale (get_stale_fixtures of crates/rpytest-daemon/src/fixtures.rs).
use rpytest.Common.{
  ℕ, ◌+◌, ◌-◌, ◌≤◌, ◌<◌, ◌≡◌, refl, sym, ap, ◌∙◌, String, str_eq, eq_iff, eq_refl, Bool, true,
  false, List, [], ◌∷◌, Option, none, some, if◌then◌else◌, arith, ltb, any,
}
use rpytest.Common.Dict.{Dict, get, insert, get-insert}
use rpytest.Fixtures.Sessions.{IsSound, IsDistinct, with_session_found, use_fixture-IsSound}
use rpytest.Fixtures.{
  FixtureScope, FixtureState, SessionState, FixtureManager, get_session, entry, used, use_fixture,
  mark_fixture_used, stale_names, get_stale_fixtures,
}

abbrev pub contains : List String → String → Bool
contains xs k = any (λ x. str_eq x k) xs

-- What a use does to the fixtures that a reader finds.
get-use_fixture :
    (now : ℕ) (name k : String) (scope : FixtureScope) (s : SessionState)
    → s.enabled ≡ true
    → get (use_fixture now name scope s).fixtures k ≡ (
        if str_eq name k
        then some (used now (entry now name scope (get s.fixtures name)))
        else get s.fixtures k)
get-use_fixture now name k scope s e =
    rw e (get-insert s.fixtures name k (used now (entry now name scope (get s.fixtures name))))

-- A name that no entry has is not stale.
stale_names-none :
    (now max_age : ℕ) (d : Dict FixtureState) (k : String)
    → get d k ≡ none
    → contains (stale_names now max_age d) k ≡ false
unfolding stale_names get
stale_names-none now max_age [] k e = refl
stale_names-none now max_age ((j, f) ∷ d) k e = ground (arith, stale_names-none now max_age d k)

abbrev is_old : ℕ → ℕ → Option FixtureState → Bool
is_old now max_age none = false
is_old now max_age (some f) = ltb max_age (now - f.last_used)

stale_names-is_old :
    (now max_age : ℕ) (d : Dict FixtureState) (k : String)
    → IsDistinct d
    → contains (stale_names now max_age d) k ≡ is_old now max_age (get d k)
unfolding stale_names get
stale_names-is_old now max_age [] k h = refl
stale_names-is_old now max_age ((j, f) ∷ d) k h = ground (
  arith,
  eq_iff j k,
  eq_refl j,
  stale_names-is_old now max_age d k h.1,
  stale_names-none now max_age d j h.0,
)

get_stale_fixtures-is_old :
    (now : ℕ) (m : FixtureManager) (c k : String) (s : SessionState)
    → get_session m c ≡ some s
    → IsSound s
    → contains (get_stale_fixtures now m c) k ≡ is_old now m.max_age_seconds (get s.fixtures k)
unfolding get_stale_fixtures get_session
get_stale_fixtures-is_old now m c k s e h =
    ap
      (λ o.
        contains (elim o [ none ↦ [] | some t ↦ stale_names now m.max_age_seconds t.fixtures ]) k)
      e
    ∙ stale_names-is_old now m.max_age_seconds s.fixtures k h.distinct

is_old_entry :
    (now max_age : ℕ) (o : Option FixtureState)
    → is_old now max_age o ≡ true
    → (f : FixtureState) × (o ≡ some f) × (max_age < now - f.last_used)
is_old_entry now max_age none e = cc
is_old_entry now max_age (some f) e = (f, refl, ground arith)

-- A fixture is among the stale ones exactly if the session has it and its last use was longer ago
-- than the manager's age limit.
get_stale_fixtures_old :
    (now : ℕ) (m : FixtureManager) (c k : String) (s : SessionState)
    → get_session m c ≡ some s
    → IsSound s
    → (contains (get_stale_fixtures now m c) k ≡ true
        → (f : FixtureState) × (get s.fixtures k ≡ some f)
          × (m.max_age_seconds < now - f.last_used))
      × ((f : FixtureState)
          → get s.fixtures k ≡ some f
          → m.max_age_seconds < now - f.last_used
          → contains (get_stale_fixtures now m c) k ≡ true)
get_stale_fixtures_old now m c k s e h =
    let old = get_stale_fixtures-is_old now m c k s e h in
    (
      λ t. is_old_entry now m.max_age_seconds (get s.fixtures k) (sym old ∙ t),
      λ f g l. old ∙ ap (is_old now m.max_age_seconds) g ∙ ground arith,
    )

-- The manager after a use in a session with reuse on.
abbrev after_use :
    ℕ → String → String → FixtureScope → FixtureManager → SessionState → FixtureManager
after_use now c name scope m s = record m {
  sessions = insert m.sessions c (use_fixture now name scope s);
}

get_session-after_use :
    (now : ℕ) (c name d : String) (scope : FixtureScope) (m : FixtureManager) (s : SessionState)
    → get_session (after_use now c name scope m s) d
      ≡ (if str_eq c d then some (use_fixture now name scope s) else get_session m d)
unfolding get_session
get_session-after_use now c name d scope m s =
    get-insert m.sessions c d (use_fixture now name scope s)

mark_fixture_used-after_use :
    (now : ℕ) (c name : String) (scope : FixtureScope) (m : FixtureManager) (s : SessionState)
    → get_session m c ≡ some s
    → mark_fixture_used now c name scope m ≡ after_use now c name scope m s
unfolding mark_fixture_used get_session
mark_fixture_used-after_use now c name scope m s e =
    with_session_found (use_fixture now name scope) c m s e

-- A fixture that is used in a session with reuse on is not stale before the age limit has passed;
-- which other fixtures of the session are stale, and all other sessions, are as before.
pub mark_fixture_used_fresh :
    (now later : ℕ) (c name : String) (scope : FixtureScope) (m : FixtureManager) (s : SessionState)
    → get_session m c ≡ some s
    → s.enabled ≡ true
    → IsSound s
    → later ≤ now + m.max_age_seconds
    → (contains (get_stale_fixtures later (mark_fixture_used now c name scope m) c) name ≡ false)
      × ((k : String)
          → str_eq name k ≡ false
          → contains (get_stale_fixtures later (mark_fixture_used now c name scope m) c) k
            ≡ contains (get_stale_fixtures later m c) k)
      × ((d : String)
          → str_eq c d ≡ false
          → get_session (mark_fixture_used now c name scope m) d ≡ get_session m d)
mark_fixture_used_fresh now later c name scope m s e on h soon =
    let s' = use_fixture now name scope s in
    let m' = after_use now c name scope m s in
    let at_c : get_session m' c ≡ some s' =
      get_session-after_use now c name c scope m s
      ∙ ap (λ b. if b then some s' else get_session m c) (eq_refl c) in
    let old : (k : String)
        → contains (get_stale_fixtures later m' c) k
          ≡ is_old later m.max_age_seconds (get s'.fixtures k) =
      λ k.
        get_stale_fixtures-is_old later m' c k s' at_c (use_fixture-IsSound now name scope s h) in
    rw (mark_fixture_used-after_use now c name scope m s e) (
      old name
          ∙ ap (is_old later m.max_age_seconds) (get-use_fixture now name name scope s on)
          ∙ rw (eq_refl name) (ground arith),
      λ k n.
          old k
          ∙ ap (is_old later m.max_age_seconds) (get-use_fixture now name k scope s on)
          ∙ rw n (sym (get_stale_fixtures-is_old later m c k s e h)),
      λ d n.
          get_session-after_use now c name d scope m s
          ∙ ap (λ b. if b then some s' else get_session m d) n,
    )

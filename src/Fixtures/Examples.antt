-- ===== src/Fixtures/Examples.antt =====
-- The theorems on fixture sessions at a concrete manager (crates/rpytest-daemon/src/fixtures.rs).
use rpytest.Common.{ℕ, ◌≡◌, refl, ap, arith, eq_iff, String, str_eq, true, false, [], ◌∷◌, some}
use rpytest.Common.Dict.{get}
use rpytest.Fixtures.{
  session_scope, FixtureState, SessionState, FixtureManager, new, get_session, mark_fixture_used,
  get_stale_fixtures,
}
use rpytest.Fixtures.Sessions.{
  IsSound, AllSound, creates, enables, uses, completes, disables, run, new-AllSound,
}
use rpytest.Fixtures.Stale.{contains, mark_fixture_used_fresh}

abbrev plain_id : String → ℕ → String
plain_id context_id now = context_id

new-AllSound_example : AllSound (
    run plain_id (new 1) (
      (1, creates "ctx" "repo" "python")
      ∷ (2, enables "ctx")
      ∷ (3, uses "ctx" "db" session_scope)
      ∷ (4, completes "ctx")
      ∷ (5, disables "ctx")
      ∷ []))
new-AllSound_example = new-AllSound plain_id 1 (
    (1, creates "ctx" "repo" "python")
    ∷ (2, enables "ctx")
    ∷ (3, uses "ctx" "db" session_scope)
    ∷ (4, completes "ctx")
    ∷ (5, disables "ctx")
    ∷ [])

abbrev database : FixtureState
database = record {
  name = "db";
  scope = session_scope;
  created_at = 3;
  last_used = 3;
  use_count = 1;
  teardown_pending = false;
}

abbrev warm : SessionState
warm = record {
  session_id = "ctx-1";
  repo_path = "repo";
  python_path = "python";
  fixtures = ("db", database) ∷ [];
  created_at = 1;
  last_run_at = 1;
  total_runs = 0;
  enabled = true;
}

abbrev manager : FixtureManager
manager = record {
  sessions = ("ctx", warm) ∷ [];
  config = record {
    enabled = true;
    max_age_seconds = 600;
    teardown_on_conftest_change = false;
    scopes_to_reuse = [];
  };
  max_age_seconds = 600;
}

warm-get_session : get_session manager "ctx" ≡ some warm
unfolding get_session get
warm-get_session = refl

database-get : get warm.fixtures "db" ≡ some database
unfolding get
database-get = refl

warm-IsSound : IsSound warm
unfolding get
warm-IsSound = record {
  off = λ e. cc;
  named = λ k f e. ground (arith, eq_iff "db" k, ap FixtureState.name);
  distinct = (refl, tt);
}

mark_fixture_used_fresh_example :
    (contains
        (get_stale_fixtures 1100 (mark_fixture_used 1000 "ctx" "db" session_scope manager) "ctx")
        "db"
      ≡ false)
    × ((k : String)
        → str_eq "db" k ≡ false
        → contains
            (get_stale_fixtures 1100
              (mark_fixture_used 1000 "ctx" "db" session_scope manager)
              "ctx")
            k
          ≡ contains (get_stale_fixtures 1100 manager "ctx") k)
    × ((d : String)
        → str_eq "ctx" d ≡ false
        → get_session (mark_fixture_used 1000 "ctx" "db" session_scope manager) d
          ≡ get_session manager d)
mark_fixture_used_fresh_example =
    mark_fixture_used_fresh 1000 1100 "ctx" "db" session_scope manager warm warm-get_session refl
      warm-IsSound (omega arith)

-- ===== src/Fixtures.antt =====
-- crates/rpytest-daemon/src/fixtures.rs: the sessions of warm fixtures. A time is a whole number of
-- some small unit, where the code has an `f64` of seconds since 1970. The mutex holds the sessions for
-- the whole of each operation, so an operation is a function of the manager.
pub mod Sessions
pub mod Stale
mod Examples
use rpytest.Common.{
  ℕ, ◌-◌, ◌*◌, String, str_eq, Bool, true, false, not, List, [], ◌∷◌, Option, none, some,
  if◌then◌else◌, ltb, add_u32, length,
}
use rpytest.Common.Dict
use rpytest.Common.Dict.{Dict}

-- `FixtureScope`, `FixtureState` and `FixtureConfig` of models.rs
pub data FixtureScope : Type 0 where
  session_scope package_scope module_scope class_scope function_scope : FixtureScope

-- `From<&str>`: an unknown word is a function's scope.
unfoldable pub scope_of_str : String → FixtureScope
scope_of_str s =
    if str_eq s "session"
    then session_scope
    else if str_eq s "package"
    then package_scope
    else if str_eq s "module"
    then module_scope
    else if str_eq s "class"
    then class_scope
    else function_scope

pub record FixtureState : Type 0 where
  pub name : String
  pub scope : FixtureScope
  pub created_at : ℕ
  pub last_used : ℕ
  pub use_count : ℕ
  pub teardown_pending : Bool

pub record FixtureConfig : Type 0 where
  pub enabled : Bool
  pub max_age_seconds : ℕ
  pub teardown_on_conftest_change : Bool
  pub scopes_to_reuse : List String

pub record SessionState : Type 0 where
  pub session_id : String
  pub repo_path : String
  pub python_path : String
  pub fixtures : Dict FixtureState
  pub created_at : ℕ
  pub last_run_at : ℕ
  pub total_runs : ℕ
  pub enabled : Bool

pub record FixtureManager : Type 0 where
  pub sessions : Dict SessionState
  pub config : FixtureConfig
  pub max_age_seconds : ℕ

-- `FixtureConfig` derives its default; `unit` is the number of time units in a second.
unfoldable pub new : ℕ → FixtureManager
new unit = record {
  sessions = [];
  config = record {
    enabled = false;
    max_age_seconds = 0;
    teardown_on_conftest_change = false;
    scopes_to_reuse = [];
  };
  max_age_seconds = 600 * unit;
}

-- `session_id` is the text that the code makes of the context and the time.
abbrev pub fresh_session : String → String → String → ℕ → SessionState
fresh_session session_id repo_path python_path now = record {
  session_id = session_id;
  repo_path = repo_path;
  python_path = python_path;
  fixtures = [];
  created_at = now;
  last_run_at = now;
  total_runs = 0;
  enabled = false;
}

unfoldable pub create_session :
    (String → ℕ → String)
    → ℕ
    → String
    → String
    → String
    → FixtureManager
    → FixtureManager × SessionState
create_session id_of now context_id repo_path python_path m =
    let s = fresh_session (id_of context_id now) repo_path python_path now in
    (record m { sessions = Dict.insert m.sessions context_id s }, s)

unfoldable pub get_session : FixtureManager → String → Option SessionState
get_session m context_id = Dict.get m.sessions context_id

-- `if let Some(session) = sessions.get_mut(context_id)`
abbrev pub with_session : (SessionState → SessionState) → String → FixtureManager → FixtureManager
with_session f context_id m = elim (Dict.get m.sessions context_id) [
  | none ↦ m
  | some s ↦ record m { sessions = Dict.insert m.sessions context_id (f s) }
]

abbrev is_known : Option SessionState → Bool
is_known none = false
is_known (some s) = true

abbrev pub enabled_session : SessionState → SessionState
enabled_session s = record s { enabled = true }

abbrev pub disabled_session : SessionState → SessionState
disabled_session s = record s { enabled = false; fixtures = [] }

unfoldable pub enable_reuse : String → FixtureManager → FixtureManager × Bool
enable_reuse context_id m =
    (with_session enabled_session context_id m, is_known (Dict.get m.sessions context_id))

unfoldable pub disable_reuse : String → FixtureManager → FixtureManager × Bool
disable_reuse context_id m =
    (with_session disabled_session context_id m, is_known (Dict.get m.sessions context_id))

-- The entry of a fixture, or a fresh one.
abbrev pub entry : ℕ → String → FixtureScope → Option FixtureState → FixtureState
entry now name scope (some f) = f
entry now name scope none = record {
  name = name;
  scope = scope;
  created_at = now;
  last_used = now;
  use_count = 0;
  teardown_pending = false;
}

abbrev pub used : ℕ → FixtureState → FixtureState
used now f = record f { last_used = now; use_count = add_u32 f.use_count 1 }

abbrev pub use_fixture : ℕ → String → FixtureScope → SessionState → SessionState
use_fixture now name scope s = if not s.enabled then s else record s {
  fixtures =
      Dict.insert s.fixtures name (used now (entry now name scope (Dict.get s.fixtures name)));
}

unfoldable pub mark_fixture_used :
    ℕ → String → String → FixtureScope → FixtureManager → FixtureManager
mark_fixture_used now context_id name scope m =
    with_session (use_fixture now name scope) context_id m

abbrev pub complete_run : ℕ → SessionState → SessionState
complete_run now s = record s { last_run_at = now; total_runs = add_u32 s.total_runs 1 }

unfoldable pub mark_run_complete : ℕ → String → FixtureManager → FixtureManager
mark_run_complete now context_id m = with_session (complete_run now) context_id m

-- The names of the fixtures whose last use is longer ago than `max_age`.
unfoldable pub stale_names : ℕ → ℕ → Dict FixtureState → List String
stale_names now max_age [] = []
stale_names now max_age ((name, f) ∷ fs) =
    let rest = stale_names now max_age fs in
    if ltb max_age (now - f.last_used) then name ∷ rest else rest

unfoldable pub get_stale_fixtures : ℕ → FixtureManager → String → List String
unfolding stale_names
get_stale_fixtures now m context_id = elim (Dict.get m.sessions context_id) [
  | none ↦ []
  | some s ↦ stale_names now m.max_age_seconds s.fixtures
]

unfoldable pub clear_all : FixtureManager → FixtureManager
clear_all m = record m { sessions = [] }

unfoldable pub remove_session : String → FixtureManager → FixtureManager
remove_session context_id m = record m { sessions = Dict.remove m.sessions context_id }

unfoldable pub session_count : FixtureManager → ℕ
session_count m = length m.sessions

unfoldable pub configure : FixtureConfig → FixtureManager → FixtureManager
configure config m = record m { config = config; max_age_seconds = config.max_age_seconds }

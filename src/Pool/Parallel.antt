-- ===== src/Pool/Parallel.antt =====
-- `execute_parallel` of crates/rpytest-daemon/src/pool.rs under any schedule that gives each task its
-- turns: where its results come from.
use rpytest.Common.{
  ℕ, suc, ◌≤◌, ◌≡◌, String, true, List, [], ◌∷◌, ◌++◌, All, ◌==◌, if◌then◌else◌, ◌⊎◌,
}
use rpytest.Models.{TestResult}
use rpytest.Pool.{Externals, Reply}
use rpytest.Pool.Worker.{Worker}
use rpytest.Pool.Workers.{BatchEnv}
use rpytest.Pool.Schedules.{Task, queued, spawns_one, holds, ran, returned, done, is_done, collect}
use rpytest.Pool.Answers.{ComeFrom, IsFor}

-- The replies that a schedule offers the task at a place, at any of its turns.
abbrev pub Offers : List (ℕ × BatchEnv) → ℕ → Reply → Type 0
Offers [] i reply = ⊥
Offers ((j, env) ∷ rest) i reply = ((i ≡ j) × (reply ≡ env.run.reply)) ⊎ Offers rest i reply

-- The turns that a schedule gives the task at a place.
abbrev pub turns_of : ℕ → List (ℕ × BatchEnv) → ℕ
turns_of i [] = 0
turns_of i ((j, env) ∷ rest) = if i == j then suc (turns_of i rest) else turns_of i rest

-- The turns that a task needs at most.
abbrev pub turns_left : Task → ℕ
turns_left (queued tests) = 5
turns_left (spawns_one tests) = 4
turns_left (holds tests w) = 3
turns_left (ran w rs) = 2
turns_left (returned rs) = 1
turns_left (done rs) = 0

-- The tasks stand one to one for the batches, and those from place `i` on need at most the turns
-- that `given` still gives them.
abbrev IsOnCourse :
    Externals → (ℕ → Reply → Type 0) → (ℕ → ℕ) → List (List String) → List Task → Type 0
IsOnCourse ex Q given [] [] = Unit
IsOnCourse ex Q given (b ∷ bs) (t ∷ ts) =
    IsFor ex (Q 0) b t
    × (turns_left t ≤ given 0)
    × IsOnCourse ex (λ i. Q (suc i)) (λ i. given (suc i)) bs ts
IsOnCourse ex Q given _ _ = ⊥

-- The results are those of each batch, one batch behind the other, and those of a batch come from its
-- tests and from the replies for its place.
abbrev pub AreOf : Externals → (ℕ → Reply → Type 0) → List (List String) → List TestResult → Type 0
AreOf ex Q [] rs = rs ≡ []
AreOf ex Q (b ∷ bs) rs =
    (first : List TestResult) × (later : List TestResult) × (rs ≡ first ++ later)
    × ComeFrom ex (Q 0) b first
    × AreOf ex (λ i. Q (suc i)) bs later

abbrev Collected : Externals → (ℕ → Reply → Type 0) → List (List String) → List Task → Type 0
Collected ex Q bs ts = All (λ t. is_done t ≡ true) ts × AreOf ex Q bs (collect ts)

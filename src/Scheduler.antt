-- ===== src/Scheduler.antt =====
-- crates/rpytest-daemon/src/scheduler.rs: estimates of durations, the order of a run, and the split
-- of a run into batches. Durations are `u64` milliseconds.
--
-- The estimate is an `f64` quotient of two sums weighted by powers of 1/2. Both sums are scaled here
-- by 2^(len - 1), which makes them whole numbers; for at most 10 durations below 2^42 ms the `f64`
-- sums are exact and the truncated quotient is the whole-number quotient.
pub mod Estimate
pub mod Order
pub mod Least
pub mod Balance
pub mod Batches
mod Examples
use rpytest.Common.{
  ℕ, zero, suc, ◌+◌, ◌*◌, ◌/◌, String, str_eq, Bool, true, false, not, ◌&&◌, ◌||◌, List, [], ◌∷◌,
  ◌++◌, map, Option, none, some, if◌then◌else◌, leb, ltb, add_u64, length, keep_last, any, filter,
  is_empty, replicate,
}
use rpytest.Common.Dict
use rpytest.Common.Dict.{Dict}
use rpytest.Common.Sort.{sort_falling}

pub record TestScheduler : Type 0 where
  pub duration_history : Dict (List ℕ)
  pub default_duration_ms : ℕ

-- `ScheduledTest` of models.rs
pub record ScheduledTest : Type 0 where
  pub node_id : String
  pub estimated_duration_ms : ℕ
  pub priority : ℕ

unfoldable pub new : TestScheduler
new = record { duration_history = []; default_duration_ms = 1000 }

abbrev or_default : Option (List ℕ) → List ℕ
or_default none = []
or_default (some ds) = ds

-- A history is cut to its last 10 durations.
unfoldable pub update_duration : TestScheduler → String → ℕ → TestScheduler
update_duration s node_id duration_ms =
    let history = or_default (Dict.get s.duration_history node_id) ++ duration_ms ∷ [] in
    record s { duration_history = Dict.insert s.duration_history node_id (keep_last 10 history) }

-- The loop over the durations: the weight doubles with each more recent duration.
unfoldable pub weigh : ℕ → ℕ → ℕ → List ℕ → ℕ × ℕ
weigh weight weighted_sum total_weight [] = (weighted_sum, total_weight)
weigh weight weighted_sum total_weight (d ∷ ds) =
    weigh (weight * 2) (weighted_sum + d * weight) (total_weight + weight) ds

unfoldable pub moving_average : List ℕ → ℕ
unfolding weigh
moving_average ds = let (weighted_sum, total_weight) = weigh 1 0 0 ds in weighted_sum / total_weight

abbrev estimate : ℕ → Option (List ℕ) → ℕ
estimate default none = default
estimate default (some []) = default
estimate default (some (d ∷ [])) = d
estimate default (some (d ∷ e ∷ ds)) = moving_average (d ∷ e ∷ ds)

unfoldable pub get_estimated_duration : TestScheduler → String → ℕ
get_estimated_duration s node_id =
    estimate s.default_duration_ms (Dict.get s.duration_history node_id)

abbrev pub contains : List String → String → Bool
contains xs k = any (λ x. str_eq x k) xs

unfoldable pub scheduled_test : TestScheduler → Bool → List String → String → ScheduledTest
scheduled_test s failed_first recent_failures node_id =
    let est = get_estimated_duration s node_id in
    record {
      node_id = node_id;
      estimated_duration_ms = est;
      priority =
          if failed_first && contains recent_failures node_id then add_u64 est 1_000_000 else est;
    }

-- No test gives no test on the first line of the source; so it does here.
unfoldable pub schedule : TestScheduler → List String → Bool → List String → List String
unfolding scheduled_test
schedule s node_ids failed_first recent_failures =
    map (λ (t : ScheduledTest). t.node_id)
      (sort_falling (λ t. t.priority)
        (map (scheduled_test s failed_first recent_failures) node_ids))

-- `min_by_key` gives the first of several least items.
unfoldable pub min_from : ℕ → ℕ → ℕ → List ℕ → ℕ
min_from best least i [] = best
min_from best least i (d ∷ ds) =
    min_from (if ltb d least then i else best) (if ltb d least then d else least) (i + 1) ds

unfoldable pub min_index : List ℕ → ℕ
unfolding min_from
min_index [] = 0
min_index (d ∷ ds) = min_from 0 d 1 ds

-- `v[i] = f(v[i])`
abbrev pub modify {ℓ} : {A : Type ℓ} → (A → A) → ℕ → List A → List A
modify f i [] = []
modify f zero (x ∷ xs) = f x ∷ xs
modify f (suc i) (x ∷ xs) = x ∷ modify f i xs

-- The greedy loop: each test goes to the batch with the least total so far.
unfoldable pub assign : List (String × ℕ) → List (List String) → List ℕ → List (List String)
unfolding min_index
assign [] batches batch_durations = batches
assign ((test, duration) ∷ rest) batches batch_durations =
    let i = min_index batch_durations in
    assign rest (modify (λ b. b ++ test ∷ []) i batches)
      (modify (λ d. add_u64 d duration) i batch_durations)

abbrev with_duration : TestScheduler → String → String × ℕ
with_duration s id = (id, get_estimated_duration s id)

unfoldable pub split_balanced : TestScheduler → List String → ℕ → List (List String)
unfolding assign
split_balanced s node_ids worker_count =
    if leb worker_count 1 || is_empty node_ids
    then node_ids ∷ []
    else filter (λ b. not (is_empty b))
        (assign (sort_falling (λ p. p.1) (map (with_duration s) node_ids))
          (replicate worker_count []) (replicate worker_count 0))

unfoldable pub clear_history : TestScheduler → TestScheduler
clear_history s = record s { duration_history = [] }

unfoldable pub get_history : TestScheduler → String → Option (List ℕ)
get_history s node_id = Dict.get s.duration_history node_id

unfoldable pub tracked_count : TestScheduler → ℕ
tracked_count s = length s.duration_history

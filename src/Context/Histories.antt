-- ===== src/Context/Histories.antt =====
-- The histories of the tests over a run (run_tests of crates/rpytest-daemon/src/context.rs).
use mathlib.Core.Path.{subst}
use rpytest.Flakiness.Tracker.{FlakinessTracker}
use mathlib.Core.List.{append_assoc, append-nil}
use rpytest.Common.{
  ℕ, ◌-◌, ◌≤◌, ◌≡◌, refl, sym, ap, ◌∙◌, String, str_eq, Bool, true, false, List, [], ◌∷◌, ◌++◌,
  length, Option, some, arith, Bool-cases, inl, inr, if◌then◌else◌, ltb, drop, keep_last,
  keep_last-keep_last, length-keep_last, Result, ok, err,
}
use rpytest.Common.Dict.{get, get-insert}
use rpytest.Common.TextLaws.{same_text}
use rpytest.Models.{TestResult, to_str}
use rpytest.Context.{
  RepoContext, split_skipped, Counts, count_outcome, cut, or_default, add_duration, add_outcome,
  process_result, process_all, RunEnv, RunSummary, prepared, save_state, or_summary, summary_of,
  tracker_flushed, no_counts, run_tests,
}
use rpytest.Context.Summary.{results_of}

-- The durations, and the words of the outcomes, of the results of one test.
abbrev pub durations_of : String → List TestResult → List ℕ
durations_of id [] = []
durations_of id (r ∷ rs) =
    let rest = durations_of id rs in if str_eq r.node_id id then r.duration_ms ∷ rest else rest

abbrev pub outcomes_of : String → List TestResult → List String
outcomes_of id [] = []
outcomes_of id (r ∷ rs) =
    let rest = outcomes_of id rs in if str_eq r.node_id id then to_str r.outcome ∷ rest else rest

abbrev pub durations : RepoContext → String → List ℕ
durations c id = or_default (get c.duration_history id)

abbrev pub outcomes : RepoContext → String → List String
outcomes c id = or_default (get c.outcome_history id)

keep_short : (xs : List ℕ) → length xs ≤ 10 → keep_last 10 xs ≡ xs
keep_short xs h = ap (λ k. drop k xs) no_more
  where
    no_more : length xs - 10 ≡ 0
    no_more = omega (arith, h)

cut-keep_last : (xs : List ℕ) → cut xs ≡ keep_last 10 xs
cut-keep_last xs = elim (Bool-cases (ltb 10 (length xs))) [
  | inl e ↦ rw e refl
  | inr e ↦ rw e (sym (keep_short xs (ground (arith, e))))
]

durations-process_result :
    (c : RepoContext) (r : TestResult) (id : String)
    → durations (process_result c r) id ≡ (
        if str_eq r.node_id id
        then keep_last 10 (durations c id ++ r.duration_ms ∷ [])
        else durations c id)
unfolding process_result add_duration
durations-process_result c r id =
    ap or_default (get-insert c.duration_history r.node_id id (cut new))
    ∙ by_id (str_eq r.node_id id) refl
  where
    new : List ℕ
    new = or_default (get c.duration_history r.node_id) ++ r.duration_ms ∷ []

    by_id :
        (p : Bool)
        → str_eq r.node_id id ≡ p
        → or_default (if p then some (cut new) else get c.duration_history id)
          ≡ (if p then keep_last 10 (durations c id ++ r.duration_ms ∷ []) else durations c id)
    by_id false e = refl
    by_id true e =
        cut-keep_last new
        ∙ ap (λ k. keep_last 10 (durations c k ++ r.duration_ms ∷ [])) (same_text r.node_id id e)

outcomes-process_result :
    (c : RepoContext) (r : TestResult) (id : String)
    → outcomes (process_result c r) id
      ≡ (if str_eq r.node_id id then outcomes c id ++ to_str r.outcome ∷ [] else outcomes c id)
unfolding process_result add_outcome
outcomes-process_result c r id =
    ap or_default (get-insert c.outcome_history r.node_id id new) ∙ by_id (str_eq r.node_id id) refl
  where
    new : List String
    new = or_default (get c.outcome_history r.node_id) ++ to_str r.outcome ∷ []

    by_id :
        (p : Bool)
        → str_eq r.node_id id ≡ p
        → or_default (if p then some new else get c.outcome_history id)
          ≡ (if p then outcomes c id ++ to_str r.outcome ∷ [] else outcomes c id)
    by_id false e = refl
    by_id true e = ap (λ k. outcomes c k ++ to_str r.outcome ∷ []) (same_text r.node_id id e)

durations-process_all :
    (rs : List TestResult) (c : RepoContext) (n : Counts) (id : String)
    → length (durations c id) ≤ 10
    → durations (process_all c n rs).0 id ≡ keep_last 10 (durations c id ++ durations_of id rs)
unfolding process_all
durations-process_all [] c n id h =
    rw (append-nil (durations c id)) (sym (keep_short (durations c id) h))
durations-process_all (r ∷ rs) c n id h =
    by_id (str_eq r.node_id id) (durations-process_result c r id)
      (durations-process_all rs (process_result c r) (count_outcome r.outcome n) id)
  where
    old : List ℕ
    old = durations c id

    by_id :
        (p : Bool)
        → durations (process_result c r) id
          ≡ (if p then keep_last 10 (old ++ r.duration_ms ∷ []) else old)
        → (length (durations (process_result c r) id) ≤ 10
            → durations (process_all (process_result c r) (count_outcome r.outcome n) rs).0 id
              ≡ keep_last 10 (durations (process_result c r) id ++ durations_of id rs))
        → durations (process_all (process_result c r) (count_outcome r.outcome n) rs).0 id
          ≡ keep_last 10
              (old ++ (if p then r.duration_ms ∷ durations_of id rs else durations_of id rs))
    by_id false step rest =
        rest (subst (λ xs. length xs ≤ 10) (sym step) h)
        ∙ ap (λ xs. keep_last 10 (xs ++ durations_of id rs)) step
    by_id true step rest =
        rest (
          subst (λ xs. length xs ≤ 10) (sym step) (length-keep_last 10 (old ++ r.duration_ms ∷ [])))
        ∙ ap (λ xs. keep_last 10 (xs ++ durations_of id rs)) step
        ∙ keep_last-keep_last 10 (old ++ r.duration_ms ∷ []) (durations_of id rs)
        ∙ ap (keep_last 10) (append_assoc old (r.duration_ms ∷ []) (durations_of id rs))

outcomes-process_all :
    (rs : List TestResult) (c : RepoContext) (n : Counts) (id : String)
    → outcomes (process_all c n rs).0 id ≡ outcomes c id ++ outcomes_of id rs
unfolding process_all
outcomes-process_all [] c n id = sym (append-nil (outcomes c id))
outcomes-process_all (r ∷ rs) c n id =
    outcomes-process_all rs (process_result c r) (count_outcome r.outcome n) id
    ∙ ap (λ xs. xs ++ outcomes_of id rs) (outcomes-process_result c r id)
    ∙ by_id (str_eq r.node_id id)
  where
    by_id :
        (p : Bool)
        → (if p then outcomes c id ++ to_str r.outcome ∷ [] else outcomes c id) ++ outcomes_of id rs
          ≡ outcomes c id ++ (if p then to_str r.outcome ∷ outcomes_of id rs else outcomes_of id rs)
    by_id false = refl
    by_id true = append_assoc (outcomes c id) (to_str r.outcome ∷ []) (outcomes_of id rs)

-- Saving changes no history.
save_state-histories :
    (env : RunEnv) (c : RepoContext) (s : RunSummary) (id : String)
    → (durations (or_summary s (save_state env c)).0 id ≡ durations c id)
      × (outcomes (or_summary s (save_state env c)).0 id ≡ outcomes c id)
unfolding save_state
save_state-histories env c s id = by_storage c.has_storage
  where
    summarized : (r : Result {0, 0} String Unit) (c' : RepoContext) → (or_summary s (c', r)).0 ≡ c'
    summarized (ok u) c' = refl
    summarized (err e) c' = refl

    flushed :
        (r : Result String FlakinessTracker)
        → (durations (or_summary s (tracker_flushed env c r)).0 id ≡ durations c id)
          × (outcomes (or_summary s (tracker_flushed env c r)).0 id ≡ outcomes c id)
    flushed (err e) = (refl, refl)
    flushed (ok t) =
        let same =
          summarized (env.save_durations c.duration_history) (record c { flakiness_tracker = t }) in
        (ap (λ c'. durations c' id) same, ap (λ c'. outcomes c' id) same)

    by_storage :
        (p : Bool)
        → (durations
              (or_summary s
                (if p then tracker_flushed env c (env.flush c.flakiness_tracker) else (c, ok tt))).0
              id
            ≡ durations c id)
          × (outcomes
                (or_summary s (
                  if p
                  then tracker_flushed env c (env.flush c.flakiness_tracker)
                  else (c, ok tt))).0
                id
              ≡ outcomes c id)
    by_storage true = flushed (env.flush c.flakiness_tracker)
    by_storage false = (refl, refl)

-- After a run, also one whose state could not be saved, a test's durations are the last ten of those
-- before and of its results in this run, and its outcomes are those before and then those of its results
-- in this run, all of them, if it had at most ten durations before.
pub run_tests_histories :
    (env : RunEnv) (node_ids : List String) (workers maxfail : Option ℕ) (c : RepoContext)
    (id : String)
    → length (durations c id) ≤ 10
    → (durations (run_tests env node_ids workers maxfail c).0 id
        ≡ keep_last 10
            (durations c id ++ durations_of id (results_of env node_ids workers maxfail c)))
      × (outcomes (run_tests env node_ids workers maxfail c).0 id
          ≡ outcomes c id ++ outcomes_of id (results_of env node_ids workers maxfail c))
unfolding run_tests prepared
run_tests_histories env node_ids workers maxfail c id h =
    let results = results_of env node_ids workers maxfail c in
    let c1 = prepared env workers maxfail c in
    let processed = process_all c1 no_counts results in
    let saved =
      save_state-histories env processed.0
        (summary_of (length results) (split_skipped c.inventory node_ids).1 env.elapsed_ms
          processed.1)
        id in
    (
      saved.0 ∙ durations-process_all results c1 no_counts id h,
      saved.1 ∙ outcomes-process_all results c1 no_counts id,
    )

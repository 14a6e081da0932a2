-- ===== src/Executor/Reading.antt =====
-- What parse_batch_output of crates/rpytest-daemon/src/executor.rs makes of a listing by pytest: each
-- test that the listing shows gets the outcome that it shows.
use Prim.Native.Char.{Char}
use mathlib.Core.Path.{subst}
use rpytest.Common.{
  ◌≡◌, ◌≢◌, ◌⊎◌, refl, ap, ◌∙◌, sym, String, str_eq, eq_iff, eq_refl, false, Option, none, some,
  List, [], ◌∷◌, map, All, arith, Option-cases, inl, inr, if◌then◌else◌,
}
use rpytest.Common.Dict.{Dict, get, insert, get-insert}
use rpytest.Common.Text.{after_first, after_last, behind_first, lines}
use rpytest.Models.{TestOutcome, passed, failed, skipped, error, xfail, xpass, TestResult}
use rpytest.Executor.Parse.{
  line_entry, line_outcomes, store, result_for, settle, Summary, summary_of, by_lines, by_summary,
  by_name, parse_batch_output,
}
use rpytest.Executor.Listing.{
  Line, shows, says, text_of, print, IsLine, entry, shown, IsAbsent, AreDistinct, lines-print,
  line_entry-text_of,
}

tail-after_last : (c : Char) (s : String) → after_last (String.◌∷◌ c s) ≡ none → after_last s ≡ none
unfolding after_last
tail-after_last c s h = ground arith

last_cases :
    (c : Char) (s r : String)
    → after_last (String.◌∷◌ c s) ≡ some r
    → (after_last s ≡ some r) ⊎ ((after_last s ≡ none) × (behind_first s ≡ r))
unfolding after_last
last_cases c s r h = ground arith

-- A name behind the last "::" has no "::".
after_last-after_last : (s r : String) → after_last s ≡ some r → after_last r ≡ none
after_last-after_last String.[] r h = absurd (unfold after_last in cc h)
after_last-after_last (String.◌∷◌ c s) r h = elim (last_cases c s r h) [
  | inl e ↦ after_last-after_last s r e
  | inr (e, b) ↦ subst (λ t. after_last t ≡ none) b (rest s e)
]
  where
    rest : (s : String) → after_last s ≡ none → after_last (behind_first s) ≡ none
    rest String.[] e = e
    rest (String.◌∷◌ d t) e = tail-after_last d t e

-- Storing an entry changes what is stored of another test only under the name behind its last "::".
get-store :
    (d : Dict TestOutcome) (ref id : String) (o : TestOutcome)
    → after_last id ≢ none
    → get (store (some (ref, o)) d) id ≡ (if str_eq ref id then some o else get d id)
get-store d ref id o h = elim (Option-cases (after_last ref)) [
  | inl e ↦ rw (store, e) (get-insert d ref id o)
  | inr (name, e) ↦
      rw (store, e, get-insert (insert d ref o) name id o, get-insert d ref id o)
        (ground (arith, eq_iff name id, after_last-after_last ref name e))
]

line_outcomes-line :
    (l : Line) (ls : List Line) (d : Dict TestOutcome)
    → IsLine l
    → line_outcomes (map text_of (l ∷ ls)) d ≡ line_outcomes (map text_of ls) (store (entry l) d)
unfolding line_outcomes
line_outcomes-line l ls d h =
    ap (λ e. line_outcomes (map text_of ls) (store e d)) (line_entry-text_of l h)

get-absent :
    (ls : List Line) (d : Dict TestOutcome) (id : String)
    → after_last id ≢ none
    → All IsLine ls
    → IsAbsent id (shown ls)
    → get (line_outcomes (map text_of ls) d) id ≡ get d id
get-absent [] d id h a n = unfold line_outcomes in refl
get-absent (says text ∷ ls) d id h a n =
    rw (line_outcomes-line (says text) ls d a.0) (get-absent ls d id h a.1 n)
get-absent (shows k o p ∷ ls) d id h a n = rw (line_outcomes-line (shows k o p) ls d a.0) (
    get-absent ls (store (some (k, o)) d) id h a.1 n.1
    ∙ get-store d k id o h
    ∙ ground (arith, eq_iff k id))

get-shown :
    (ls : List Line) (d : Dict TestOutcome)
    → All IsLine ls
    → AreDistinct (shown ls)
    → All (λ e. get (line_outcomes (map text_of ls) d) e.0 ≡ some e.1) (shown ls)
get-shown [] d a n = tt
get-shown (says text ∷ ls) d a n =
    rw (line_outcomes-line (says text) ls d a.0) (get-shown ls d a.1 n)
get-shown (shows k o p ∷ ls) d a n =
    subst (λ d'. All (λ e. get d' e.0 ≡ some e.1) (shown (shows k o p ∷ ls)))
      (sym (line_outcomes-line (shows k o p) ls d a.0))
      (
        get-absent ls (store (some (k, o)) d) k a.0.2 a.1 n.0
            ∙ get-store d k k o a.0.2
            ∙ rw (eq_refl k) refl,
        get-shown ls (store (some (k, o)) d) a.1 n.1,
      )

outcome_is_word : (ls : List Line) → All IsLine ls → All (λ e. e.1 ≢ error) (shown ls)
outcome_is_word [] a = tt
outcome_is_word (says text ∷ ls) a = outcome_is_word ls a.1
outcome_is_word (shows k o p ∷ ls) a = (a.0.3, outcome_is_word ls a.1)

settle-word : (s : Summary) (o : TestOutcome) → o ≢ error → settle s o ≡ o
settle-word s passed h = refl
settle-word s failed h = refl
settle-word s skipped h = refl
settle-word s error h = absurd (h refl)
settle-word s xfail h = refl
settle-word s xpass h = refl

-- The test and the outcome of a result.
abbrev pub said : TestResult → String × TestOutcome
said r = (r.node_id, r.outcome)

settle-get :
    (d : Dict TestOutcome) (s : Summary) (k : String) (o : TestOutcome)
    → get d k ≡ some o
    → o ≢ error
    → settle s (by_lines d k) ≡ o
settle-get d s k o g h =
    ap (λ r. settle s (elim r [ some o' ↦ o' | none ↦ by_name d (after_first k) ])) g
    ∙ settle-word s o h

results_say :
    (d : Dict TestOutcome) (s : Summary) (es : List (String × TestOutcome))
    → All (λ e. get d e.0 ≡ some e.1) es
    → All (λ e. e.1 ≢ error) es
    → map said (map (result_for d s) (map (λ e. e.0) es)) ≡ es
results_say d s [] g w = refl
results_say d s ((k, o) ∷ es) g w = cc (settle-get d s k o g.0 w.0, results_say d s es g.1 w.1)

-- From a listing in which each test has one line, with an id that has a "::" and no white space and
-- with a word for its outcome, among any other lines that show no outcome, the tests of the listing
-- get back just the outcomes that it shows, whatever its summary says.
pub parse_batch_output-print :
    (ls : List Line)
    → All IsLine ls
    → AreDistinct (shown ls)
    → map said (parse_batch_output (map (λ e. e.0) (shown ls)) (print ls)) ≡ shown ls
unfolding parse_batch_output
parse_batch_output-print ls a n = rw (lines-print ls a) (
    results_say (line_outcomes (map text_of ls) []) (summary_of (print ls)) (shown ls)
      (get-shown ls [] a n) (outcome_is_word ls a))

-- No line of these shows an outcome.
abbrev IsSilent : List String → Type 0
IsSilent ls = All (λ l. line_entry l ≡ none) ls

line_outcomes-silent :
    (ls : List String) (d : Dict TestOutcome) → IsSilent ls → line_outcomes ls d ≡ d
unfolding line_outcomes
line_outcomes-silent [] d h = refl
line_outcomes-silent (l ∷ ls) d h = rw h.0 (line_outcomes-silent ls d h.1)

by_lines-empty : (k : String) → by_lines [] k ≡ error
unfolding get
by_lines-empty k = no_name (after_first k)
  where
    no_name : (o : Option String) → by_name [] o ≡ error
    no_name none = refl
    no_name (some name) = refl

by_summary-passes :
    (s : Summary) → s.failed ≡ false → s.errors ≡ false → s.skipped ≡ false → by_summary s ≡ passed
by_summary-passes s f e k = ground (arith, f, e, k)

-- If no line of the output shows an outcome, and the output has none of the phrases by which a summary
-- tells of failed tests, errors and skipped tests, then each test of the batch passes.
silent_output_passes :
    (node_ids : List String) (output : String)
    → IsSilent (lines output)
    → (summary_of output).failed ≡ false
    → (summary_of output).errors ≡ false
    → (summary_of output).skipped ≡ false
    → All (λ r. r.outcome ≡ passed) (parse_batch_output node_ids output)
unfolding parse_batch_output
silent_output_passes node_ids output h f e k =
    subst (λ d. All (λ r. r.outcome ≡ passed) (map (result_for d (summary_of output)) node_ids))
      (sym (line_outcomes-silent (lines output) [] h)) (all node_ids)
  where
    all :
        (ids : List String)
        → All (λ r. r.outcome ≡ passed) (map (result_for [] (summary_of output)) ids)
    all [] = tt
    all (id ∷ ids) = (
      ap (settle (summary_of output)) (by_lines-empty id)
          ∙ by_summary-passes (summary_of output) f e k,
      all ids,
    )

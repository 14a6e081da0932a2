-- ===== src/Executor/Parse.antt =====
-- How the executor reads the output of pytest (parse_batch_output, parse_pytest_output and
-- extract_message of crates/rpytest-daemon/src/executor.rs).
use Prim.Native.Char.{code}
use mathlib.Core.Option
use rpytest.Common.{
  ℕ, ◌==◌, String, Bool, not, ◌&&◌, ◌||◌, List, [], ◌∷◌, map, Option, none, some, if◌then◌else◌,
}
use rpytest.Common.Dict.{Dict, get, insert}
use rpytest.Common.Text.{has_part, has_prefix, split_whitespace, lines, after_first, after_last}
use rpytest.Models.{TestOutcome, passed, failed, skipped, error, xfail, xpass, TestResult}

-- The outcome that a word of a line shows.
unfoldable pub status_of : String → Option TestOutcome
unfolding has_prefix
status_of word =
    if has_prefix word "PASSED"
    then some passed
    else if has_prefix word "FAILED"
    then some failed
    else if has_prefix word "SKIPPED"
    then some skipped
    else if has_prefix word "XFAIL"
    then some xfail
    else if has_prefix word "XPASS"
    then some xpass
    else none

-- `parts.find_map`
unfoldable pub find_status : List String → Option TestOutcome
unfolding status_of
find_status [] = none
find_status (word ∷ words) =
    let later = find_status words in elim (status_of word) [ some o ↦ some o | none ↦ later ]

abbrev pub entry_of : List String → Option (String × TestOutcome)
entry_of [] = none
entry_of (test_ref ∷ words) = elim (find_status words) [ some o ↦ some (test_ref, o) | none ↦ none ]

-- What one line says: the test and its outcome, if it has both.
unfoldable pub line_entry : String → Option (String × TestOutcome)
unfolding split_whitespace find_status
line_entry line = entry_of (split_whitespace line)

-- An outcome is stored by the full reference, and by the name behind the last "::".
abbrev pub store : Option (String × TestOutcome) → Dict TestOutcome → Dict TestOutcome
store none d = d
store (some (test_ref, o)) d = elim (after_last test_ref) [
  | none ↦ insert d test_ref o
  | some test_name ↦ insert (insert d test_ref o) test_name o
]

unfoldable pub line_outcomes : List String → Dict TestOutcome → Dict TestOutcome
unfolding line_entry
line_outcomes [] d = d
line_outcomes (line ∷ ls) d = line_outcomes ls (store (line_entry line) d)

-- What the summary lines say, wherever they stand.
pub record Summary : Type 0 where
  pub passed : Bool
  pub failed : Bool
  pub skipped : Bool
  pub errors : Bool

abbrev pub summary_of : String → Summary
summary_of output = record {
  passed = has_part output " passed]" || has_part output " passed in";
  failed = has_part output " failed]" || has_part output " failed in";
  skipped = has_part output " skipped]" || has_part output " skipped in";
  errors = has_part output " error]" || has_part output " errors in";
}

abbrev pub or_error : Option TestOutcome → TestOutcome
or_error none = error
or_error (some o) = o

abbrev pub by_name : Dict TestOutcome → Option String → TestOutcome
by_name d none = error
by_name d (some test_name) = or_error (get d test_name)

-- The outcome by the lines: by the whole id, else by the name behind the first "::".
abbrev pub by_lines : Dict TestOutcome → String → TestOutcome
by_lines d node_id = elim (get d node_id) [ some o ↦ o | none ↦ by_name d (after_first node_id) ]

abbrev pub by_summary : Summary → TestOutcome
by_summary s =
    if s.passed && not s.failed
    then passed
    else if s.failed && not s.passed
    then failed
    else if s.errors
    then error
    else if s.skipped
    then skipped
    else passed

-- If the lines do not tell, the summary does.
abbrev pub settle : Summary → TestOutcome → TestOutcome
settle s error = by_summary s
settle s o = o

abbrev pub result_for : Dict TestOutcome → Summary → String → TestResult
result_for d s node_id = record {
  node_id = node_id;
  outcome = settle s (by_lines d node_id);
  duration_ms = 0;
  message = none;
  stdout = none;
  stderr = none;
}

unfoldable pub parse_batch_output : List String → String → List TestResult
unfolding line_outcomes lines after_first after_last
parse_batch_output node_ids output =
    map (result_for (line_outcomes (lines output) []) (summary_of output)) node_ids

-- The output of a run of one test.
unfoldable pub parse_pytest_output : String → TestOutcome
parse_pytest_output output =
    if has_part output "1 passed" || has_part output "PASSED"
    then passed
    else if has_part output "1 failed" || has_part output "FAILED"
    then failed
    else if has_part output "1 skipped" || has_part output "SKIPPED"
    then skipped
    else error

unfoldable pub first_message : List String → Option String
first_message [] = none
first_message (line ∷ ls) =
    let later = first_message ls in
    if has_part line "AssertionError" || (has_part line "Error:" || has_part line "FAILED:")
    then some line
    else later

unfoldable pub extract_message : String → Option String
unfolding first_message lines
extract_message output = first_message (lines output)

-- What stands before the first ']'.
unfoldable pub before_close : String → Option String
before_close String.[] = none
before_close (String.◌∷◌ c s) =
    let rest = before_close s in
    if code c == 93 then some String.[] else Option.map (String.◌∷◌ c) rest

-- What stands between the first '[' and the first ']' behind it.
unfoldable pub in_brackets : String → Option String
unfolding before_close
in_brackets String.[] = none
in_brackets (String.◌∷◌ c s) =
    let rest = in_brackets s in if code c == 91 then before_close s else rest

-- `replace("s", "")`
unfoldable pub without_s : String → String
without_s String.[] = String.[]
without_s (String.◌∷◌ c s) =
    let rest = without_s s in if code c == 115 then rest else String.◌∷◌ c rest

abbrev pub seconds_of : (String → Option ℕ) → Option String → Option ℕ
seconds_of millis none = none
seconds_of millis (some t) = if has_part t "s" then millis (without_s t) else none

abbrev pub line_duration : (String → Option ℕ) → String → Option ℕ
line_duration millis line =
    if has_part line "passed" || has_part line "failed"
    then seconds_of millis (in_brackets line)
    else none

unfoldable pub first_duration : (String → Option ℕ) → List String → Option ℕ
unfolding in_brackets without_s
first_duration millis [] = none
first_duration millis (line ∷ ls) =
    let later = first_duration millis ls in
    elim (line_duration millis line) [ some d ↦ some d | none ↦ later ]

-- `millis` reads a number of seconds as an `f64` and gives its milliseconds.
unfoldable pub extract_duration : (String → Option ℕ) → String → Option ℕ
unfolding first_duration lines
extract_duration millis output = first_duration millis (lines output)

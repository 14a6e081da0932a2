-- ===== src/Executor/Listing.antt =====
-- What pytest prints with `-v`, and what parse_batch_output of
-- crates/rpytest-daemon/src/executor.rs reads from it.
use Prim.Native.String.{◌++◌}
use text.Mathlib.TextLemmas.{append-nil}
use rpytest.Common.{◌≡◌, ◌≢◌, Option, none, some, refl, ap, String, List, [], ◌∷◌, map, All}
use rpytest.Models.{TestOutcome, passed, failed, skipped, error, xfail, xpass}
use rpytest.Executor.Parse.{line_entry, entry_of, find_status}
use rpytest.Common.TextLaws.{
  AllChars, IsInk, IsInLine, append_chars, strip_return-in_line, lines_from-line, words_from-word,
  words_from-space, ink-IsInLine, behind, append_behind,
}
use rpytest.Common.Text.{keep_word, after_last, words_from, split_whitespace, lines}

-- A line of the listing: one that shows a test, its outcome and the progress behind it, or another.
pub data Line : Type 0 where
  shows : String → TestOutcome → String → Line
  says : String → Line

abbrev pub status_word : TestOutcome → String
status_word passed = "PASSED"
status_word failed = "FAILED"
status_word skipped = "SKIPPED"
status_word error = "ERROR"
status_word xfail = "XFAIL"
status_word xpass = "XPASS"

abbrev pub text_of : Line → String
text_of (shows node_id o progress) = node_id ++ (" " ++ (status_word o ++ progress))
text_of (says text) = text

abbrev pub print : List Line → String
print [] = ""
print (l ∷ ls) = text_of l ++ ("\n" ++ print ls)

-- A test's line shows an id without white space and with a "::", and an outcome that has a word;
-- another line shows no outcome. No line holds a line break.
abbrev pub IsLine : Line → Type 0
IsLine (shows node_id o progress) =
    AllChars IsInk node_id
    × (node_id ≢ "")
    × (after_last node_id ≢ none)
    × (o ≢ error)
    × AllChars IsInLine progress
IsLine (says text) = AllChars IsInLine text × (line_entry text ≡ none)

abbrev pub entry : Line → Option (String × TestOutcome)
entry (shows node_id o progress) = some (node_id, o)
entry (says text) = none

word-IsInk : (o : TestOutcome) → AllChars IsInk (status_word o)
word-IsInk passed = (refl, (refl, (refl, (refl, (refl, (refl, tt))))))
word-IsInk failed = (refl, (refl, (refl, (refl, (refl, (refl, tt))))))
word-IsInk skipped = (refl, (refl, (refl, (refl, (refl, (refl, (refl, tt)))))))
word-IsInk error = (refl, (refl, (refl, (refl, (refl, tt)))))
word-IsInk xfail = (refl, (refl, (refl, (refl, (refl, tt)))))
word-IsInk xpass = (refl, (refl, (refl, (refl, (refl, tt)))))

text_of-IsInLine : (l : Line) → IsLine l → AllChars IsInLine (text_of l)
text_of-IsInLine (shows node_id o progress) h =
    append_chars IsInLine node_id _ (ink-IsInLine node_id h.0) (
      append_chars IsInLine " " _ ((refl, refl), tt)
        (append_chars IsInLine (status_word o) progress
          (ink-IsInLine (status_word o) (word-IsInk o)) h.4))
text_of-IsInLine (says text) h = h.0

-- The lines of what is printed are the lines.
pub lines-print : (ls : List Line) → All IsLine ls → lines (print ls) ≡ map text_of ls
unfolding lines
lines-print [] a = refl
lines-print (l ∷ ls) a =
    let short = text_of-IsInLine l a.0 in
    rw (lines_from-line (text_of l) (print ls) short, strip_return-in_line (text_of l) short)
      (ap (◌∷◌ (text_of l)) (lines-print ls a.1))

find_status-word :
    (o : TestOutcome) (w : String) (ws : List String)
    → o ≢ error
    → find_status (keep_word (status_word o ++ w) ws) ≡ some o
unfolding find_status
find_status-word o w ws h = rw (append_behind (status_word o) w) (go o h)
  where
    go :
        (o : TestOutcome)
        → o ≢ error
        → find_status (keep_word (behind (status_word o) w) ws) ≡ some o
    go passed h = refl
    go failed h = refl
    go skipped h = refl
    go error h = absurd (h refl)
    go xfail h = refl
    go xpass h = refl

-- The words of a test's line behind the id.
abbrev tail : TestOutcome → String → List String
tail o progress = let (w, ws) = words_from progress in keep_word (status_word o ++ w) ws

split_line :
    (node_id : String) (o : TestOutcome) (progress : String)
    → AllChars IsInk node_id
    → split_whitespace (node_id ++ (" " ++ (status_word o ++ progress)))
      ≡ keep_word node_id (tail o progress)
unfolding split_whitespace
split_line node_id o progress h =
    rw
      (
        words_from-word node_id _ h,
        words_from-space,
        words_from-word (status_word o) progress (word-IsInk o),
        append-nil node_id,
      )
      refl

-- A test's line is read as the test and its outcome.
pub line_entry-text_of : (l : Line) → IsLine l → line_entry (text_of l) ≡ entry l
unfolding line_entry
line_entry-text_of (says text) h = h.1
line_entry-text_of (shows node_id o progress) h =
    rw (split_line node_id o progress h.0) (go node_id h.1)
  where
    go : (id : String) → id ≢ "" → entry_of (keep_word id (tail o progress)) ≡ some (id, o)
    go String.[] n = absurd (n refl)
    go (String.◌∷◌ c s) n =
        rw (find_status-word o (words_from progress).0 (words_from progress).1 h.3, entry_of) refl

-- The tests that a listing shows, with their outcomes.
abbrev pub shown : List Line → List (String × TestOutcome)
shown [] = []
shown (shows node_id o progress ∷ ls) = (node_id, o) ∷ shown ls
shown (says text ∷ ls) = shown ls

-- No other entry is of the test.
abbrev pub IsAbsent : String → List (String × TestOutcome) → Type 0
IsAbsent id es = All (λ e. e.0 ≢ id) es

-- No test is shown twice.
abbrev pub AreDistinct : List (String × TestOutcome) → Type 0
AreDistinct [] = Unit
AreDistinct (e ∷ es) = IsAbsent e.0 es × AreDistinct es

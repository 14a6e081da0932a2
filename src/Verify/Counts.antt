-- ===== src/Verify/Counts.antt =====
-- The counts that crates/rpytest/src/verify/dropin.rs reads from the output of a run
-- (parse_pytest_summary and its helpers).
use Prim.Native.Char.{code}
use rpytest.Common.{
  ℕ, ◌+◌, ◌-◌, ◌*◌, String, str_eq, ◌&&◌, ◌||◌, ◌==◌, leb, ltb, List, [], ◌∷◌, Option, none, some,
  if◌then◌else◌,
}
use rpytest.Common.Text.{has_part, has_prefix, has_suffix, split_whitespace, lines}

pub record Counts : Type 0 where
  pub collected : ℕ
  pub passed : ℕ
  pub failed : ℕ
  pub skipped : ℕ
  pub errors : ℕ

abbrev pub no_counts : Counts
no_counts = record { collected = 0; passed = 0; failed = 0; skipped = 0; errors = 0 }

-- The number of a text of digits read so far, if it is below 2^64.
abbrev pub next_digit : ℕ → ℕ → Option ℕ
next_digit n c =
    if leb 48 c && (leb c 57 && ltb (10 * n + (c - 48)) 18_446_744_073_709_551_616)
    then some (10 * n + (c - 48))
    else none

unfoldable pub read_digits : ℕ → String → Option ℕ
read_digits n String.[] = some n
read_digits n (String.◌∷◌ c s) = elim (next_digit n (code c)) [
  | some m ↦ read_digits m s
  | none ↦ none
]

abbrev pub read_nonempty : String → Option ℕ
read_nonempty String.[] = none
read_nonempty (String.◌∷◌ c s) = read_digits 0 (String.◌∷◌ c s)

-- `parse::<usize>`: a plus sign may stand before the digits.
unfoldable pub parse_usize : String → Option ℕ
unfolding read_digits
parse_usize String.[] = none
parse_usize (String.◌∷◌ c s) =
    if code c == 43 then read_nonempty s else read_digits 0 (String.◌∷◌ c s)

-- The first two words in a row whose second passes the test: what the first says.
unfoldable pub number_before : String → List String → Option ℕ
unfolding parse_usize has_prefix
number_before word (a ∷ b ∷ rest) =
    let later = number_before word (b ∷ rest) in if has_prefix b word then parse_usize a else later
number_before word _ = none

unfoldable pub extract_number_before : String → String → Option ℕ
unfolding number_before split_whitespace
extract_number_before text word = number_before word (split_whitespace text)

unfoldable pub number_after : String → List String → Option ℕ
unfolding parse_usize has_suffix
number_after word (a ∷ b ∷ rest) =
    let later = number_after word (b ∷ rest) in
    if str_eq a word || has_suffix a word then parse_usize b else later
number_after word _ = none

unfoldable pub extract_number_after : String → String → Option ℕ
unfolding number_after split_whitespace
extract_number_after text word = number_after word (split_whitespace text)

abbrev pub or_old : ℕ → Option ℕ → ℕ
or_old n none = n
or_old n (some m) = m

abbrev pub read_collected : String → Counts → Counts
read_collected line c =
    if has_part line "collected" && has_part line "item"
    then record c { collected = or_old c.collected (extract_number_after line "collected") }
    else c

abbrev pub read_running : String → Counts → Counts
read_running line c =
    if has_part line "Running" && has_part line "tests"
    then record c { collected = or_old c.collected (extract_number_after line "Running") }
    else c

abbrev pub read_summary : String → Counts → Counts
read_summary line c =
    if has_part line "passed" || (has_part line "failed" || has_part line "error")
    then record {
      collected = c.collected;
      passed = or_old c.passed (extract_number_before line "passed");
      failed = or_old c.failed (extract_number_before line "failed");
      skipped = or_old c.skipped (extract_number_before line "skipped");
      errors = or_old c.errors (extract_number_before line "error");
    }
    else c

abbrev pub read_line : String → Counts → Counts
read_line line c = read_summary line (read_running line (read_collected line c))

unfoldable pub read_lines : List String → Counts → Counts
unfolding extract_number_after extract_number_before
read_lines [] c = c
read_lines (line ∷ ls) c = read_lines ls (read_line line c)

unfoldable pub parse_pytest_summary : String → Counts
unfolding read_lines lines
parse_pytest_summary output = read_lines (lines output) no_counts

-- ===== src/Verify/Compare.antt =====
-- The comparison of two runs and the verdict (compare_results and verify_dropin of
-- crates/rpytest/src/verify/dropin.rs). The processes, the normalization by regular expressions and
-- the printing of a list of ids and of seconds are arguments. An exit code is the bits of an i32, and
-- a set of ids is a list without doubles.
use Prim.Native.String.{◌++◌ as append}
use rpytest.Common.{
  ℕ, ◌-◌, String, str_eq, Bool, not, ◌&&◌, ◌||◌, ◌==◌, leb, List, [], ◌∷◌, Option, none, some,
  if◌then◌else◌, is_empty, length, any, filter, map, ◌++◌,
}
use rpytest.Common.Text.{has_part, split_whitespace, lines, decimal, trim, is_empty_text, join}
use rpytest.Verify.{
  DiffKind, OutputDiff, is_critical, exit_code, test_count, passed_count, failed_count,
  skipped_count, missing_tests, extra_tests, output_content,
}
use rpytest.Verify.Counts.{Counts, parse_pytest_summary}

pub record RunResult : Type 0 where
  pub exit_code : ℕ
  pub stdout : String
  pub stderr : String
  pub duration : ℕ
  pub counts : Counts

-- What a process gives: its exit code if it has one, its two outputs and the time it took.
pub record Output : Type 0 where
  pub code : Option ℕ
  pub stdout : String
  pub stderr : String
  pub duration : ℕ

-- The two replacements by regular expressions, and the printing of lists of ids and of seconds.
pub record Externals : Type 0 where
  pub remove_ansi : String → String
  pub mask_timing : String → String
  pub show_ids : List String → String
  pub show_secs : ℕ → String

abbrev pub stripped_lines : List String → List String
stripped_lines ls = filter (λ l. not (is_empty_text l)) (map trim ls)

unfoldable pub normalize_output : Externals → String → String
unfolding lines trim join
normalize_output ex output =
    join "\n" (stripped_lines (lines (ex.mask_timing (ex.remove_ansi output))))

abbrev pub contains : List String → String → Bool
contains ids id = any (λ j. str_eq j id) ids

-- `HashSet::insert`
abbrev pub insert : String → List String → List String
insert id ids = if contains ids id then ids else id ∷ ids

abbrev pub shows_test : String → Bool
shows_test line =
    has_part line "::"
    && (has_part line "PASSED"
        || (has_part line "FAILED" || (has_part line "SKIPPED" || has_part line "ERROR")))

abbrev pub insert_first : List String → List String → List String
insert_first [] ids = ids
insert_first (word ∷ words) ids = if has_part word "::" then insert word ids else ids

abbrev pub insert_line : String → List String → List String
insert_line line ids = if shows_test line then insert_first (split_whitespace line) ids else ids

unfoldable pub insert_lines : List String → List String → List String
unfolding trim split_whitespace
insert_lines [] ids = ids
insert_lines (line ∷ ls) ids = insert_lines ls (insert_line (trim line) ids)

unfoldable pub extract_test_node_ids : String → List String
unfolding insert_lines lines
extract_test_node_ids output = insert_lines (lines output) []

abbrev pub difference : List String → List String → List String
difference ids others = filter (λ id. not (contains others id)) ids

-- `to_string` of an i32
unfoldable pub show_i32 : ℕ → String
unfolding decimal
show_i32 bits =
    if leb bits 2_147_483_647 then decimal bits else append "-" (decimal (4_294_967_296 - bits))

-- One difference of two numbers, if they differ.
abbrev pub number_diff : DiffKind → (ℕ → String) → String → ℕ → ℕ → List OutputDiff
number_diff kind show context a b =
    if a == b
    then []
    else record { kind = kind; expected = show a; actual = show b; context = context } ∷ []

abbrev pub counts_match : Counts → Counts → Bool
counts_match a b =
    a.collected == b.collected
    && (a.passed == b.passed && (a.failed == b.failed && a.skipped == b.skipped))

abbrev pub missing_diff : Externals → List String → Bool → List OutputDiff
missing_diff ex only match =
    if not (is_empty only) && not match
    then record {
      kind = missing_tests;
      expected = append (decimal (length only)) " tests";
      actual = "missing";
      context = append "Tests in pytest but not rpytest: " (ex.show_ids only);
    }
      ∷ []
    else []

abbrev pub extra_diff : Externals → List String → Bool → List OutputDiff
extra_diff ex only match =
    if not (is_empty only) && not match
    then record {
      kind = extra_tests;
      expected = "none";
      actual = append (decimal (length only)) " extra tests";
      context = append "Tests in rpytest but not pytest: " (ex.show_ids only);
    }
      ∷ []
    else []

abbrev pub test_diffs : Externals → List String → List String → Bool → List OutputDiff
test_diffs ex pytest_tests rpytest_tests match =
    if (not (is_empty pytest_tests) && not (is_empty rpytest_tests)) || not match
    then missing_diff ex (difference pytest_tests rpytest_tests) match
      ++ extra_diff ex (difference rpytest_tests pytest_tests) match
    else []

abbrev pub strict_diff : Externals → Bool → String → String → List OutputDiff
strict_diff ex strict_output pytest rpytest =
    if strict_output && not (str_eq (normalize_output ex pytest) (normalize_output ex rpytest))
    then record {
      kind = output_content;
      expected = "matching output";
      actual = "different output";
      context = "Output content differs (strict mode)";
    }
      ∷ []
    else []

unfoldable pub compare_results : Externals → Bool → RunResult → RunResult → List OutputDiff
unfolding show_i32 decimal extract_test_node_ids normalize_output
compare_results ex strict_output p r =
    number_diff exit_code show_i32 "Exit code mismatch" p.exit_code r.exit_code
    ++ (number_diff test_count decimal "Collection count mismatch" p.counts.collected
          r.counts.collected
        ++ (number_diff passed_count decimal "Passed count mismatch" p.counts.passed r.counts.passed
            ++ (number_diff failed_count decimal "Failed count mismatch" p.counts.failed
                  r.counts.failed
                ++ (number_diff skipped_count decimal "Skipped count mismatch" p.counts.skipped
                      r.counts.skipped
                    ++ (test_diffs ex (extract_test_node_ids p.stdout)
                          (extract_test_node_ids r.stdout) (counts_match p.counts r.counts)
                        ++ strict_diff ex strict_output p.stdout r.stdout)))))

abbrev pub or_minus_one : Option ℕ → ℕ
or_minus_one none = 4_294_967_295
or_minus_one (some code) = code

-- The result of pytest reads the standard output; that of rpytest, both outputs.
unfoldable pub run_pytest : Output → RunResult
unfolding parse_pytest_summary
run_pytest o = record {
  exit_code = or_minus_one o.code;
  stdout = o.stdout;
  stderr = o.stderr;
  duration = o.duration;
  counts = parse_pytest_summary o.stdout;
}

unfoldable pub run_rpytest : Output → RunResult
unfolding parse_pytest_summary
run_rpytest o = record {
  exit_code = or_minus_one o.code;
  stdout = o.stdout;
  stderr = o.stderr;
  duration = o.duration;
  counts = parse_pytest_summary (append o.stdout (append "\n" o.stderr));
}

pub record VerifyResult : Type 0 where
  pub passed : Bool
  pub pytest : RunResult
  pub rpytest : RunResult
  pub diffs : List OutputDiff
  pub summary : String

abbrev pub show_counts : Counts → String
show_counts c = append (decimal c.collected) (
    append " collected, " (
      append (decimal c.passed) (
        append " passed, " (
          append (decimal c.failed) (append " failed, " (append (decimal c.skipped) " skipped"))))))

abbrev pub show_time : Externals → RunResult → String
show_time ex r = append " in " (append (ex.show_secs r.duration) "s")

abbrev pub summary_of : Externals → Bool → List OutputDiff → RunResult → RunResult → String
summary_of ex passed diffs p r =
    if passed
    then append "Verification PASSED: pytest and rpytest produced compatible results\npytest:  " (
        append (show_counts p.counts) (
          append (show_time ex p)
            (append "\nrpytest: " (append (show_counts r.counts) (show_time ex r)))))
    else append "Verification FAILED: " (
        append (decimal (length (filter (λ d. is_critical d.kind) diffs))) (
          append " critical difference(s) found\npytest:  "
            (append (show_counts p.counts) (append "\nrpytest: " (show_counts r.counts)))))

unfoldable pub no_critical : List OutputDiff → Bool
unfolding is_critical
no_critical diffs = not (any (λ d. is_critical d.kind) diffs)

-- `verify_dropin` of what the two processes give.
unfoldable pub verify_dropin : Externals → Bool → Output → Output → VerifyResult
unfolding run_pytest run_rpytest compare_results no_critical is_critical decimal
verify_dropin ex strict_output pytest rpytest =
    let p = run_pytest pytest in
    let r = run_rpytest rpytest in
    let diffs = compare_results ex strict_output p r in
    record {
      passed = no_critical diffs;
      pytest = p;
      rpytest = r;
      diffs = diffs;
      summary = summary_of ex (no_critical diffs) diffs p r;
    }

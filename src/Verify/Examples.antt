-- ===== src/Verify/Examples.antt =====
-- Tests of the verification, and its theorem at concrete runs.
use rpytest.Common.{◌≡◌, ◌↔◌, refl, String, true, false, [], ◌∷◌, some}
use rpytest.Verify.{passed_count, format}
use rpytest.Verify.Counts.{parse_pytest_summary, parse_usize, extract_number_after}
use rpytest.Verify.Compare.{
  Externals, Output, verify_dropin, run_pytest, run_rpytest, extract_test_node_ids,
}
use rpytest.Verify.Verdict.{RunsAgree, verify_dropin_passes}

abbrev output : String
output =
    "collected 10 items\ntest_foo.py::test_one PASSED\ntest_foo.py::test_two FAILED\n===== 8 passed, 1 failed, 1 skipped in 1.23s ====="

counts_of_output :
    parse_pytest_summary output
    ≡ record { collected = 10; passed = 8; failed = 1; skipped = 1; errors = 0 }
unfolding parse_pytest_summary
counts_of_output = refl

ids_of_output :
    extract_test_node_ids output ≡ "test_foo.py::test_two" ∷ "test_foo.py::test_one" ∷ []
unfolding extract_test_node_ids
ids_of_output = refl

number_after_running : extract_number_after "Running 6 tests..." "Running" ≡ some 6
unfolding extract_number_after
number_after_running = refl

signed_number : parse_usize "+42" ≡ some 42
unfolding parse_usize
signed_number = refl

formatted :
    format record { kind = passed_count; expected = "10"; actual = "9"; context = "One" }
    ≡ "[CRITICAL] Passed count: expected '10', got '9'\n  One"
unfolding format
formatted = refl

abbrev externals : Externals
externals = record {
  remove_ansi = λ t. t;
  mask_timing = λ t. t;
  show_ids = λ ids. "[..]";
  show_secs = λ n. "0.00";
}

abbrev pytest : Output
pytest = record { code = some 1; stdout = output; stderr = ""; duration = 5 }

-- A run with errors that pytest does not have, and with other tests.
abbrev rpytest_run : Output
rpytest_run = record {
  code = some 1;
  stdout =
      "Running 10 tests...\na.py::other PASSED\n=== 8 passed, 1 failed, 1 skipped, 3 errors in 0.44s ===";
  stderr = "";
  duration = 2;
}

errors_unseen : (verify_dropin externals false pytest rpytest_run).passed ≡ true
unfolding verify_dropin
errors_unseen = refl

verify_dropin_passes_example :
    ((verify_dropin externals true pytest rpytest_run).passed ≡ true)
    ↔ RunsAgree (run_pytest pytest) (run_rpytest rpytest_run)
verify_dropin_passes_example = verify_dropin_passes externals true pytest rpytest_run

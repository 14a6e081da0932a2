-- ===== src/Verify.antt =====
-- crates/rpytest/src/verify/diff.rs: the kinds of difference between a run of pytest and one of
-- rpytest. The runs, their counts and the comparison are in the children.
pub mod Counts
pub mod Compare
pub mod Verdict
mod Examples
use Prim.Native.String.{◌++◌}
use rpytest.Common.{String, Bool, true, false, if◌then◌else◌}

pub data DiffKind : Type 0 where
  exit_code test_count passed_count failed_count skipped_count error_count missing_tests extra_tests
        output_content timing :
      DiffKind

unfoldable pub is_critical : DiffKind → Bool
is_critical exit_code = true
is_critical test_count = true
is_critical passed_count = true
is_critical failed_count = true
is_critical skipped_count = true
is_critical error_count = true
is_critical missing_tests = true
is_critical extra_tests = true
is_critical output_content = false
is_critical timing = false

unfoldable pub description : DiffKind → String
description exit_code = "Exit code"
description test_count = "Test count"
description passed_count = "Passed count"
description failed_count = "Failed count"
description skipped_count = "Skipped count"
description error_count = "Error count"
description missing_tests = "Missing tests"
description extra_tests = "Extra tests"
description output_content = "Output content"
description timing = "Timing"

pub record OutputDiff : Type 0 where
  pub kind : DiffKind
  pub expected : String
  pub actual : String
  pub context : String

unfoldable pub format : OutputDiff → String
unfolding is_critical description
format d =
    (if is_critical d.kind then "[CRITICAL]" else "[INFO]")
    ++ (" "
        ++ (description d.kind
            ++ (": expected '"
                ++ (d.expected ++ ("', got '" ++ (d.actual ++ ("'\n  " ++ d.context)))))))

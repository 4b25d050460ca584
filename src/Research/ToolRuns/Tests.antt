-- ===== src/Research/ToolRuns/Tests.antt =====
-- A map search from yesterday, and the same search made again today.
use enterprise_sales_intelli.Prelude.{◌≡◌, refl, String, none, some, [], ◌∷◌, arith, string_eq}
use enterprise_sales_intelli.Prelude.Dict.{Dict, lookup, insert}
use enterprise_sales_intelli.Research.Models.{success}
use enterprise_sales_intelli.Research.ToolRuns.{
  ToolRun, is_success, save_tool_run, first_success, find_successful_tool_run,
}
use enterprise_sales_intelli.Research.ToolRuns.Expiry.{save_all, expired-hides-later_runs}

program : Unit {0}
unfolding lookup insert is_success save_tool_run first_success find_successful_tool_run save_all
program = tt

abbrev yesterday : ToolRun String
yesterday = record {
  tool_run_id = "r1";
  request_hash = "h";
  status = success;
  retry_count = 0;
  result = none;
  finished_at = 1000;
}

abbrev today : ToolRun String
today = record yesterday { tool_run_id = "r2"; finished_at = 90000 }

abbrev stored : Dict String (ToolRun String)
stored = ("r1", yesterday) ∷ []

found_in_time : find_successful_tool_run "h" (some 86400) 2000 stored ≡ some yesterday
unfolding program
found_in_time = refl

expired-hides-later_runs_example :
    find_successful_tool_run "h" (some 86400) 90001 (save_all (today ∷ []) stored) ≡ none
unfolding program
expired-hides-later_runs_example =
    expired-hides-later_runs "h" 86400 90000 90001 (today ∷ []) yesterday stored refl refl
      (omega arith) (refl, tt)

-- ===== src/Audit/Samples.antt =====
-- The audit of a run of two missions.
use agentic_workflows.Base.{ℕ, String, ◌≡◌, refl, true, Option, none, List, [], ◌∷◌, map, all}
use agentic_workflows.Base.Int.{pos}
use agentic_workflows.Base.Text.{join, print_nat}
use agentic_workflows.Values.{int, str, arr, nil, cons, end, field}
use agentic_workflows.Missions.{MissionReport, ToolResult, ToolRecord, completed}
use agentic_workflows.Routing.Directives.{role_tool_scopes}
use agentic_workflows.Audit.Presence.{check_tool_presence}
use agentic_workflows.Audit.Counts.{check_list_count, check_chain_integrity}
use agentic_workflows.Audit.Numbers.{
  check_fibonacci_file_size, check_mean_reuse, estimate_fib_csv_min_chars, count_csv_integers,
}
use agentic_workflows.Audit.Outputs.{
  write_findings, check_missing_required_outputs, check_mission_attribution_consistency,
}
use agentic_workflows.Audit.Report.{checked, all_findings, audit_run}
use agentic_workflows.Audit.Report.Laws.{has_outputs, audit_run-has_outputs}

abbrev report : ℕ → String → List String → List ToolResult → List String → MissionReport
report id mission tools results files = record {
  mission_id = id;
  mission = mission;
  used_tools = tools;
  tool_results = results;
  result = "";
  status = completed;
  required_tools = "sort_array" ∷ [];
  required_files = files;
  written_files = [];
  expected_fibonacci_count = none;
  contract_checks = [];
  subtask_contracts = [];
  subtask_statuses = [];
}

abbrev sorted_report : MissionReport
sorted_report =
    report 1 "Sort 3 numbers" ("sort_array" ∷ [])
      (record {
        tool = "sort_array";
        result = field "sorted" (arr (cons (int (pos 1)) (cons (int (pos 2)) nil))) end;
      }
        ∷ [])
      []

abbrev open_report : MissionReport
open_report = report 2 "Sort it" [] [] ("a.txt" ∷ [])

abbrev good_report : MissionReport
good_report =
    report 3 "Go" ("sort_array" ∷ "write_file" ∷ [])
      (record { tool = "write_file"; result = field "path" (str "out/a.txt") end } ∷ [])
      ("a.txt" ∷ [])

abbrev no_fault : String → List ToolRecord → Option String
no_fault text history = none

audit : Unit {0}
unfolding audit_run all_findings checked check_tool_presence check_list_count check_chain_integrity
    check_fibonacci_file_size check_mean_reuse write_findings check_missing_required_outputs
    check_mission_attribution_consistency
audit = tt

list_count_test :
    map (λ f. f.detail) (checked no_fault none [] sorted_report)
    ≡ "Expected 3 items in 'sorted' but got 2." ∷ []
unfolding audit join agentic_workflows.Audit.Report.check_pattern_report_content print_nat
list_count_test = refl

open_test :
    map (λ f. f.check) (checked no_fault none [] open_report)
    ≡ "tool_presence" ∷ "required_tools_missing" ∷ "missing_output_file"
      ∷ "mission_attribution_mismatch" ∷ []
unfolding audit agentic_workflows.Audit.Report.check_pattern_report_content
open_test = refl

estimate_test : estimate_fib_csv_min_chars 8 ≡ 16
unfolding estimate_fib_csv_min_chars print_nat
estimate_test = refl

integers_test : count_csv_integers "0, 1, +1, x, , 2_0, _3" ≡ 4
unfolding count_csv_integers
integers_test = refl

audit_run-has_outputs_example : all has_outputs (good_report ∷ []) ≡ true
unfolding audit agentic_workflows.Audit.Report.with_overall
    agentic_workflows.Audit.Report.check_pattern_report_content
audit_run-has_outputs_example =
    audit_run-has_outputs no_fault "r" (good_report ∷ []) [] role_tool_scopes refl

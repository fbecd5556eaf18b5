-- ===== src/Audit/Report.antt =====
-- orchestration/langgraph/mission_auditor.py: `audit_run`, the findings of all missions and their
-- tally. The arithmetic of a pattern report, which is in floating-point numbers, is a parameter: the
-- detail of its failure, if it has one. `to_dict` gives a dict to the state.
pub mod Laws
use agentic_workflows.Base.{
  ◌+◌, String, ◌||◌, Option, none, some, List, [], ◌∷◌, ◌++◌, if◌then◌else◌, get_or, find, all, any,
  count_if,
}
use agentic_workflows.Base.Int.{pos}
use agentic_workflows.Base.Text.{size}
use agentic_workflows.Values.{int, str, arr, obj, Items, nil, cons, Fields, end, field, get, put}
use agentic_workflows.Missions.{MissionReport, ToolRecord}
use agentic_workflows.Routing.Directives.{Specialist}
use agentic_workflows.Audit.{
  Level, AuditFinding, finding, is_pass, is_warn, is_fail, to_list, AuditReport,
}
use agentic_workflows.Audit.Presence.{check_tool_presence}
use agentic_workflows.Audit.Counts.{check_list_count, check_chain_integrity}
use agentic_workflows.Audit.Numbers.{check_fibonacci_file_size, check_mean_reuse}
use agentic_workflows.Audit.Outputs.{
  write_findings, check_missing_required_outputs, check_mission_attribution_consistency,
}

-- The tools of some scope; none where there are no scopes.
unfoldable pub allowed_of : List (Specialist × List String) → Option (List String)
allowed_of [] = none
allowed_of ((s, scope) ∷ scopes) = some (scope ++ get_or [] (allowed_of scopes))

-- A mission without a finding passes.
unfoldable pub with_overall : MissionReport → List AuditFinding → List AuditFinding
unfolding any
with_overall r findings =
    if any (λ f. is_warn f || is_fail f) findings
    then findings
    else finding r Level.pass "overall" ("All checks passed." ∷ []) ∷ findings

level_text : Level → String
level_text Level.pass = "pass"
level_text Level.warn = "warn"
level_text Level.fail = "fail"

finding_items : List AuditFinding → Items
unfolding level_text
finding_items [] = nil
finding_items (f ∷ fs) =
    cons
      (obj (
        field "mission_id" (int (pos f.mission_id)) (
          field "mission" (str f.mission) (
            field "level" (str (level_text f.level))
              (field "check" (str f.check) (field "detail" (str f.detail) end))))))
      (finding_items fs)

unfoldable pub to_dict : AuditReport → Fields
unfolding finding_items
to_dict a = field "run_id" (str a.run_id) (
    field "passed" (int (pos a.passed)) (
      field "warned" (int (pos a.warned)) (
        field "failed" (int (pos a.failed))
          (field "findings" (arr (finding_items a.findings)) end))))

module _ (pattern_fault : String → List ToolRecord → Option String) where
  unfoldable pub check_pattern_report_content :
      List ToolRecord → MissionReport → Option AuditFinding
  check_pattern_report_content tool_history r = elim (pattern_fault r.mission tool_history) [
    | none ↦ none
    | some detail ↦ some (finding r Level.fail "output_content_mismatch" (detail ∷ []))
  ]

  -- What the checks find in a mission, in their order.
  unfoldable pub checked :
      Option (List String) → List ToolRecord → MissionReport → List AuditFinding
  checked allowed_tools tool_history r =
      check_tool_presence allowed_tools r
      ++ to_list (check_list_count r)
      ++ to_list (check_chain_integrity r)
      ++ to_list (check_fibonacci_file_size tool_history r)
      ++ to_list (check_mean_reuse tool_history r)
      ++ write_findings r r.tool_results
      ++ check_missing_required_outputs r
      ++ to_list (check_pattern_report_content tool_history r)
      ++ check_mission_attribution_consistency r

  unfoldable pub all_findings :
      Option (List String) → List ToolRecord → List MissionReport → List AuditFinding
  all_findings allowed_tools tool_history [] = []
  all_findings allowed_tools tool_history (r ∷ rs) =
      with_overall r (checked allowed_tools tool_history r)
      ++ all_findings allowed_tools tool_history rs

  unfoldable pub audit_run :
      String → List MissionReport → List ToolRecord → List (Specialist × List String) → AuditReport
  audit_run run_id mission_reports tool_history role_tool_scopes =
      let findings = all_findings (allowed_of role_tool_scopes) tool_history mission_reports in
      record {
        run_id = run_id;
        findings = findings;
        passed = count_if is_pass findings;
        warned = count_if is_warn findings;
        failed = count_if is_fail findings;
      }

-- ===== src/Missions/Samples.antt =====
-- A run with two missions, and the theorems at it.
use agentic_workflows.Base.{
  ◌+◌, ◌<◌, ◌≡◌, refl, true, false, none, some, [], ◌∷◌, map, arith, length, get_elem?, IsDistinct,
  select, find, all, contains, sorted, difference, subset, eq_iff,
}
use agentic_workflows.Base.Int.{pos, negsuc, index?}
use agentic_workflows.Base.Text.{strip, lower, basename, print_nat}
use agentic_workflows.Values.{str, obj, Fields, end, field, has, to_str, get_str, get_dict}
use agentic_workflows.Missions.{
  MissionReport, StructuredPlan, pending, completed, failed, RunState, is_completed, basenames,
}
use agentic_workflows.Missions.Contracts.Laws.{planned_labels}
use agentic_workflows.Missions.Status.{
  refresh_report, update_completed, needs_of, non_helpers, has_latest_error, subtask_status,
  missing_tools_of, missing_files_of,
}
use agentic_workflows.Missions.Status.Laws.{
  deserved_status, status-refresh_report, update_completed_lem,
}
use agentic_workflows.Missions.Events.{
  record_mission_tool_event, event_index, ensure_reports, add_event, next_incomplete_mission_index,
}
use agentic_workflows.Missions.Events.Frame.{HasEvent, record_mission_tool_event_lem}
use agentic_workflows.Missions.Progress.{all_missions_completed}
use agentic_workflows.Missions.Progress.Laws.{all_missions_completed_lem}
use agentic_workflows.Missions.Attribution.{resolve_mission_id_for_action, path_hint}
use agentic_workflows.Missions.Attribution.Laws.{HasId, HasOpen, resolve-HasId, resolve-HasOpen}

abbrev pub sort_report : MissionReport
sort_report = record {
  mission_id = 1;
  mission = "Sort the numbers";
  used_tools = [];
  tool_results = [];
  result = "";
  status = pending;
  required_tools = "sort_array" ∷ [];
  required_files = [];
  written_files = [];
  expected_fibonacci_count = none;
  contract_checks = [];
  subtask_contracts = [];
  subtask_statuses = [];
}

abbrev pub write_report : MissionReport
write_report = record sort_report {
  mission_id = 2;
  mission = "Write the report";
  required_tools = "write_file" ∷ [];
  required_files = "out/report.txt" ∷ [];
}

abbrev pub two_missions : RunState
two_missions = record {
  run_id = "r";
  step = 0;
  messages = [];
  completed_tasks = [];
  tool_history = [];
  retry_counts = end;
  policy_flags = end;
  seen_tool_signatures = [];
  missions = "Sort the numbers" ∷ "Write the report" ∷ [];
  mission_reports = sort_report ∷ write_report ∷ [];
  active_mission_index = negsuc 0;
  active_mission_id = 0;
  mission_contracts = [];
  rerun_target_ids = [];
  pending_action = none;
  pending_action_queue = [];
  final_answer = "";
}

abbrev path_args : Fields
path_args = field "path" (str "out/report.txt") end

programs : Unit {0}
unfolding refresh_report needs_of non_helpers has_latest_error subtask_status missing_tools_of
    missing_files_of sorted difference select subset all contains basenames basename
    update_completed record_mission_tool_event event_index ensure_reports add_event
    next_incomplete_mission_index has get_str to_str strip print_nat resolve_mission_id_for_action
    lower get_dict is_completed
programs = tt

-- The second mission's file is written: that mission is completed and the first is still open.
write_event_test :
    map
      (λ (r : MissionReport). r.status)
      (record_mission_tool_event two_missions "write_file" end
        (some (pos 1))
        (some path_args)).mission_reports
    ≡ pending ∷ completed ∷ []
unfolding programs agentic_workflows.Missions.Status.refresh_mission_status
write_event_test = refl

-- A result with an error fails the mission.
error_event_test :
    map
      (λ (r : MissionReport). r.status)
      (record_mission_tool_event two_missions "sort_array"
        (field "error" (str "x") end)
        none
        none).mission_reports
    ≡ failed ∷ pending ∷ []
unfolding programs agentic_workflows.Missions.Status.refresh_mission_status
error_event_test = refl

abbrev sort_action : Fields
sort_action =
    field "action" (str " Tool") (field "tool_name" (str "sort_array") (field "args" (obj end) end))

resolve_test : resolve_mission_id_for_action two_missions sort_action none ≡ 1
unfolding programs find
resolve_test = refl

status-refresh_report_example : (refresh_report write_report).status ≡ deserved_status write_report
status-refresh_report_example = status-refresh_report write_report

update_completed_lem_example :
    IsDistinct (update_completed (record sort_report { status = completed }) ("a" ∷ []))
    × (contains
          (update_completed (record sort_report { status = completed }) ("a" ∷ []))
          (strip "Sort the numbers")
        ≡ true)
    × (contains (update_completed (record sort_report { status = completed }) ("a" ∷ [])) "a"
        ≡ contains ("a" ∷ []) "a")
unfolding contains strip is_completed
update_completed_lem_example =
    update_completed_lem (record sort_report { status = completed }) ("a" ∷ []) "a" (refl, tt) refl
      (ground (arith, eq_iff "a" "Sort the numbers"))

record_mission_tool_event_lem_example :
    let s' =
      record_mission_tool_event two_missions "write_file" end (some (pos 1)) (some path_args) in
    let i = event_index two_missions "write_file" (some (pos 1)) in
    (i < 2)
    × (s'.active_mission_index ≡ pos i)
    × (s'.active_mission_id ≡ i + 1)
    × (length s'.mission_reports ≡ 2)
    × (get_elem? s'.mission_reports 0 ≡ get_elem? two_missions.mission_reports 0)
    × ((r : MissionReport) × (get_elem? (ensure_reports two_missions).mission_reports i ≡ some r)
        × (after : MissionReport) × (get_elem? s'.mission_reports i ≡ some after)
        × (after ≡ refresh_report (add_event "write_file" end (some path_args) r))
        × HasEvent "write_file" end r after)
unfolding event_index ensure_reports
record_mission_tool_event_lem_example =
    record_mission_tool_event_lem two_missions "write_file" end (some (pos 1)) (some path_args) 0
      (omega arith)

all_missions_completed_lem_example :
    all_missions_completed two_missions
    ≡ elim (index? (next_incomplete_mission_index two_missions)) [ none ↦ true | some i ↦ false ]
all_missions_completed_lem_example = all_missions_completed_lem two_missions

resolve-HasId_example :
    (lower (strip (get_str "" "action" sort_action)) ≡ "tool")
    × HasId two_missions.mission_reports
        (resolve_mission_id_for_action two_missions sort_action none)
unfolding programs find
resolve-HasId_example = resolve-HasId two_missions sort_action none (omega arith)

resolve-HasOpen_example :
    HasOpen two_missions.mission_reports
      (resolve_mission_id_for_action two_missions sort_action none)
unfolding programs path_hint find
resolve-HasOpen_example = resolve-HasOpen two_missions sort_action none refl (omega arith)

abbrev plan : StructuredPlan
plan = record {
  steps =
      record {
        id = "1";
        description = "Sort";
        parent_id = none;
        suggested_tools = [];
        dependencies = [];
        status = "pending";
      }
      ∷ record {
        id = "1a";
        description = "write to b.txt";
        parent_id = some "1";
        suggested_tools = [];
        dependencies = [];
        status = "pending";
      }
      ∷ [];
  flat_missions = "Sort" ∷ [];
  parsing_method = "structured";
}

labels_test : planned_labels plan 0 "Sort" ≡ ("1", "Sort") ∷ ("1a", "write to b.txt") ∷ []
unfolding select find
labels_test = refl

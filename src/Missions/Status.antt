-- ===== src/Missions/Status.antt =====
-- `refresh_mission_status` of orchestration/langgraph/mission_tracker.py.
pub mod Laws
use agentic_workflows.Base.{
  ℕ, ◌+◌, ◌<◌, String, ap, Bool, false, not, ◌&&◌, ◌||◌, none, some, List, [], ◌∷◌, ◌++◌, map,
  if◌then◌else◌, get_elem?, set, is_nil, last?, all, contains, sorted, difference, ◌==◌,
}
use agentic_workflows.Base.Int.{ℤ, index?}
use agentic_workflows.Base.Text.{strip, basename, empty, print_nat}
use agentic_workflows.Values.{int, str, nil, end, get, has, remove}
use agentic_workflows.Missions.{
  SubtaskContract, SubtaskStatus, MissionStatus, pending, in_progress, completed, failed,
  MissionReport, RunState, is_completed, basenames,
}
use agentic_workflows.Missions.Requirements.{infer_requirements_from_text}

-- HELPER_TOOLS
abbrev pub helper_tools : List String
helper_tools = "memoize" ∷ "retrieve_memo" ∷ []

-- Tools of a set that are no helpers.
unfoldable pub non_helpers : List String → List String
non_helpers tools = difference tools helper_tools

-- What a mission needs: the sets that its report names, or those that its text implies.
pub record Needs : Type 0 where
  pub tools : List String
  pub files : List String

abbrev pub needs_none : Needs → Bool
needs_none n = is_nil n.tools && is_nil n.files

unfoldable pub needs_of : MissionReport → Needs
unfolding basenames
needs_of report =
    if is_nil report.required_tools && is_nil report.required_files
    then (let inferred = infer_requirements_from_text report.mission in
        record { tools = inferred.tools; files = basenames inferred.files })
    else record { tools = report.required_tools; files = basenames report.required_files }

-- The report with what its text implies written into the fields that are empty.
unfoldable pub fill_requirements : MissionReport → MissionReport
unfolding basenames
fill_requirements report =
    if is_nil report.required_tools && is_nil report.required_files
    then (let inferred = infer_requirements_from_text report.mission in
        record report {
          required_tools = if is_nil inferred.tools then [] else sorted inferred.tools;
          required_files = if is_nil inferred.files then [] else sorted (basenames inferred.files);
          expected_fibonacci_count = elim report.expected_fibonacci_count [
            | none ↦ inferred.fibonacci_count
            | some n ↦ some n
          ];
        })
    else report

unfoldable pub missing_tools_of : Needs → List String → List String
missing_tools_of needs used =
    if needs_none needs
    then (if is_nil (non_helpers used) then "<non_helper_tool>" ∷ [] else [])
    else sorted (difference needs.tools used)

unfoldable pub missing_files_of : Needs → List String → List String
missing_files_of needs written = sorted (difference needs.files written)

-- The report's contracts, or one for the whole mission where it needs something.
contracts_or_whole : MissionReport → Needs → List SubtaskContract
contracts_or_whole report needs =
    if is_nil report.subtask_contracts && not (needs_none needs)
    then record {
      id = print_nat report.mission_id;
      description = report.mission;
      required_tools = sorted needs.tools;
      required_files = sorted needs.files;
      expected_fibonacci_count = report.expected_fibonacci_count;
    }
      ∷ []
    else report.subtask_contracts

unfoldable pub subtask_status : List String → List String → SubtaskContract → SubtaskStatus
unfolding basenames
subtask_status used written subtask =
    let tools = sorted (difference subtask.required_tools used) in
    let files = sorted (difference (basenames subtask.required_files) written) in
    record {
      id = subtask.id;
      description = subtask.description;
      missing_tools = tools;
      missing_files = files;
      satisfied = is_nil tools && is_nil files;
    }

abbrev pub satisfied_of : SubtaskStatus → Bool
satisfied_of s = s.satisfied

-- whether the last tool result has an "error"
unfoldable pub has_latest_error : MissionReport → Bool
has_latest_error report = elim (last? report.tool_results) [
  | none ↦ false
  | some r ↦ has "error" r.result
]

abbrev next_status : (incomplete error used : Bool) → MissionStatus
next_status incomplete error used =
    if incomplete
    then (if error then failed else if used then in_progress else pending)
    else if error
    then failed
    else completed

-- The report as `refresh_mission_status` leaves it.
unfoldable pub refresh_report : MissionReport → MissionReport
unfolding fill_requirements contracts_or_whole
refresh_report report =
    let filled = fill_requirements report in
    let needs = needs_of report in
    let written = basenames report.written_files in
    let missing_tools = missing_tools_of needs report.used_tools in
    let missing_files = missing_files_of needs written in
    let statuses =
      map (subtask_status report.used_tools written) (contracts_or_whole filled needs) in
    let missing = not (is_nil missing_tools && is_nil missing_files) in
    let satisfied = if is_nil statuses then not missing else all satisfied_of statuses in
    record filled {
      subtask_statuses = statuses;
      status =
          next_status (missing || not satisfied) (has_latest_error report)
            (not (is_nil report.used_tools));
    }

-- xs.remove(x), where x is there: the first occurrence goes
remove_first : String → List String → List String
remove_first x [] = []
remove_first x (y ∷ ys) = if y == x then ys else y ∷ remove_first x ys

unfoldable pub update_completed : MissionReport → List String → List String
unfolding remove_first is_completed
update_completed report completed_tasks =
    let text = strip report.mission in
    if is_completed report.status
    then (if not (empty text) && not (contains completed_tasks text)
        then completed_tasks ++ text ∷ []
        else completed_tasks)
    else if contains completed_tasks text
    then remove_first text completed_tasks
    else completed_tasks

refresh_at : RunState → ℕ → RunState
unfolding update_completed refresh_report
refresh_at state i = elim (get_elem? state.mission_reports i) [
  | none ↦ state
  | some report ↦ record state {
    mission_reports = set state.mission_reports i (refresh_report report);
    completed_tasks = update_completed (refresh_report report) state.completed_tasks;
  }
]

unfoldable pub refresh_mission_status : RunState → ℤ → RunState
unfolding refresh_at
refresh_mission_status state mission_index = elim (index? mission_index) [
  | none ↦ state
  | some i ↦ refresh_at state i
]

-- ===== src/Missions/Events.antt =====
-- `next_incomplete_mission_index` and `record_mission_tool_event` of
-- orchestration/langgraph/mission_tracker.py.
pub mod Frame
use agentic_workflows.Base.{
  ℕ, suc, ◌+◌, ◌-◌, min, String, Bool, true, false, not, ◌&&◌, ◌||◌, Option, none, some, List, [],
  ◌∷◌, ◌++◌, ltb, if◌then◌else◌, length, get_elem?, set, is_nil, contains, ◌==◌,
}
use agentic_workflows.Base.Int.{ℤ, pos, negsuc, clip, index?, pred_int}
use agentic_workflows.Base.Text.{strip, basename, empty}
use agentic_workflows.Values.{
  Value, bool, int, str, obj, nil, Fields, end, get, has, to_str, get_str,
}
use agentic_workflows.Missions.{MissionReport, RunState, is_completed}
use agentic_workflows.Missions.Contracts.{initialize_mission_reports}
use agentic_workflows.Missions.Status.{refresh_mission_status, helper_tools}

first_incomplete : ℕ → List MissionReport → ℤ
first_incomplete index [] = negsuc 0
first_incomplete index (r ∷ rs) =
    let later = first_incomplete (suc index) rs in
    if is_completed r.status then later else pos index

unfoldable pub next_incomplete_mission_index : RunState → ℤ
unfolding first_incomplete is_completed
next_incomplete_mission_index state = first_incomplete 0 state.mission_reports

-- Without reports the whole input is one mission.
abbrev primary_mission : String
primary_mission = "Primary mission"

unfoldable pub ensure_reports : RunState → RunState
ensure_reports state =
    if is_nil state.mission_reports
    then record state {
      mission_reports = initialize_mission_reports (primary_mission ∷ []) state.mission_contracts;
      missions = primary_mission ∷ [];
      active_mission_index = negsuc 0;
      active_mission_id = 0;
    }
    else state

-- `isinstance(v, int)`; Python's truth values are integers.
as_int : Option Value → Option ℤ
as_int (some (int n)) = some n
as_int (some (bool true)) = some (pos 1)
as_int (some (bool false)) = some (pos 0)
as_int v = none

-- `pending.get("__mission_id")`, where it is an integer
pending_mission_id : RunState → Option ℤ
unfolding as_int
pending_mission_id state = elim state.pending_action [
  | none ↦ none
  | some action ↦ as_int (get "__mission_id" action)
]

in_range : ℤ → ℕ → Bool
in_range z n = elim (index? z) [ none ↦ false | some i ↦ ltb i n ]

-- The mission that an event is for: the one named, that of the pending action, the active one for a
-- helper tool, else the next that is incomplete.
target_index : RunState → String → Option ℤ → ℤ
unfolding pending_mission_id in_range
target_index state tool_name (some z) = z
target_index state tool_name none = elim (pending_mission_id state) [
  | some id ↦ pred_int id
  | none ↦
      if contains helper_tools tool_name
        && in_range state.active_mission_index (length state.mission_reports)
      then state.active_mission_index
      else next_incomplete_mission_index state
]

-- min(max(z, 0), n - 1)
clamp_index : ℤ → ℕ → ℕ
clamp_index z n = min (clip z) (n - 1)

-- The base name that a successful `write_file` adds to the written files.
unfoldable pub add_written : String → List String → List String
add_written path written =
    let name = basename path in
    if empty name || contains written name then written else written ++ name ∷ []

written_after : String → Fields → Option Fields → List String → List String
unfolding add_written
written_after tool_name tool_result none written = written
written_after tool_name tool_result (some args) written =
    let path = strip (get_str "" "path" args) in
    if tool_name == "write_file" && not (has "error" tool_result) && not (empty path)
    then add_written path written
    else written

-- The report with the tool's use, result and written file.
unfoldable pub add_event : String → Fields → Option Fields → MissionReport → MissionReport
unfolding written_after
add_event tool_name tool_result tool_args r = record r {
  used_tools = r.used_tools ++ tool_name ∷ [];
  tool_results = r.tool_results ++ record { tool = tool_name; result = tool_result } ∷ [];
  result = to_str (obj tool_result);
  written_files = written_after tool_name tool_result tool_args r.written_files;
}

unfoldable pub event_index : RunState → String → Option ℤ → ℕ
unfolding ensure_reports target_index clamp_index
event_index state tool_name mission_index =
    let s = ensure_reports state in
    clamp_index (target_index s tool_name mission_index) (length s.mission_reports)

unfoldable pub record_mission_tool_event :
    RunState → String → Fields → Option ℤ → Option Fields → RunState
record_mission_tool_event state tool_name tool_result mission_index tool_args =
    let s = ensure_reports state in
    let index = event_index state tool_name mission_index in
    let active = record s { active_mission_index = pos index; active_mission_id = index + 1 } in
    elim (get_elem? s.mission_reports index) [
      | none ↦ active
      | some report ↦
          refresh_mission_status
            (record active {
              mission_reports =
                  set s.mission_reports index (add_event tool_name tool_result tool_args report);
            })
            (pos index)
    ]

-- ===== src/Missions/Progress.antt =====
-- What the planner and the finish guard read off the reports: `next_incomplete_mission`,
-- `next_incomplete_mission_requirements`, `all_missions_completed`, `progress_hint_message` and
-- `build_auto_finish_answer` of orchestration/langgraph/mission_tracker.py.
pub mod Laws
use Prim.Native.String.{◌++◌ as str_append}
use agentic_workflows.Base.{
  ℕ, suc, ◌+◌, ◌-◌, String, ap, Bool, not, ◌&&◌, Option, none, some, List, [], ◌∷◌, ◌++◌,
  if◌then◌else◌, length, get_elem?, is_nil, all, count_if, sorted, difference,
}
use agentic_workflows.Base.Int.{ℤ, negsuc, index?}
use agentic_workflows.Base.Text.{strip, basename, empty, join, print_nat}
use agentic_workflows.Values.{int, str, nil, end, get}
use agentic_workflows.Missions.{
  MissionReport, MissionContract, RunState, is_completed, basenames, done,
}
use agentic_workflows.Missions.Events.{next_incomplete_mission_index}

-- The report of the next incomplete mission, if there is one.
next_report : RunState → Option MissionReport
next_report state = elim (index? (next_incomplete_mission_index state)) [
  | none ↦ none
  | some i ↦ get_elem? state.mission_reports i
]

unfoldable pub next_incomplete_mission : RunState → String
unfolding next_report
next_incomplete_mission state = elim (next_report state) [ none ↦ "" | some r ↦ r.mission ]

pub record Missing : Type 0 where
  pub mission_index : ℤ
  pub mission_id : ℕ
  pub missing_tools : List String
  pub missing_files : List String

unfoldable pub next_incomplete_mission_requirements : RunState → Missing
unfolding next_report basenames
next_incomplete_mission_requirements state = elim (next_report state) [
  | none ↦ record {
    mission_index = negsuc 0;
    mission_id = 0;
    missing_tools = [];
    missing_files = [];
  }
  | some r ↦ record {
    mission_index = next_incomplete_mission_index state;
    mission_id = r.mission_id;
    missing_tools = sorted (difference r.required_tools r.used_tools);
    missing_files = sorted (difference (basenames r.required_files) (basenames r.written_files));
  }
]

-- A contract that asks for no tool and no file.
abbrev pub asks_nothing : MissionContract → Bool
asks_nothing c = is_nil c.required_tools && is_nil c.required_files

unfoldable pub all_missions_completed : RunState → Bool
unfolding all is_completed
all_missions_completed state =
    if is_nil state.mission_reports
    then not (is_nil state.mission_contracts) && all asks_nothing state.mission_contracts
    else all done state.mission_reports

infixr 65 ◌+++◌
abbrev pub ◌+++◌ : String → String → String
◌+++◌ = str_append

progress_text : ℕ → ℕ → String → String
progress_text completed total next =
    "Progress: completed "
    +++ print_nat completed
    +++ "/"
    +++ print_nat total
    +++ " tasks. "
    +++ (if empty next then "Emit finish now." else "Next task: " +++ next)

unfoldable pub progress_hint_message : RunState → String
unfolding progress_text count_if is_completed
progress_hint_message state =
    if is_nil state.mission_reports
    then (if is_nil state.missions
        then ""
        else progress_text (length state.completed_tasks) (length state.missions)
            (next_incomplete_mission state))
    else progress_text (count_if done state.mission_reports) (length state.mission_reports)
        (next_incomplete_mission state)

summary_parts : List MissionReport → List String
summary_parts [] = []
summary_parts (r ∷ rs) =
    let mission = strip r.mission in
    let result = strip r.result in
    let rest = summary_parts rs in
    if not (empty mission) && not (empty result) && is_completed r.status
    then (mission +++ " -> " +++ result) ∷ rest
    else rest

unfoldable pub build_auto_finish_answer : RunState → String
unfolding summary_parts
build_auto_finish_answer state =
    join " " ("All tasks completed." ∷ summary_parts state.mission_reports)

-- ===== src/Missions.antt =====
-- The state of a run (state_schema.py) and the plan that missions come from (mission_parser.py).
-- What only reports or logs read is left out; every key is there, as `new_run_state` and
-- `initialize_mission_reports` make it.
pub mod Requirements
pub mod Contracts
pub mod Status
pub mod Events
pub mod Attribution
pub mod Progress
pub mod Samples
use agentic_workflows.Base.{ℕ, String, ap, Bool, true, false, Option, List, map, all}
use agentic_workflows.Base.Int.{ℤ}
use agentic_workflows.Base.Text.{basename}
use agentic_workflows.Values.{Fields, end, get}

pub record SubtaskContract : Type 0 where
  pub id : String
  pub description : String
  pub required_tools : List String
  pub required_files : List String
  pub expected_fibonacci_count : Option ℕ

pub record SubtaskStatus : Type 0 where
  pub id : String
  pub description : String
  pub missing_tools : List String
  pub missing_files : List String
  pub satisfied : Bool

pub record ToolResult : Type 0 where
  pub tool : String
  pub result : Fields

pub data MissionStatus : Type 0 where
  pending in_progress completed failed : MissionStatus

pub record MissionReport : Type 0 where
  pub mission_id : ℕ
  pub mission : String
  pub used_tools : List String
  pub tool_results : List ToolResult
  pub result : String
  pub status : MissionStatus
  pub required_tools : List String
  pub required_files : List String
  pub written_files : List String
  pub expected_fibonacci_count : Option ℕ
  pub contract_checks : List String
  pub subtask_contracts : List SubtaskContract
  pub subtask_statuses : List SubtaskStatus

pub record MissionContract : Type 0 where
  pub mission_id : ℕ
  pub required_tools : List String
  pub required_files : List String
  pub expected_fibonacci_count : Option ℕ
  pub contract_checks : List String
  pub subtask_contracts : List SubtaskContract

pub record MissionStep : Type 0 where
  pub id : String
  pub description : String
  pub parent_id : Option String
  pub suggested_tools : List String
  pub dependencies : List String
  pub status : String

pub record StructuredPlan : Type 0 where
  pub steps : List MissionStep
  pub flat_missions : List String
  pub parsing_method : String

pub record ToolRecord : Type 0 where
  pub call : ℕ
  pub tool : String
  pub args : Fields
  pub result : Fields

-- A message of the transcript.
pub record AgentMessage : Type 0 where
  pub role : String
  pub content : String

pub record RunState : Type 0 where
  pub run_id : String
  pub step : ℕ
  pub messages : List AgentMessage
  pub completed_tasks : List String
  pub tool_history : List ToolRecord
  pub retry_counts : Fields
  pub policy_flags : Fields
  pub seen_tool_signatures : List String
  pub missions : List String
  pub mission_reports : List MissionReport
  pub active_mission_index : ℤ
  pub active_mission_id : ℕ
  pub mission_contracts : List MissionContract
  pub rerun_target_ids : List ℤ
  pub pending_action : Option Fields
  pub pending_action_queue : List Fields
  pub final_answer : String

-- status == "completed"
unfoldable pub is_completed : MissionStatus → Bool
is_completed completed = true
is_completed s = false

abbrev pub done : MissionReport → Bool
done r = is_completed r.status

-- The set of the paths' base names.
unfoldable pub basenames : List String → List String
basenames = map basename

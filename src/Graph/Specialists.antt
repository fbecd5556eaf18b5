-- ===== src/Graph/Specialists.antt =====
-- Of orchestration/langgraph/graph.py, `_route_to_specialist`, with the records of handoff.py. The
-- tools' execution, `_execute_action`, is a parameter. The pipeline trace stands in `policy_flags` in
-- the code, and the marks `via_subgraph` in the records of the tool history.
pub mod Laws
mod Samples
use agentic_workflows.Base.{
  ℕ, zero, suc, ◌+◌, ◌-◌, String, ap, Bool, true, ◌||◌, Option, none, some, List, [], ◌∷◌, ◌++◌,
  ltb, if◌then◌else◌, length, take, select, all, sorted, ◌==◌,
}
use agentic_workflows.Base.Int.{ℤ, pos}
use agentic_workflows.Base.Text.{strip, lower, join, print_nat}
use agentic_workflows.Values.{
  bool, Value, int, str, obj, Fields, end, field, get, put, get_str, get_dict,
}
use agentic_workflows.Missions.{ToolRecord, RunState}
use agentic_workflows.Context.Window.{push_trace, last_slice}
use agentic_workflows.Routing.Directives.{
  Specialist, allowed_tools, specialist_of, select_specialist_for_action,
}

pub record TaskHandoff : Type 0 where
  pub task_id : String
  pub specialist : String
  pub mission_id : ℤ
  pub tool_scope : List String
  pub input_context : Fields
  pub token_budget : ℤ

pub record HandoffResult : Type 0 where
  pub task_id : String
  pub specialist : String
  pub status : String
  pub output : Fields
  pub tokens_used : ℕ

create_handoff : String → String → ℤ → List String → Fields → ℤ → TaskHandoff
create_handoff task_id specialist mission_id tool_scope input_context token_budget = record {
  task_id = task_id;
  specialist = specialist;
  mission_id = mission_id;
  tool_scope = tool_scope;
  input_context = input_context;
  token_budget = token_budget;
}

create_handoff_result : String → String → String → Fields → HandoffResult
create_handoff_result task_id specialist status output = record {
  task_id = task_id;
  specialist = specialist;
  status = status;
  output = output;
  tokens_used = 0;
}

pub record SpecialistState : Type 0 where
  pub run : RunState
  pub active_specialist : String
  pub token_budget_remaining : ℤ
  pub handoff_queue : List TaskHandoff
  pub handoff_results : List HandoffResult
  pub pipeline_trace : List Fields
  pub via_subgraph : List Bool

abbrev pub handoff_cap : ℕ
handoff_cap = 50

-- xs.append(x), and only the newest 50 are kept
unfoldable pub push_handoff {ℓ} : {A : Type ℓ} → A → List A → List A
unfolding last_slice
push_handoff x xs =
    let longer = xs ++ x ∷ [] in
    if ltb handoff_cap (length longer) then last_slice handoff_cap longer else longer

-- The mission that an action names, else the active one.
mission_of : Fields → RunState → ℤ
unfolding get
mission_of action state = of_value (get "__mission_id" action)
  where
    of_value : Option Value → ℤ
    of_value (some (int (pos (suc n)))) = pos (suc n)
    of_value (some (bool true)) = pos 1
    of_value o = pos state.active_mission_id

unfoldable pub task_id_of : SpecialistState → String
task_id_of s =
    join ":" (s.run.run_id ∷ print_nat s.run.step ∷ print_nat (suc (length s.handoff_queue)) ∷ [])

unfoldable pub tool_scope_of : String → List String
unfolding specialist_of allowed_tools sorted
tool_scope_of specialist = elim (specialist_of specialist) [
  | none ↦ []
  | some s ↦ sorted (allowed_tools s)
]

unfoldable pub called_tool : Fields → String
unfolding strip get_str
called_tool action = strip (get_str "" "tool_name" action)

unfoldable pub is_tool_call : Fields → Bool
unfolding lower strip get_str
is_tool_call action = lower (strip (get_str "" "action" action)) == "tool"

-- The handoff of a tool call.
unfoldable pub handoff_of : Fields → SpecialistState → TaskHandoff
unfolding create_handoff task_id_of tool_scope_of mission_of called_tool get_dict
handoff_of action s =
    create_handoff (task_id_of s) s.active_specialist (mission_of action s.run)
      (tool_scope_of s.active_specialist)
      (field "tool_name" (str (called_tool action))
        (field "args" (obj (get_dict "args" action)) (field "step" (int (pos s.run.step)) end)))
      s.token_budget_remaining

route_event : Fields → SpecialistState → Fields
unfolding mission_of called_tool
route_event action s = field "stage" (str "specialist_route") (
    field "step" (int (pos s.run.step)) (
      field "specialist" (str s.active_specialist) (
        field "tool_name" (str (called_tool action))
          (field "mission_id" (int (mission_of action s.run)) end))))

-- The state with the call handed to its specialist.
unfoldable pub hand_off : Fields → SpecialistState → SpecialistState
unfolding push_trace push_handoff handoff_of route_event
hand_off action s = record s {
  pipeline_trace = push_trace (route_event action s) s.pipeline_trace;
  handoff_queue = push_handoff (handoff_of action s) s.handoff_queue;
}

all_true : ℕ → List Bool
all_true zero = []
all_true (suc n) = true ∷ all_true n

-- The marks, those of the records from position `before` on set.
unfoldable pub tag_new : ℕ → ℕ → List Bool → List Bool
unfolding all_true
tag_new before after tags =
    if ltb before after then take before tags ++ all_true (after - before) else tags

last_result : List ToolRecord → Fields
last_result [] = end
last_result (r ∷ []) = r.result
last_result (r ∷ q ∷ rs) = last_result (q ∷ rs)

is_worker : String → Bool
is_worker specialist = specialist == "executor" || specialist == "evaluator"

-- What a specialist's call gave: its result if the tool history grew.
unfoldable pub result_of :
    String → Fields → String → List ToolRecord → List ToolRecord → HandoffResult
unfolding create_handoff_result last_result called_tool is_worker
result_of task_id action specialist before after =
    let grew = ltb (length before) (length after) in
    let status = if grew then "success" else "error" in
    create_handoff_result task_id specialist status (
      field "tool_name" (str (called_tool action)) (
        if grew
        then field "tool_result" (obj (last_result after))
            (if is_worker specialist then field "status" (str status) end else end)
        else end))

module _ (execute_action : RunState → RunState) where
  -- The call is executed, and what it gave is recorded.
  unfoldable pub execute_for : String → Fields → SpecialistState → SpecialistState
  unfolding tag_new result_of push_handoff is_worker
  execute_for task_id action s =
      let before = s.run.tool_history in
      let done = execute_action s.run in
      record s {
        run = done;
        via_subgraph =
            if is_worker s.active_specialist
            then tag_new (length before) (length done.tool_history) s.via_subgraph
            else s.via_subgraph;
        handoff_results =
            push_handoff (result_of task_id action s.active_specialist before done.tool_history)
              s.handoff_results;
      }

  unfoldable pub route_action : Fields → SpecialistState → SpecialistState
  unfolding select_specialist_for_action is_tool_call task_id_of hand_off execute_for
  route_action action s =
      let chosen = record s { active_specialist = select_specialist_for_action (some action) } in
      if is_tool_call action
      then execute_for (task_id_of chosen) action (hand_off action chosen)
      else record chosen { run = execute_action s.run }

  unfoldable pub route_to_specialist : SpecialistState → SpecialistState
  unfolding route_action
  route_to_specialist s = elim s.run.pending_action [
    | none ↦ s
    | some action ↦ route_action action s
  ]

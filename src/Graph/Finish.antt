-- ===== src/Graph/Finish.antt =====
-- Of orchestration/langgraph/graph.py, what becomes of a finish that comes too early:
-- `_reject_finish_and_recover`, `_diagnose_incomplete_missions` and `_planner_action_preview`.
-- `args_json` is the `json.dumps` of the fallback planner's signatures.
pub mod Laws
mod Samples
use agentic_workflows.Base.{
  ℕ, suc, ◌+◌, max, min, String, Bool, false, not, Option, none, some, List, [], ◌∷◌, ◌++◌, ltb,
  if◌then◌else◌, is_nil, select, all, sorted, ◌==◌,
}
use agentic_workflows.Base.Int.{pos}
use agentic_workflows.Base.Text.{empty, join, prefix, print_nat}
use agentic_workflows.Values.{
  quoted, Value, int, str, arr, obj, Items, nil, cons, Fields, end, field, get, put, to_str,
  get_str, get_dict,
}
use agentic_workflows.Missions.{AgentMessage, MissionReport, MissionStatus, RunState, is_completed}
use agentic_workflows.Missions.Progress.{
  Missing, next_incomplete_mission, next_incomplete_mission_requirements,
}
use agentic_workflows.Planner.Fallback.{
  Fallback, acts, nothing, index_error, finish_action, deterministic_fallback_action,
}
use agentic_workflows.Graph.Checkpoints.{CheckpointStore, save}
use agentic_workflows.Graph.Guards.{purge_queued_finish_actions}

-- int(d.get(key, 0)), for a counter
unfoldable pub get_count : String → Fields → ℕ
unfolding get
get_count key fs = as_count (get key fs)
  where
    as_count : Option Value → ℕ
    as_count (some (int (pos n))) = n
    as_count o = 0

status_text : MissionStatus → String
status_text MissionStatus.pending = "pending"
status_text MissionStatus.in_progress = "in_progress"
status_text MissionStatus.completed = "completed"
status_text MissionStatus.failed = "failed"

str_items : List String → Items
str_items [] = nil
str_items (s ∷ ss) = cons (str s) (str_items ss)

incomplete_lines : List MissionReport → List String
unfolding is_completed status_text str_items to_str
incomplete_lines [] = []
incomplete_lines (r ∷ rs) =
    let rest = incomplete_lines rs in
    if is_completed r.status
    then rest
    else join "" (
        "Mission "
        ∷ print_nat r.mission_id
        ∷ " ["
        ∷ status_text r.status
        ∷ "]: "
        ∷ quoted (prefix 80 r.mission)
        ∷ " used_tools="
        ∷ to_str (arr (str_items r.used_tools))
        ∷ [])
      ∷ rest

unfoldable pub diagnose_incomplete_missions : RunState → String
unfolding incomplete_lines
diagnose_incomplete_missions state =
    let lines = incomplete_lines state.mission_reports in
    if is_nil lines then "" else join "" ("Incomplete missions: " ∷ join "; " lines ∷ ". " ∷ [])

field_names : Fields → List String
field_names end = []
field_names (field k v fs) = k ∷ field_names fs

-- int(action.get("__mission_id", 0) or 0), for an id or none
mission_id_of : Option Value → Value
mission_id_of (some (int z)) = int z
mission_id_of o = int (pos 0)

unfoldable pub planner_action_preview : Fields → Fields
unfolding get get_str get_dict field_names sorted str_items mission_id_of
planner_action_preview action = field "action" (str (get_str "" "action" action)) (
    field "tool_name" (str (get_str "" "tool_name" action)) (
      field "__mission_id" (mission_id_of (get "__mission_id" action))
        (field "arg_keys" (arr (str_items (sorted (field_names (get_dict "args" action))))) end)))

unfoldable pub rejection_fingerprint : Missing → Fields → String
unfolding planner_action_preview to_str
rejection_fingerprint requirements rejected = join "|" (
    print_nat requirements.mission_id
    ∷ join "," requirements.missing_tools
    ∷ join "," requirements.missing_files
    ∷ to_str (obj (planner_action_preview rejected))
    ∷ [])

-- The state with the rejection counted and the queued finishes gone.
unfoldable pub count_rejection : Fields → RunState → RunState
unfolding get_count put get_str rejection_fingerprint next_incomplete_mission_requirements
    purge_queued_finish_actions
count_rejection rejected state =
    let fingerprint = rejection_fingerprint (next_incomplete_mission_requirements state) rejected in
    let last_fingerprint = get_str "" "last_finish_rejection_fingerprint" state.policy_flags in
    let streak =
      if fingerprint == last_fingerprint
      then suc (get_count "finish_rejection_streak" state.policy_flags)
      else 1 in
    let purged = (purge_queued_finish_actions state).1 in
    record purged {
      retry_counts =
          put "finish_rejected" (int (pos (suc (get_count "finish_rejected" state.retry_counts))))
            state.retry_counts;
      policy_flags =
          put "finish_rejection_streak" (int (pos streak))
            (put "last_finish_rejection_fingerprint" (str fingerprint) state.policy_flags);
    }

or_unknown : String → String
or_unknown s = if empty s then "unknown" else s

system_message : List String → AgentMessage
system_message parts = record { role = "system"; content = join "" parts }

-- action.get("action") == "finish"
unfoldable pub asks_finish : Fields → Bool
unfolding get
asks_finish action = is_finish (get "action" action)
  where
    is_finish : Option Value → Bool
    is_finish (some (str s)) = s == "finish"
    is_finish o = false

-- What a node of the graph returns, or the exception that it ends with.
pub data Step : Type 0 where
  returned : RunState → CheckpointStore → Step
  raised : Step

fail_message : RunState → String
unfolding or_unknown next_incomplete_mission
fail_message state = join "" (
    "Run stopped: planner repeatedly requested finish while tasks remained incomplete (next task: "
    ∷ or_unknown (next_incomplete_mission state)
    ∷ ")."
    ∷ [])

unfoldable pub fail_closed : RunState → RunState
unfolding fail_message system_message
fail_closed state = record state {
  messages = state.messages ++ system_message (fail_message state ∷ []) ∷ [];
  pending_action = some (finish_action (fail_message state));
}

rejected_text : RunState → List String
unfolding or_unknown next_incomplete_mission diagnose_incomplete_missions
rejected_text state =
    "Finish rejected: missions remain incomplete. "
    ∷ diagnose_incomplete_missions state
    ∷ " Next task: "
    ∷ or_unknown (next_incomplete_mission state)
    ∷ []

unfoldable pub recover_with : Fields → RunState → RunState
unfolding rejected_text system_message
recover_with action state = record state {
  messages =
      state.messages
      ++ system_message
          (rejected_text state ++ ". Orchestrator selected a deterministic recovery action." ∷ [])
        ∷ [];
  pending_action = some action;
}

unfoldable pub ask_again : RunState → RunState
unfolding rejected_text system_message
ask_again state = record state {
  messages = state.messages ++ system_message (rejected_text state) ∷ [];
  pending_action = none;
}

module _ (args_json : Fields → String) (dumps : RunState → String) (loads : String → RunState)
    (now : String) (max_finish_rejections : ℕ) where
  -- The state is saved under the name of the node.
  saved : String → String → RunState → CheckpointStore → Step
  unfolding save
  saved source name state store = returned state (
      save dumps loads now state.run_id state.step (join "" ("plan_" ∷ source ∷ name ∷ [])) state
        store)

  unfoldable pub recover : Fallback → String → RunState → CheckpointStore → Step
  unfolding saved recover_with ask_again asks_finish
  recover index_error source state store = raised
  recover nothing source state store = saved source "_finish_rejected" (ask_again state) store
  recover (acts action) source state store =
      if asks_finish action
      then saved source "_finish_rejected" (ask_again state) store
      else saved source "_finish_recover" (recover_with action state) store

  unfoldable pub reject_finish_and_recover : Fields → String → RunState → CheckpointStore → Step
  unfolding count_rejection get_count fail_closed saved recover deterministic_fallback_action
  reject_finish_and_recover rejected source state store =
      let counted = count_rejection rejected state in
      if ltb max_finish_rejections (get_count "finish_rejected" counted.retry_counts)
      then saved source "_finish_fail_closed" (fail_closed counted) store
      else recover (deterministic_fallback_action args_json counted) source counted store

-- ===== src/Graph/Guards.antt =====
-- Of orchestration/langgraph/graph.py, the guards and nodes that only read and set the state:
-- `_rerun_targets_completed`, `_enforce_rerun_completion_guard`, `_purge_queued_finish_actions`,
-- `_route_after_plan` and `_clarify_node`. The state is one that `ensure_state_defaults` leaves as it is.
pub mod Laws
use Prim.Native.String.{◌++◌ as str_append}
use agentic_workflows.Base.{
  ℕ, zero, suc, String, ap, Bool, true, false, not, ◌&&◌, Option, none, some, List, [], ◌∷◌, ltb,
  eqb, if◌then◌else◌, get_or, set, is_nil, select, all, count_if, ◌==◌,
}
use agentic_workflows.Base.Int.{ℤ, pos, negsuc}
use agentic_workflows.Base.Text.{strip, lower, empty}
use agentic_workflows.Values.{Value, int, str, nil, Fields, end, field, get, put, get_str}
use agentic_workflows.Missions.{MissionReport, MissionStatus, RunState, is_completed}
use agentic_workflows.Graph.Checkpoints.{CheckpointStore, save}
use agentic_workflows.Missions.Progress.{build_auto_finish_answer}

-- An action's name, stripped and in small letters.
abbrev pub kind_of : Fields → String
kind_of action = lower (strip (get_str "" "action" action))

-- The positive ids that a rerun is for.
unfoldable pub rerun_targets : List ℤ → List ℕ
rerun_targets [] = []
rerun_targets (pos zero ∷ zs) = rerun_targets zs
rerun_targets (pos (suc n) ∷ zs) = suc n ∷ rerun_targets zs
rerun_targets (negsuc n ∷ zs) = rerun_targets zs

-- status_by_id.get(mission_id): the last report of the id counts
status_of : ℕ → List MissionReport → Option MissionStatus
status_of id [] = none
status_of id (r ∷ rs) = elim (status_of id rs) [
  | some later ↦ some later
  | none ↦ if eqb r.mission_id id && ltb 0 r.mission_id then some r.status else none
]

is_target_done : List MissionReport → ℕ → Bool
unfolding status_of is_completed
is_target_done reports id = elim (status_of id reports) [ none ↦ false | some s ↦ is_completed s ]

rerun_targets_completed : RunState → Bool
unfolding rerun_targets is_target_done all
rerun_targets_completed state =
    let targets = rerun_targets state.rerun_target_ids in
    if is_nil targets then false else all (is_target_done state.mission_reports) targets

reset_finish_rejection_tracking : RunState → RunState
unfolding put
reset_finish_rejection_tracking state = record state {
  retry_counts = put "finish_rejected" (int (pos 0)) state.retry_counts;
  policy_flags =
      put "last_finish_rejection_fingerprint" (str "")
        (put "finish_rejection_streak" (int (pos 0)) state.policy_flags);
}

-- The state that the rerun guard makes: nothing is queued and a finish is pending.
stop_planning : RunState → RunState
unfolding reset_finish_rejection_tracking build_auto_finish_answer strip
stop_planning state =
    let answer = strip (build_auto_finish_answer state) in
    let text = if empty answer then "Rerun targets completed." else answer in
    reset_finish_rejection_tracking (record state {
      pending_action_queue = [];
      pending_action = some (field "action" (str "finish") (field "answer" (str text) end));
    })

-- Whether the guard stopped the planning, with the state and the checkpoints that it leaves.
unfoldable pub enforce_rerun_completion_guard :
    (RunState → String)
    → (String → RunState)
    → String
    → RunState
    → CheckpointStore
    → Bool × RunState × CheckpointStore
unfolding rerun_targets_completed stop_planning save
enforce_rerun_completion_guard dumps loads now state store =
    let stopped = stop_planning state in
    if not (rerun_targets_completed state) then (false, state, store) else (
      true,
      stopped,
      save dumps loads now stopped.run_id stopped.step "plan_rerun_targets_completed" stopped store,
    )

abbrev pub is_finish_action : Fields → Bool
is_finish_action action = kind_of action == "finish"

unfoldable pub purge_queued_finish_actions : RunState → ℕ × RunState
unfolding select count_if lower strip get_str
purge_queued_finish_actions state =
    let queue = state.pending_action_queue in
    (
      count_if is_finish_action queue,
      record state {
        pending_action_queue = select (λ action. not (is_finish_action action)) queue;
      },
    )

pub data Node : Type 0 where
  plan execute clarify finish : Node

unfoldable pub route_of : Fields → Node
unfolding get
route_of action = elim (get "action" action) [
  | none ↦ execute
  | some v ↦ if is_text v "finish" then finish else if is_text v "clarify" then clarify else execute
]
  where
    is_text : Value → String → Bool
    is_text (str s) t = s == t
    is_text v t = false

unfoldable pub route_after_plan : RunState → Node
unfolding route_of
route_after_plan state = elim state.pending_action [
  | none ↦ plan
  | some action ↦ elim action [ end ↦ plan | field k v fs ↦ route_of (field k v fs) ]
]

unfoldable pub clarify_node : RunState → RunState
unfolding get_str
clarify_node state =
    let action = get_or end state.pending_action in
    let answer =
      str_append "__CLARIFY__: "
        (get_str "I need more information to proceed." "question" action) in
    record state {
      final_answer = answer;
      pending_action = some (field "action" (str "finish") (field "answer" (str answer) end));
    }

-- ===== src/Graph/Samples.antt =====
-- A rerun whose target is done, and the theorems of the graph at it.
use agentic_workflows.Base.{
  String, ◌≡◌, refl, true, ◌&&◌, none, some, List, [], ◌∷◌, map, if◌then◌else◌, all, ◌==◌,
}
use agentic_workflows.Base.Int.{pos, negsuc}
use agentic_workflows.Base.Text.{strip}
use agentic_workflows.Values.{Value, to_str, get_dict, get_str, obj, str, Fields, end, field}
use agentic_workflows.Missions.{RunState, completed}
use agentic_workflows.Missions.Samples.{two_missions, sort_report, write_report}
use agentic_workflows.Graph.Checkpoints.{
  CheckpointStore, no_checkpoints, save, load_latest, load_latest_run, list_checkpoints,
}
use agentic_workflows.Graph.Checkpoints.Laws.{IsOrdered, up_to_step, load_latest-save}
use agentic_workflows.Graph.Guards.{
  enforce_rerun_completion_guard, purge_queued_finish_actions, route_after_plan, clarify_node,
  finish,
}
use agentic_workflows.Memo.Policy.{requires_memoization, suggested_memo_key}
use agentic_workflows.Planner.Fallback.{memo_key, deterministic_fallback_action}
use agentic_workflows.Graph.MemoPolicy.{enforce_memo_policy}
use agentic_workflows.Graph.MemoPolicy.Laws.{IsMemoize, policy_node_lem}
use agentic_workflows.Graph.Guards.Laws.{IsGuarded, guard_lem}

abbrev queue : List Fields
queue =
    field "action" (str " Finish ") end
    ∷ field "action" (str "tool") (field "tool_name" (str "sort_array") end)
    ∷ field "action" (str "finish") end
    ∷ []

abbrev rerun : RunState
rerun = record two_missions {
  mission_reports = sort_report ∷ record write_report { status = completed } ∷ [];
  rerun_target_ids = pos 2 ∷ negsuc 3 ∷ [];
  pending_action_queue = queue;
}

abbrev dumps : RunState → String
dumps s = s.run_id

abbrev loads : String → RunState
loads text = record two_missions { run_id = text }

graph : Unit {0}
unfolding enforce_rerun_completion_guard purge_queued_finish_actions route_after_plan clarify_node
    save load_latest load_latest_run list_checkpoints
graph = tt

-- The target is done though the first mission is open, so the planning stops.
stop_test : (enforce_rerun_completion_guard dumps loads "now" rerun no_checkpoints).0 ≡ true
unfolding graph
stop_test = refl

clarify_test : route_after_plan (clarify_node rerun) ≡ finish
unfolding graph
clarify_test = refl

purge_test : (purge_queued_finish_actions rerun).0 ≡ 2
unfolding graph
purge_test = refl

abbrev saved : CheckpointStore
saved = save dumps loads "now" "r" 3 "plan" rerun no_checkpoints

-- The run of the last save is loaded, though its step is an earlier one.
later_test :
    map
      (λ (s : RunState). s.run_id)
      (elim (load_latest_run dumps loads "now"
        (save dumps loads "now" "q" 1 "plan" (record rerun { run_id = "q" }) saved)) [
          | none ↦ []
          | some s ↦ s ∷ []
        ])
    ≡ "q" ∷ []
unfolding graph
later_test = refl

saved-IsOrdered : IsOrdered saved
unfolding graph all
saved-IsOrdered = record { older = refl }

load_latest-save_example :
    (load_latest dumps loads "now" "r" (save dumps loads "now" "r" 2 "execute" rerun saved) ≡ (
      if "r" == "r" && up_to_step 2 "r" saved
      then some (loads (dumps rerun))
      else load_latest dumps loads "now" "r" saved))
    × IsOrdered (save dumps loads "now" "r" 2 "execute" rerun saved)
load_latest-save_example =
    load_latest-save dumps loads "now" "r" "r" 2 "execute" rerun saved saved-IsOrdered

guard_lem_example :
    IsGuarded dumps loads "now" rerun saved
      (enforce_rerun_completion_guard dumps loads "now" rerun saved)
guard_lem_example = guard_lem dumps loads "now" rerun saved saved-IsOrdered

-- A long write was the last tool's result.
abbrev wrote : RunState
wrote = record two_missions {
  policy_flags = field "last_tool_name" (str "write_file") (
      field "last_tool_args" (obj (field "path" (str "fib.txt") (field "content" (str "0, 1") end)))
        end);
}

abbrev hash_json : Value → String
hash_json v = to_str v

policy_test :
    memo_key (enforce_memo_policy hash_json dumps loads "now" wrote saved).0.policy_flags
    ≡ "write_file:fib.txt"
unfolding graph enforce_memo_policy memo_key agentic_workflows.Base.Text.contains_text
policy_test = refl

policy_node_lem_example :
    let s' = (enforce_memo_policy hash_json dumps loads "now" wrote saved).0 in
    let tool = get_str "" "last_tool_name" wrote.policy_flags in
    let args = get_dict "last_tool_args" wrote.policy_flags in
    let result = get_dict "last_tool_result" wrote.policy_flags in
    if requires_memoization tool args result
    then IsMemoize
        (strip (suggested_memo_key hash_json tool args result))
        (deterministic_fallback_action (λ a. to_str (obj a)) s')
    else (s' ≡ wrote)
policy_node_lem_example =
    policy_node_lem hash_json dumps loads "now" wrote saved (λ a. to_str (obj a))

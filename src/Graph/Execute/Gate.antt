-- ===== src/Graph/Execute/Gate.antt =====
-- Of orchestration/langgraph/graph.py, the guards of `_execute_action` in their order: the scope of the
-- specialist, the memo lookup, the policy, the registry and the calls that were made before. A call
-- that passes them all goes on to `next`.
pub mod Traces
pub mod Laws
use agentic_workflows.Base.{
  ℕ, String, Bool, true, false, not, ◌&&◌, ◌||◌, Option, none, some, List, [], ◌++◌, if◌then◌else◌,
  is_nil, ltb, contains, sorted, ◌==◌,
}
use agentic_workflows.Base.Int.{pos}
use agentic_workflows.Base.Text.{strip, empty, join}
use agentic_workflows.Values.{
  Value, bool, int, str, Fields, end, get, put, set_default, get_str, get_dict,
}
use agentic_workflows.Missions.{RunState}
use agentic_workflows.Missions.Progress.{
  next_incomplete_mission, all_missions_completed, build_auto_finish_answer,
}
use agentic_workflows.Memo.Keys.{
  has_attempted_memo_lookup, mark_next_mission_complete_from_memo_hit,
}
use agentic_workflows.Memo.Policy.{max_policy_retries}
use agentic_workflows.Planner.Aliases.{normalize_tool_args}
use agentic_workflows.Planner.Fallback.{finish_action, memo_required}
use agentic_workflows.Routing.Directives.{
  allowed_tools, specialist_of, is_tool_allowed_for_specialist,
}
use agentic_workflows.Graph.Finish.{get_count}
use agentic_workflows.Graph.Execute.{
  done, ◌+++◌, Session, Step, raised, Env, with_run, with_pending, say, count_retry, checkpoint,
}
use agentic_workflows.Graph.Execute.Lookup.{memo_lookup_candidates, auto_lookup_before_write}
use agentic_workflows.Graph.Execute.Contexts.{mission_index_of, start_mission}

abbrev pub max_duplicate_tool_retries : ℕ
max_duplicate_tool_retries = 6

unfoldable pub action_tool : Fields → String
action_tool action = get_str "" "tool_name" action

unfoldable pub specialist_for : String → String
specialist_for active = let name = strip active in if empty name then "executor" else name

unfoldable pub scope_of : String → List String
scope_of specialist = elim (specialist_of specialist) [
  | none ↦ []
  | some s ↦ sorted (allowed_tools s)
]

-- The arguments with what the memo tools are given of the state.
unfoldable pub call_args : String → Fields → RunState → Fields
call_args tool args run =
    let with_id =
      if tool == "memoize" || tool == "retrieve_memo"
      then set_default "run_id" (str run.run_id) args
      else args in
    if tool == "memoize" then set_default "step" (int (pos run.step)) with_id else with_id

unfoldable pub is_cursor_resume : Fields → String → Bool
is_cursor_resume action tool = is_true (get "__cursor_resume" action) && (tool == "read_file_chunk")
  where
    is_true : Option Value → Bool
    is_true (some (bool b)) = b
    is_true o = false

-- Whether a write is looked for in the memo store first.
unfoldable pub must_look_up : String → List String → RunState → Bool
must_look_up tool keys run =
    not (is_nil keys) && not (tool == "retrieve_memo") && not (has_attempted_memo_lookup run keys)

module _ {W : Type 0} (env : Env W) where
  -- The state that a guard leaves: what is pending, with a checkpoint.
  unfoldable pub stopped : String → Option Fields → Session W → Session W
  stopped node action s = checkpoint env node (with_pending action s)

  -- A message, nothing pending, and a checkpoint.
  unfoldable pub refused : String → String → Session W → Session W
  refused node text s = stopped node none (with_run (say text s.run) s)

  unfoldable pub scope_violation : String → String → Session W → Session W
  scope_violation specialist tool s =
      refused "execute_scope_violation"
        ("Tool '"
          +++ tool
          +++ "' is not allowed for specialist '"
          +++ specialist
          +++ "'. Allowed tools: "
          +++ join ", " (scope_of specialist)
          +++ ".")
        s

  -- A memo hit stands for the call.
  unfoldable pub lookup_hit : String → Fields → Session W → Session W
  lookup_hit tool memo_hit s =
      refused "execute_lookup_hit_skip"
        ("Memo hit found for this deterministic write. "
          +++ "Skip recomputation and continue with remaining tasks.")
        (if tool == "write_file"
          then with_run (mark_next_mission_complete_from_memo_hit s.run memo_hit) s
          else s)

  unfoldable pub policy_text : Session W → String
  policy_text s =
      "Memoization required before proceeding ("
      +++ get_str "" "memo_required_reason" s.run.policy_flags
      +++ "). Call memoize now with key='"
      +++ get_str "" "memo_required_key" s.run.policy_flags
      +++ "' and run_id='"
      +++ s.run.run_id
      +++ "'."

  -- The memo that the policy waits for is asked for again, up to a number of times.
  unfoldable pub policy_retry : Session W → Step W
  policy_retry s =
      let counted = count_retry "memo_policy" s in
      if ltb max_policy_retries (get_count "memo_policy" counted.run.retry_counts)
      then raised "MemoizationPolicyViolation"
      else done (refused "execute_policy_retry" (policy_text s) counted)

  unfoldable pub unknown_tool : String → Session W → Session W
  unknown_tool tool s =
      refused "execute_unknown_tool"
        ("Unknown tool '" +++ tool +++ "'. Use one of: " +++ join ", " env.tools +++ ".") s

  unfoldable pub duplicate_fail_text : String → String
  duplicate_fail_text next_mission =
      "Run stopped: repeated duplicate tool actions prevented mission progress. Next task: "
      +++ (if empty next_mission then "unknown" else next_mission)
      +++ "."

  -- A call that was made before: a finish when all is done, or after too many.
  unfoldable pub duplicate : String → Session W → Session W
  duplicate tool s =
      let counted = count_retry "duplicate_tool" s in
      let next_mission = next_incomplete_mission s.run in
      let fail_text = duplicate_fail_text next_mission in
      if empty next_mission && all_missions_completed s.run
      then stopped "execute_duplicate_finish"
          (some (finish_action (build_auto_finish_answer counted.run))) counted
      else if ltb max_duplicate_tool_retries (get_count "duplicate_tool" counted.run.retry_counts)
      then stopped "execute_duplicate_fail_closed" (some (finish_action fail_text))
          (with_run (say fail_text counted.run) counted)
      else refused "execute_duplicate_tool"
          ("Duplicate tool call detected for '"
            +++ tool
            +++ "' with the same arguments. Do not repeat completed calls. "
            +++ (if empty next_mission
                then "All listed tasks look complete. Emit finish now."
                else "Next incomplete task: " +++ next_mission +++ "."))
          counted

  unfoldable pub signature_of : String → Fields → String
  signature_of tool args = tool +++ ":" +++ env.sorted_dumps args

  module _ (next : String → Fields → Session W → Step W) where
    -- The call is not one that was made before.
    unfoldable pub check_duplicate : Fields → String → Fields → Session W → Step W
    check_duplicate action tool args s =
        if not (is_cursor_resume action tool)
          && contains s.run.seen_tool_signatures (signature_of tool args)
        then done (duplicate tool s)
        else next tool args s

    unfoldable pub check_policy : Fields → String → Fields → Session W → Step W
    check_policy action tool args s =
        if memo_required s.run.policy_flags && not (tool == "memoize")
        then policy_retry s
        else if not (contains env.tools tool)
        then done (unknown_tool tool s)
        else check_duplicate action tool (call_args tool args s.run) s

    unfoldable pub check_lookup : Fields → String → Fields → Session W → Step W
    check_lookup action tool args s =
        let keys = memo_lookup_candidates env tool args in
        if must_look_up tool keys s.run
        then auto_lookup_before_write env keys (λ hit after. done (lookup_hit tool hit after))
            (check_policy action tool args) s
        else check_policy action tool args s

    unfoldable pub check_scope : Fields → Session W → Step W
    check_scope action s =
        let tool = action_tool action in
        let specialist = specialist_for s.active_specialist in
        if not (is_tool_allowed_for_specialist specialist tool)
        then done (scope_violation specialist tool s)
        else check_lookup action tool (normalize_tool_args tool (get_dict "args" action))
            (start_mission (mission_index_of action s.run) s)

-- ===== src/Graph/Execute/Action.antt =====
-- Of orchestration/langgraph/graph.py, the node `_execute_action` itself: the call of the tool behind
-- the guards, and what becomes of its result.
pub mod Ends
pub mod Laws
use agentic_workflows.Base.{
  ℕ, String, Bool, false, ◌&&◌, Option, none, some, [], ◌∷◌, ◌++◌, if◌then◌else◌, ltb, contains,
  ◌==◌,
}
use agentic_workflows.Base.Int.{ℤ, pos}
use agentic_workflows.Values.{
  Value, bool, int, str, obj, Fields, end, field, get, put, has, get_str,
}
use agentic_workflows.Memo.Policy.{requires_memoization, suggested_memo_key}
use agentic_workflows.Memo.Store.{hash_json}
use agentic_workflows.Planner.Fallback.{finish_action}
use agentic_workflows.Validate.{validate_tool_result_for_active_mission}
use agentic_workflows.Graph.Finish.{get_count}
use agentic_workflows.Graph.Execute.{
  done, ◌+++◌, MemoEvent, Session, Step, Env, with_run, with_pending, remember, checkpoint,
  call_tool,
}
use agentic_workflows.Graph.Execute.Lookup.{record_retrieve_memo_trace}
use agentic_workflows.Graph.Execute.Cache.{cache_write_file_inputs}
use agentic_workflows.Graph.Execute.Contexts.{mission_index_of}
use agentic_workflows.Graph.Execute.Gate.{signature_of, check_scope}
use agentic_workflows.Graph.Execute.Records.{
  index_arg, tracked, failed_result, track_cursor, validation_failed, recorded,
}

abbrev pub max_content_validation_retries : ℕ
max_content_validation_retries = 2

module _ {W : Type 0} (env : Env W) where
  unfoldable pub with_last : String → Fields → Fields → Session W → Session W
  with_last tool args result s = record s {
    run = record s.run {
      policy_flags =
          put "last_tool_result" (obj result)
            (put "last_tool_args" (obj args) (put "last_tool_name" (str tool) s.run.policy_flags));
    };
  }

  unfoldable pub validation_fail_text : String → String
  validation_fail_text problem =
      "Run failed closed after repeated deterministic content validation failures. Last issue: "
      +++ problem

  -- The end of a call whose result was refused: again, or a finish after too many.
  unfoldable pub end_refused : String → Session W → Session W
  end_refused problem s = checkpoint env "execute_content_validation" (
      with_last "" end end (
        with_pending
          (if ltb max_content_validation_retries (get_count "content_validation" s.run.retry_counts)
            then some (finish_action (validation_fail_text problem))
            else none)
          s))

  unfoldable pub memo_event : String → String → Fields → Session W → MemoEvent
  memo_event key source result s = record {
    key = get_str key "key" result;
    namespace = get_str "run" "namespace" result;
    source_tool = source;
    step = s.run.step;
    value_hash = get_str "" "value_hash" result;
    created_at = env.now;
  }

  -- A memoize call that was made fulfils the policy's demand.
  unfoldable pub memoized : String → Fields → Fields → Session W → Session W
  memoized tool args result s =
      if tool == "memoize" && has "value_hash" result
      then remember (memo_event "" (get_str "memoize" "source_tool" args) result s) (record s {
        run = record s.run {
          policy_flags = put "memo_required_reason" (str "") (
              put "memo_required_key" (str "")
                (put "memo_required" (bool false) s.run.policy_flags));
          retry_counts = put "memo_policy" (int (pos 0)) s.run.retry_counts;
        };
      })
      else s

  unfoldable pub auto_args : String → Fields → Session W → Fields
  auto_args key result s = field "key" (str key) (
      field "value" (obj result) (
        field "run_id" (str s.run.run_id)
          (field "step" (int (pos s.run.step)) (field "source_tool" (str "write_file") end))))

  unfoldable pub auto_memoized : String → Fields → Session W → Session W
  auto_memoized key result s =
      if has "value_hash" result
      then remember (memo_event key "write_file" result s) (record s {
        run = record s.run {
          policy_flags = put "last_tool_name" (str "memoize") s.run.policy_flags;
        };
      })
      else s

  -- The end of a call: a write is memoized at once where the policy asks for it.
  unfoldable pub end_call : String → Fields → Fields → Session W → Step W
  end_call tool args result s =
      let cached = if tool == "write_file" then cache_write_file_inputs env args s else s in
      let ended =
        with_pending none (with_last tool args result (memoized tool args result cached)) in
      let key =
        suggested_memo_key (hash_json env.dumps env.loads env.sha256 env.now) tool args result in
      if tool == "write_file" && requires_memoization tool args result
      then call_tool env "memoize" (auto_args key result ended)
          (λ answer after. done (checkpoint env "execute" (auto_memoized key answer after))) ended
      else done (checkpoint env "execute" ended)

  -- A result: validated, recorded, and the call ended by what the validation says.
  unfoldable pub judged_result : ℤ → String → Fields → Fields → Session W → Step W
  judged_result mission_index tool args result s =
      let tracked_s = track_cursor env tool args result s in
      let traced =
        if tool == "retrieve_memo"
        then record_retrieve_memo_trace env result tracked_s
        else tracked_s in
      elim (validate_tool_result_for_active_mission env.pattern_error traced.run tool args result
        (index_arg mission_index)) [
          | none ↦
              end_call tool args result (recorded env tool args result none mission_index traced)
          | some problem ↦ done (
              end_refused problem (
                recorded env tool args (failed_result problem) (some problem) mission_index
                  (validation_failed env tool problem traced)))
        ]

  -- seen_tool_signatures.add(signature)
  unfoldable pub see : String → Session W → Session W
  see signature s = record s {
    run = record s.run {
      seen_tool_signatures =
          if contains s.run.seen_tool_signatures signature
          then s.run.seen_tool_signatures
          else s.run.seen_tool_signatures ++ signature ∷ [];
    };
  }

  unfoldable pub call_seen : ℤ → String → Fields → Session W → Step W
  call_seen mission_index tool args s =
      call_tool env tool args (judged_result mission_index tool args)
        (see (signature_of env tool args) s)

  unfoldable pub is_finish : Option Value → Bool
  is_finish (some (str s)) = s == "finish"
  is_finish v = false

  unfoldable pub execute_pending : Fields → Session W → Step W
  execute_pending action s =
      if is_finish (get "action" action)
      then done (with_run (record s.run { final_answer = get_str "" "answer" action }) s)
      else check_scope env (call_seen (mission_index_of action s.run)) action s

  unfoldable pub execute_action : Session W → Step W
  execute_action s = elim s.run.pending_action [
    | none ↦ done s
    | some action ↦ elim action [ end ↦ done s | field k v fs ↦ execute_pending (field k v fs) s ]
  ]

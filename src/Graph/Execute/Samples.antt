-- ===== src/Graph/Execute/Samples.antt =====
-- An execution at a pending call of a tool, and what was proved of every execution at it.
use agentic_workflows.Base.{
  ℕ, String, ◌≡◌, refl, Option, none, some, List, [], ◌∷◌, map, all, contains, difference, sorted,
}
use agentic_workflows.Values.{null, str, obj, Fields, end, field, to_str, get_dict, get_str, get}
use agentic_workflows.Missions.Samples.{two_missions}
use agentic_workflows.Memo.Store.{MemoStore, empty_store}
use agentic_workflows.Graph.Checkpoints.{no_checkpoints}
use agentic_workflows.Graph.Execute.{
  Session, Env, Called, gave, Step, done, raised, call_tool, checkpoint, count_retry, emit_trace,
  log_call, say,
}
use agentic_workflows.Graph.Execute.Action.{
  execute_action, execute_pending, call_seen, end_call, is_finish, judged_result, memoized, see,
  with_last,
}
use agentic_workflows.Graph.Execute.Records.{recorded, track_cursor, validator_pass}
use agentic_workflows.Graph.Execute.Cache.{inputs, cached_content, cache_write_file_inputs}
use agentic_workflows.Graph.Execute.Cache.Laws.{IsShared, cached_content-cache_write}
use agentic_workflows.Memo.Store.{get_latest}
use agentic_workflows.Memo.Keys.{write_cache_candidates}
use agentic_workflows.Graph.Execute.Action.Laws.{Executed, execute_action-Executed}
use agentic_workflows.Base.Text.{strip}
use agentic_workflows.Context.Completion.{on_mission_complete}
use agentic_workflows.Context.{get_context}
use agentic_workflows.Graph.Execute.Contexts.{
  complete_missions, complete_mission, mission_index_of, named_mission, start_mission,
  store_in_context, was_completed, with_range,
}
use agentic_workflows.Graph.Execute.Gate.{
  action_tool, call_args, check_duplicate, check_lookup, check_policy, check_scope, duplicate,
  is_cursor_resume, must_look_up, refused, signature_of, specialist_for, stopped,
}
use agentic_workflows.Graph.Execute.Lookup.{memo_lookup_candidates}
use agentic_workflows.Graph.Finish.{get_count}
use agentic_workflows.Missions.Events.{
  add_event, ensure_reports, event_index, next_incomplete_mission_index, record_mission_tool_event,
}
use agentic_workflows.Missions.Progress.{next_incomplete_mission}
use agentic_workflows.Missions.Status.{
  has_latest_error, missing_files_of, missing_tools_of, needs_of, refresh_mission_status,
  subtask_status,
}
use agentic_workflows.Planner.Aliases.{normalize_tool_args}
use agentic_workflows.Planner.Fallback.{memo_required}
use agentic_workflows.Routing.Directives.{is_tool_allowed_for_specialist}
use agentic_workflows.Validate.{validate_tool_result_for_active_mission}

-- The tools keep the names of what was called.
abbrev call : String → Fields → MemoStore → List String → Called (List String)
call tool args memos world = gave (field "result" (str "sorted") end) memos (tool ∷ world)

abbrev start : Option Fields → List String → Session (List String)
start action seen = record {
  run = record two_missions { pending_action = action; seen_tool_signatures = seen };
  active_specialist = "executor";
  tool_call_counts = end;
  memo_events = [];
  mission_contexts = [];
  pipeline_trace = [];
  memos = empty_store;
  checkpoints = no_checkpoints;
  cursors = none;
  world = [];
}

abbrev env : Env (List String)
env = record {
  tools = "sort_array" ∷ "write_file" ∷ "memoize" ∷ "retrieve_memo" ∷ [];
  call = call;
  dumps = to_str;
  sorted_dumps = λ args. to_str (obj args);
  loads = λ text. null;
  sha256 = λ text. text;
  now = "now";
  pattern_error = λ content. none;
  dump_state = λ s. s.run.run_id;
  load_state = λ text. start none [];
}

abbrev sort_call : Fields
sort_call =
    field "action" (str "tool") (
      field "tool_name" (str "sort_array") (field "args" (obj (field "items" (str "3,1") end)) end))

abbrev outcome : Step (List String) → Option (List String × List (ℕ × String) × Option Fields)
outcome (raised e) = none
outcome (done s) =
    some (s.world, map (λ r. (r.call, r.tool)) s.run.tool_history, s.run.pending_action)

executing : Unit {0}
unfolding execute_action execute_pending is_finish get check_scope is_tool_allowed_for_specialist
    specialist_for strip contains action_tool get_str check_lookup must_look_up
    memo_lookup_candidates check_policy memo_required start_mission mission_index_of named_mission
    next_incomplete_mission_index check_duplicate is_cursor_resume call_seen call_tool judged_result
    validate_tool_result_for_active_mission track_cursor see end_call checkpoint with_last memoized
    recorded store_in_context say signature_of call_args normalize_tool_args get_dict duplicate
    next_incomplete_mission get_count count_retry refused stopped complete_missions validator_pass
    emit_trace record_mission_tool_event ensure_reports log_call event_index refresh_mission_status
    missing_tools_of needs_of add_event sorted difference missing_files_of all subtask_status
    has_latest_error was_completed complete_mission with_range get_context on_mission_complete
executing = tt

call_test :
    outcome (execute_action env (start (some sort_call) []))
    ≡ some ("sort_array" ∷ [], (1, "sort_array") ∷ [], none)
unfolding executing
call_test = refl

-- The same call again is not made.
duplicate_test :
    outcome (execute_action env (start (some sort_call) ("sort_array:{'items': '3,1'}" ∷ [])))
    ≡ some ([], [], none)
unfolding executing
duplicate_test = refl

execute_action-Executed_example :
    Executed env
      (start (some sort_call) [])
      sort_call
      (execute_action env (start (some sort_call) []))
execute_action-Executed_example = execute_action-Executed env (start (some sort_call) [])

abbrev write_args : Fields
write_args = field "path" (str "out/a.txt") (field "content" (str "1,2") end)

-- Of JSON, the reading of what the write keeps.
abbrev writing : Env (List String)
writing = record env { loads = λ text. inputs "out/a.txt" "1,2" }

cached_content-cache_write_example :
    IsShared (cache_write_file_inputs writing write_args (start none [])).memos
    × (cached_content (
          get_latest writing.dumps writing.loads writing.sha256 writing.now "write_file_input:a.txt"
            "cache"
            (cache_write_file_inputs writing write_args (start none [])).memos)
        ≡ some "1,2")
unfolding get_str get strip write_cache_candidates contains agentic_workflows.Base.Text.basename
cached_content-cache_write_example =
    cached_content-cache_write writing write_args (start none []) "write_file_input:a.txt"
      (record { unique = tt; below = tt }, tt) refl

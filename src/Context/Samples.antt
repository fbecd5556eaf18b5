-- ===== src/Context/Samples.antt =====
-- The context manager on a small run.
use agentic_workflows.Base.{
  ℕ, ◌≤◌, String, ◌≡◌, refl, ◌⊎◌, false, Option, none, some, List, [], ◌∷◌, map, arith, length,
}
use agentic_workflows.Base.Text.{size, join, prefix, print_nat}
use agentic_workflows.Values.{Value, str, end, field, to_str}
use agentic_workflows.Missions.{AgentMessage}
use agentic_workflows.Context.{build_summary, concat, get_context, MissionContext, ContextState}
use agentic_workflows.Base.{drop}
use agentic_workflows.Context.Window.{Cursor, compact, cursor_hints}
use agentic_workflows.Context.Window.Laws.{IsCompacted, compact-IsCompacted}
use agentic_workflows.Context.Completion.{on_mission_complete, on_tool_result}
use agentic_workflows.Context.Completion.Laws.{on_mission_complete-summarized}
use agentic_workflows.Context.Completion.Results.{IsResultOf, on_tool_result_lem}
use agentic_workflows.Context.Injection.{
  base_result, context_cap, Hit, Caches, build_planner_context_injection,
}
use agentic_workflows.Context.Injection.Laws.{inject-once}

abbrev message : String → String → AgentMessage
message role content = record { role = role; content = content }

abbrev sort_context : MissionContext
sort_context = record {
  mission_id = 1;
  goal = "Sort 3,1,2";
  status = "pending";
  tools_used = "sort_array" ∷ [];
  key_results = ("sorted", "[1, 2, 3]") ∷ [];
  artifacts = [];
  sub_missions = [];
  summary = "";
  step_range = some (1, 2);
}

abbrev sample_state : ContextState
sample_state = record {
  run_id = "r1";
  step = 3;
  current_mission_id = 1;
  messages =
      message "system" "You plan."
      ∷ message "assistant" "{}"
      ∷ message "user" "TOOL_RESULT #1 (sort_array): [1, 2, 3]"
      ∷ message "user" "Next."
      ∷ [];
  missions = "Sort 3,1,2" ∷ [];
  mission_contexts = (1, sort_context) ∷ [];
  pipeline_trace = [];
}

abbrev chunked_reads : Option (String → List Cursor)
chunked_reads = some (λ run_id. record { key = "a.txt"; next_offset = 40; total = 90 } ∷ [])

compact_test :
    map (λ m. m.content) (compact none 2 sample_state).messages ≡ "You plan." ∷ "Next." ∷ []
unfolding compact
compact_test = refl

compact-IsCompacted_example :
    IsCompacted 2 sample_state.messages
      (cursor_hints chunked_reads "r1")
      (compact chunked_reads 2 sample_state).messages
compact-IsCompacted_example = compact-IsCompacted chunked_reads 2 sample_state

complete_test :
    map (λ m. m.content) (on_mission_complete 1 sample_state).messages
    ≡ "You plan." ∷ "[Orchestrator] Mission 1: Sort 3,1,2 | Tools: sort_array | sorted: [1, 2, 3]"
      ∷ "Next." ∷ []
unfolding on_mission_complete join print_nat
complete_test = refl

on_mission_complete-summarized_example :
    let after = on_mission_complete 1 sample_state in
    (after.messages
      ≡ message "system" "You plan."
        ∷ message "user" (concat ("[Orchestrator] " ∷ build_summary sort_context ∷ []))
        ∷ message "user" "Next."
        ∷ [])
    × (get_context 1 after.mission_contexts
        ≡ some (record sort_context { status = "completed"; summary = build_summary sort_context }))
    × (length after.pipeline_trace ≤ 500)
unfolding get_context drop
on_mission_complete-summarized_example =
    on_mission_complete-summarized 1 1 0 2 sort_context sample_state refl refl (omega arith)
      (omega arith)

abbrev dumps : Value → String
dumps v = to_str v

on_tool_result_lem_example :
    IsResultOf dumps "sort_array" (field "sorted" (str "[1, 2, 3]") end) end 1 sample_state (
      on_tool_result dumps 10 "sort_array"
        (field "sorted" (str "[1, 2, 3]") end)
        end
        1
        sample_state)
on_tool_result_lem_example =
    on_tool_result_lem dumps 10 "sort_array" (field "sorted" (str "[1, 2, 3]") end) end 1
      sample_state (omega arith)

tool_result_test :
    map
      (λ m. m.content)
      (on_tool_result dumps 10 "sort_array"
        (field "sorted" (str "[1, 2, 3]") end)
        end
        1
        sample_state).messages
    ≡ "You plan." ∷ "{}" ∷ "[tool_result: sort_array, 23 chars, stored in context]" ∷ "Next." ∷ []
unfolding on_tool_result join print_nat
tool_result_test = refl

abbrev no_caches : Caches ℕ
no_caches = record { cascade_cache = []; embed_cache = []; injected_cross_run_keys = [] }

abbrev embed : Option (String → Option ℕ)
embed = some (λ goal. some 7)

abbrev earlier : Option (String → Option ℕ → Option (List Hit))
earlier = some (λ goal e. some (
    record {
      goal = "Sort 9,8";
      summary = "done";
      status = "partial";
      used_tools = "sort_array" ∷ [];
      subtask_statuses = record { satisfied = false; missing_tools = "write_file" ∷ [] } ∷ [];
    }
    ∷ []))

inject_test :
    (build_planner_context_injection embed earlier sample_state no_caches).0
    ≡ "[Cross-run] Similar: \"Sort 9,8\" | Tools: sort_array | Status: partial | done | Remaining: write_file"
unfolding build_planner_context_injection join size prefix
inject_test = refl

inject-once_example :
    let inject = build_planner_context_injection embed earlier sample_state in
    let base = prefix context_cap (base_result sample_state) in
    let first = inject no_caches in
    let second = inject first.1 in (size first.0 ≤ 1500) × ((first.0 ≡ base) ⊎ (second.0 ≡ base))
inject-once_example = inject-once embed earlier sample_state no_caches

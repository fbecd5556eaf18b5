-- ===== src/Context/Completion.antt =====
-- orchestration/langgraph/context_manager.py: what the end of a mission and a tool's result make of
-- the transcript and of the mission's context, and what a specialist is told of earlier missions.
pub mod Laws
pub mod Results
use agentic_workflows.Base.{
  ℕ, zero, suc, ◌+◌, ◌-◌, min, String, Bool, not, ◌&&◌, Option, none, some, List, [], ◌∷◌, ◌++◌,
  ltb, leb, eqb, if◌then◌else◌, get_or, length, get_elem?, contains, ◌==◌,
}
use agentic_workflows.Base.Text.{size, contains_text, join, print_nat}
use agentic_workflows.Values.{Value, int, str, obj, Fields, end, get, put, remove, to_str}
use agentic_workflows.Missions.{AgentMessage}
use agentic_workflows.Context.{
  update_texts, ArtifactRecord, MissionContext, concat, build_summary, ContextState, get_context,
  put_context, by_id,
}
use agentic_workflows.Context.Artifacts.{extract_artifacts, extract_summary_from_result}
use agentic_workflows.Context.Window.{emit_eviction_event, with_messages}

-- state["mission_contexts"][id] = ctx
unfoldable pub with_context : ℕ → MissionContext → ContextState → ContextState
unfolding put_context
with_context id ctx s = record {
  run_id = s.run_id;
  step = s.step;
  current_mission_id = s.current_mission_id;
  messages = s.messages;
  missions = s.missions;
  mission_contexts = put_context id ctx s.mission_contexts;
  pipeline_trace = s.pipeline_trace;
}

-- The messages from position i on that are kept: the first one, and those outside of the range.
unfoldable pub outside : ℕ → ℕ → ℕ → List AgentMessage → List AgentMessage
outside start_step end_step i [] = []
outside start_step end_step i (m ∷ messages) =
    let rest = outside start_step end_step (suc i) messages in
    if not (eqb i 0) && leb start_step i && leb i end_step then rest else m ∷ rest

-- xs.insert(n, x)
unfoldable pub insert_at {ℓ} : {A : Type ℓ} → ℕ → A → List A → List A
insert_at zero x xs = x ∷ xs
insert_at (suc n) x [] = x ∷ []
insert_at (suc n) x (y ∷ xs) = y ∷ insert_at n x xs

unfoldable pub summary_message : MissionContext → AgentMessage
unfolding build_summary concat
summary_message ctx = record {
  role = "user";
  content = concat ("[Orchestrator] " ∷ build_summary ctx ∷ []);
}

-- The transcript with a message in the place of those of the range.
unfoldable pub replace_range : Option (ℕ × ℕ) → AgentMessage → List AgentMessage → List AgentMessage
unfolding outside insert_at
replace_range none summary_msg messages = messages ++ summary_msg ∷ []
replace_range (some (start_step, end_step)) summary_msg messages =
    let keep = outside start_step end_step 0 messages in
    insert_at (min start_step (length keep)) summary_msg keep

unfoldable pub summarized : MissionContext → List AgentMessage → List AgentMessage
unfolding replace_range summary_message
summarized ctx messages = replace_range ctx.step_range (summary_message ctx) messages

unfoldable pub removed_count : MissionContext → List AgentMessage → ℕ
unfolding outside
removed_count ctx messages = elim ctx.step_range [
  | none ↦ 0
  | some (start_step, end_step) ↦ length messages - length (outside start_step end_step 0 messages)
]

unfoldable pub completed_context : MissionContext → MissionContext
unfolding build_summary
completed_context ctx = record {
  mission_id = ctx.mission_id;
  goal = ctx.goal;
  status = "completed";
  tools_used = ctx.tools_used;
  key_results = ctx.key_results;
  artifacts = ctx.artifacts;
  sub_missions = ctx.sub_missions;
  summary = build_summary ctx;
  step_range = ctx.step_range;
}

unfoldable pub on_mission_complete : ℕ → ContextState → ContextState
unfolding get_context summarized removed_count completed_context with_messages with_context
    emit_eviction_event build_summary
on_mission_complete id s = elim (get_context id s.mission_contexts) [
  | none ↦ s
  | some ctx ↦
      emit_eviction_event "mission_complete" id (removed_count ctx s.messages) (build_summary ctx)
        (with_context id (completed_context ctx) (with_messages (summarized ctx s.messages) s))
]

-- The last element that passes the test, changed; none where no element passes.
unfoldable pub change_last {ℓ} : {A : Type ℓ} → (A → Bool) → (A → A) → List A → Option (List A)
change_last p f [] = none
change_last p f (x ∷ xs) = elim (change_last p f xs) [
  | some ys ↦ some (x ∷ ys)
  | none ↦ if p x then some (f x ∷ xs) else none
]

unfoldable pub is_result_of : String → AgentMessage → Bool
unfolding contains_text concat
is_result_of tool m =
    contains_text m.content "TOOL_RESULT"
    && contains_text m.content (concat ("(" ∷ tool ∷ ")" ∷ []))

unfoldable pub placeholder : String → ℕ → AgentMessage → AgentMessage
unfolding concat
placeholder tool result_len m = record {
  role = m.role;
  content =
      concat
        ("[tool_result: " ∷ tool ∷ ", " ∷ print_nat result_len ∷ " chars, stored in context]" ∷ []);
}

module _ (dumps : Value → String) where
  unfoldable pub with_result : String → Fields → Fields → ℕ → MissionContext → MissionContext
  unfolding update_texts extract_artifacts extract_summary_from_result contains
  with_result tool result args id ctx = record {
    mission_id = ctx.mission_id;
    goal = ctx.goal;
    status = ctx.status;
    tools_used =
        if contains ctx.tools_used tool then ctx.tools_used else ctx.tools_used ++ tool ∷ [];
    key_results = update_texts ctx.key_results (extract_summary_from_result dumps tool result);
    artifacts = ctx.artifacts ++ extract_artifacts dumps tool result args id;
    sub_missions = ctx.sub_missions;
    summary = ctx.summary;
    step_range = ctx.step_range;
  }

  unfoldable pub update_context : String → Fields → Fields → ℕ → ContextState → ContextState
  unfolding get_context with_context with_result
  update_context tool result args id s = elim (get_context id s.mission_contexts) [
    | none ↦ s
    | some ctx ↦ with_context id (with_result tool result args id ctx) s
  ]

  -- The transcript with a large result replaced, when there is one to replace.
  unfoldable pub replaced_messages :
      ℕ → String → Fields → List AgentMessage → Option (List AgentMessage)
  unfolding size to_str change_last is_result_of placeholder
  replaced_messages large_result_threshold tool result messages =
      let result_len = size (to_str (obj result)) in
      if ltb large_result_threshold result_len
      then change_last (is_result_of tool) (placeholder tool result_len) messages
      else none

  unfoldable pub store_result :
      Option (List AgentMessage) → String → Fields → Fields → ℕ → ContextState → ContextState
  unfolding update_context with_messages emit_eviction_event concat size to_str
  store_result none tool result args id s = update_context tool result args id s
  store_result (some messages) tool result args id s =
      emit_eviction_event "large_tool_result" id 1
        (concat (
          "[tool_result: " ∷ tool ∷ ", " ∷ print_nat (size (to_str (obj result))) ∷ " chars]" ∷ []))
        (update_context tool result args id (with_messages messages s))

  unfoldable pub on_tool_result : ℕ → String → Fields → Fields → ℕ → ContextState → ContextState
  unfolding replaced_messages store_result
  on_tool_result large_result_threshold tool result args id s =
      store_result (replaced_messages large_result_threshold tool result s.messages) tool result
        args id s

unfoldable pub artifacts_before : ℕ → List (ℕ × MissionContext) → List ArtifactRecord
artifacts_before id [] = []
artifacts_before id ((k, ctx) ∷ contexts) =
    let rest = artifacts_before id contexts in if ltb k id then ctx.artifacts ++ rest else rest

unfoldable pub get_artifacts_for_mission : ContextState → ℕ → List ArtifactRecord
unfolding artifacts_before
get_artifacts_for_mission s id = artifacts_before id s.mission_contexts

pub record SpecialistContext : Type 0 where
  pub mission_goal : String
  pub prior_results_summary : String

goal_of : ContextState → ℕ → String
unfolding get_context
goal_of s id = elim (get_context id s.mission_contexts) [
  | some ctx ↦ ctx.goal
  | none ↦ if ltb 0 id then get_or "" (get_elem? s.missions (id - 1)) else ""
]

unfoldable pub prior_parts : ℕ → List (ℕ × MissionContext) → List String
unfolding build_summary
prior_parts id [] = []
prior_parts id ((k, ctx) ∷ contexts) =
    let rest = prior_parts id contexts in
    if ltb k id && (ctx.status == "completed") then build_summary ctx ∷ rest else rest

unfoldable pub build_specialist_context : ContextState → ℕ → SpecialistContext
unfolding goal_of prior_parts by_id
build_specialist_context s id = record {
  mission_goal = goal_of s id;
  prior_results_summary = join "\n" (prior_parts id (by_id s.mission_contexts));
}

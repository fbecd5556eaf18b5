-- ===== src/Context/Window.antt =====
-- orchestration/langgraph/context_manager.py: the cap on the number of messages, the compaction of a
-- transcript that is too long for the model, and the trace of evictions. The cursors of chunked reads
-- that a mission context store would report are a parameter, absent without a store.
pub mod Slices
pub mod Laws
pub mod Bounds
use Prim.Native.Nat.{◌*◌, ◌/◌}
use agentic_workflows.Base.{drop}
use agentic_workflows.Base.{
  ℕ, ◌+◌, ◌-◌, min, String, ap, Bool, not, Option, none, some, List, [], ◌∷◌, ◌++◌, map, ltb, leb,
  eqb, if◌then◌else◌, length, set, select, ◌==◌,
}
use agentic_workflows.Base.Int.{pos}
use agentic_workflows.Base.Text.{empty, size, print_nat}
use agentic_workflows.Values.{int, str, Fields, end, field, remove}
use agentic_workflows.Missions.{AgentMessage}
use agentic_workflows.Context.{ContextState, concat}

-- xs[-n:], which is all of xs for n = 0
unfoldable pub last_slice {ℓ} : {A : Type ℓ} → ℕ → List A → List A
unfolding drop
last_slice n xs = if eqb n 0 then xs else drop (length xs - n) xs

abbrev pub pipeline_trace_cap : ℕ
pipeline_trace_cap = 500

-- trace.append(entry), and the oldest entries above the cap are deleted
unfoldable pub push_trace : Fields → List Fields → List Fields
unfolding drop
push_trace entry trace =
    let longer = trace ++ entry ∷ [] in
    if ltb pipeline_trace_cap (length longer)
    then drop (length longer - pipeline_trace_cap) longer
    else longer

unfoldable pub eviction_event : ℕ → String → ℕ → ℕ → String → Fields
eviction_event step trigger mission_id messages_removed summary_injected =
    field "stage" (str "context_eviction") (
      field "step" (int (pos step)) (
        field "trigger" (str trigger) (
          field "mission_id" (int (pos mission_id)) (
            field "messages_removed" (int (pos messages_removed))
              (field "summary_injected" (str summary_injected) end)))))

unfoldable pub emit_eviction_event : String → ℕ → ℕ → String → ContextState → ContextState
unfolding push_trace eviction_event
emit_eviction_event trigger mission_id messages_removed summary_injected s = record {
  run_id = s.run_id;
  step = s.step;
  current_mission_id = s.current_mission_id;
  messages = s.messages;
  missions = s.missions;
  mission_contexts = s.mission_contexts;
  pipeline_trace =
      push_trace (eviction_event s.step trigger mission_id messages_removed summary_injected)
        s.pipeline_trace;
}

-- state["messages"] = messages
unfoldable pub with_messages : List AgentMessage → ContextState → ContextState
with_messages messages s = record {
  run_id = s.run_id;
  step = s.step;
  current_mission_id = s.current_mission_id;
  messages = messages;
  missions = s.missions;
  mission_contexts = s.mission_contexts;
  pipeline_trace = s.pipeline_trace;
}

abbrev pub is_system : AgentMessage → Bool
is_system m = m.role == "system"

abbrev pub is_other : AgentMessage → Bool
is_other m = not (m.role == "system")

pub record Cursor : Type 0 where
  pub key : String
  pub next_offset : ℕ
  pub total : ℕ

cursor_hint : Cursor → AgentMessage
unfolding concat
cursor_hint cur = record {
  role = "user";
  content = concat (
      "[Orchestrator] Chunked read in progress: read_file_chunk path="
      ∷ cur.key
      ∷ " next_offset="
      ∷ print_nat cur.next_offset
      ∷ " of "
      ∷ print_nat cur.total
      ∷ " lines. Continue from offset="
      ∷ print_nat cur.next_offset
      ∷ "."
      ∷ []);
}

-- What a compaction keeps: the system messages, then the newest of the others.
unfoldable pub kept_messages : ℕ → List AgentMessage → List AgentMessage
unfolding select last_slice
kept_messages cap messages =
    let system_msgs = select is_system messages in
    let keep_count = cap - length system_msgs in
    if ltb 0 keep_count
    then system_msgs ++ last_slice keep_count (select is_other messages)
    else system_msgs

-- How many others it drops. A transcript above the cap has more others than are kept.
unfoldable pub dropped_count : ℕ → List AgentMessage → ℕ
unfolding select
dropped_count cap messages =
    length (select is_other messages) - (cap - length (select is_system messages))

unfoldable pub estimated_tokens : List AgentMessage → ℕ
unfolding size
estimated_tokens [] = 0
estimated_tokens (m ∷ messages) = size m.content / 4 + estimated_tokens messages

-- int(ctx_limit * 0.8), exact for limits below 2 ^ 50
unfoldable pub token_threshold : ℕ → ℕ
token_threshold ctx_limit = ctx_limit * 8 / 10

-- The system messages and the last five others.
unfoldable pub aggressive_messages : List AgentMessage → List AgentMessage
unfolding select last_slice
aggressive_messages messages =
    select is_system messages
    ++ last_slice (min 5 (length (select is_other messages))) (select is_other messages)

module _ (active_cursors : Option (String → List Cursor)) where
  unfoldable pub cursor_hints : String → List AgentMessage
  unfolding cursor_hint
  cursor_hints run_id = elim active_cursors [
    | none ↦ []
    | some active ↦ if empty run_id then [] else map cursor_hint (active run_id)
  ]

  unfoldable pub compact : ℕ → ContextState → ContextState
  unfolding kept_messages dropped_count with_messages emit_eviction_event cursor_hints
  compact cap s =
      let removed = dropped_count cap s.messages in
      let trimmed = with_messages (kept_messages cap s.messages) s in
      let reported =
        if ltb 0 removed
        then emit_eviction_event "sliding_window" 0 removed "" trimmed
        else trimmed in
      if leb (length s.messages) cap
      then s
      else with_messages (reported.messages ++ cursor_hints s.run_id) reported

  unfoldable pub proactive_compact : ℕ → ℕ → ContextState → ContextState
  unfolding estimated_tokens token_threshold compact aggressive_messages with_messages
  proactive_compact cap ctx_limit s =
      let threshold = token_threshold ctx_limit in
      let compacted = compact cap s in
      if leb (estimated_tokens s.messages) threshold
      then s
      else if ltb threshold (estimated_tokens compacted.messages)
      then with_messages (aggressive_messages compacted.messages) compacted
      else compacted

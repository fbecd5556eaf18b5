-- ===== src/Context/Window/Bounds.antt =====
-- How long the transcript is after a proactive compaction, and how long the trace of evictions gets.
use agentic_workflows.Base.{
  ℕ, ◌+◌, ◌-◌, ◌≤◌, ◌<◌, min, String, ◌≡◌, refl, ◌⊎◌, Bool, true, Option, List, [], ◌∷◌, ◌++◌,
  arith, length, length-append, select, all,
}
use agentic_workflows.Values.{Fields}
use agentic_workflows.Missions.{AgentMessage}
use agentic_workflows.Context.{ContextState}
use agentic_workflows.Context.Window.{
  eviction_event, last_slice, pipeline_trace_cap, push_trace, emit_eviction_event, with_messages,
  is_system, is_other, Cursor, dropped_count, compact, estimated_tokens, token_threshold,
  aggressive_messages, proactive_compact,
}
use agentic_workflows.Base.{length-drop}
use agentic_workflows.Context.Window.Slices.{
  all-drop, all-select, select_of_all, select_of_opposite, select-append, append_nil,
}
use agentic_workflows.Context.Window.Laws.{compact-IsCompacted}

length-last_slice {ℓ} :
    {A : Type ℓ} (n : ℕ) (xs : List A) → 0 < n → length (last_slice (min n (length xs)) xs) ≤ n
unfolding last_slice
length-last_slice n [] h = ground (arith, h)
length-last_slice n (x ∷ xs) h =
    ground (arith, h, length-drop (length (x ∷ xs) - min n (length (x ∷ xs))) (x ∷ xs))

all-last_slice {ℓ} :
    {A : Type ℓ} (p : A → Bool) (n : ℕ) (xs : List A)
    → all p xs ≡ true
    → all p (last_slice n xs) ≡ true
unfolding last_slice
all-last_slice p n xs h = ground (arith, h, all-drop p (length xs - n) xs h)

system_of_aggressive :
    (messages : List AgentMessage)
    → select is_system (aggressive_messages messages) ≡ select is_system messages
unfolding aggressive_messages
system_of_aggressive messages =
    let others = select is_other messages in
    let newest_others = last_slice (min 5 (length others)) others in
    ground (
      arith,
      select-append is_system (select is_system messages) newest_others,
      select_of_all is_system (select is_system messages) (all-select is_system messages),
      select_of_opposite is_system is_other newest_others (λ m. refl)
          (all-last_slice is_other (min 5 (length others)) others (all-select is_other messages)),
      append_nil (select is_system messages),
    )

length-aggressive :
    (messages : List AgentMessage)
    → length (aggressive_messages messages) ≤ length (select is_system messages) + 5
unfolding aggressive_messages
length-aggressive messages =
    let others = select is_other messages in
    omega (
      arith,
      length-append (select is_system messages) (last_slice (min 5 (length others)) others),
      length-last_slice 5 others (omega arith),
    )

-- A proactive compaction keeps the system messages, and afterwards the transcript is estimated below
-- four fifths of the model's limit, or it has the system messages and at most five others.
pub proactive_compact_lem :
    (active : Option (String → List Cursor)) (cap ctx_limit : ℕ) (s : ContextState)
    → let after = (proactive_compact active cap ctx_limit s).messages in
      (select is_system after ≡ select is_system s.messages)
      × ((estimated_tokens after ≤ token_threshold ctx_limit)
          ⊎ (length after ≤ length (select is_system s.messages) + 5))
unfolding proactive_compact with_messages
proactive_compact_lem active cap ctx_limit s =
    let done = compact-IsCompacted active cap s in
    let now = (compact active cap s).messages in
    ground (arith, done.system, system_of_aggressive now, length-aggressive now)

pub length-push_trace :
    (entry : Fields) (trace : List Fields)
    → length trace ≤ pipeline_trace_cap
    → length (push_trace entry trace) ≤ pipeline_trace_cap
unfolding push_trace
length-push_trace entry trace h = ground (
  arith,
  h,
  length-append trace (entry ∷ []),
  length-drop (length (trace ++ entry ∷ []) - 500) (trace ++ entry ∷ []),
)

pub emit-trace_cap :
    (trigger : String) (mission_id removed : ℕ) (summary : String) (s : ContextState)
    → length s.pipeline_trace ≤ pipeline_trace_cap
    → length (emit_eviction_event trigger mission_id removed summary s).pipeline_trace
      ≤ pipeline_trace_cap
unfolding emit_eviction_event
emit-trace_cap trigger mission_id removed summary s h = length-push_trace _ s.pipeline_trace h

pub compact-trace_cap :
    (active : Option (String → List Cursor)) (cap : ℕ) (s : ContextState)
    → length s.pipeline_trace ≤ pipeline_trace_cap
    → length (compact active cap s).pipeline_trace ≤ pipeline_trace_cap
unfolding compact with_messages emit_eviction_event
compact-trace_cap active cap s h = ground (
  arith,
  h,
  length-push_trace (eviction_event s.step "sliding_window" 0 (dropped_count cap s.messages) "")
      s.pipeline_trace h,
)

pub proactive_compact-trace_cap :
    (active : Option (String → List Cursor)) (cap ctx_limit : ℕ) (s : ContextState)
    → length s.pipeline_trace ≤ pipeline_trace_cap
    → length (proactive_compact active cap ctx_limit s).pipeline_trace ≤ pipeline_trace_cap
unfolding proactive_compact with_messages
proactive_compact-trace_cap active cap ctx_limit s h =
    ground (arith, h, compact-trace_cap active cap s h)

-- ===== src/Context/Completion/Laws.antt =====
-- What the end of a mission leaves: its summary in the place of its messages, its context completed,
-- and all else as it was.
use mathlib.Core.Path.{subst}
use agentic_workflows.Base.{
  ℕ, zero, suc, ◌+◌, ◌≤◌, ◌<◌, min, ◌≡◌, refl, sym, ap, ◌∙◌, none, some, List, [], ◌∷◌, ◌++◌, arith,
  eqb, if◌then◌else◌, length, take,
}
use agentic_workflows.Missions.{AgentMessage}
use agentic_workflows.Context.{
  MissionContext, concat, build_summary, ContextState, get_context, get_context-put,
}
use agentic_workflows.Base.{drop}
use agentic_workflows.Context.Window.{pipeline_trace_cap, emit_eviction_event, with_messages}
use agentic_workflows.Context.Window.Bounds.{emit-trace_cap}
use agentic_workflows.Context.Completion.{
  with_context, outside, insert_at, summary_message, replace_range, summarized, removed_count,
  completed_context, on_mission_complete,
}

-- Behind the range all is kept.
past_range :
    (i start_step end_step : ℕ) (messages : List AgentMessage)
    → end_step < i
    → outside start_step end_step i messages ≡ messages
unfolding outside
past_range i start_step end_step [] h = refl
past_range i start_step end_step (m ∷ messages) h =
    ground (arith, h, past_range (suc i) start_step end_step messages (omega (arith, h)))

-- Inside of the range, b messages before its end, those are dropped.
inside_range :
    (b i start_step end_step : ℕ) (messages : List AgentMessage)
    → start_step ≤ suc i
    → suc end_step ≡ suc i + b
    → outside start_step end_step (suc i) messages ≡ drop b messages
unfolding outside drop
inside_range zero i start_step end_step messages h e =
    past_range (suc i) start_step end_step messages (omega (arith, e))
inside_range (suc b) i start_step end_step [] h e = refl
inside_range (suc b) i start_step end_step (m ∷ messages) h e = ground (
  arith,
  h,
  e,
  inside_range b (suc i) start_step end_step messages (omega (arith, h)) (omega (arith, e)),
)

-- From a position a places before the range on, b places before what follows it.
before_range :
    (a b i start_step end_step : ℕ) (messages : List AgentMessage)
    → start_step ≡ suc i + a
    → suc end_step ≡ suc i + b
    → a ≤ b
    → outside start_step end_step (suc i) messages ≡ take a messages ++ drop b messages
unfolding outside drop
before_range zero b i start_step end_step messages e f h =
    inside_range b i start_step end_step messages (omega (arith, e)) f
before_range (suc a) zero i start_step end_step messages e f h = absurd (omega (arith, h))
before_range (suc a) (suc b) i start_step end_step [] e f h = refl
before_range (suc a) (suc b) i start_step end_step (m ∷ messages) e f h = ground (
  arith,
  e,
  f,
  h,
  before_range a b (suc i) start_step end_step messages (omega (arith, e)) (omega (arith, f))
      (omega (arith, h)),
)

insert_nil {ℓ} : {A : Type ℓ} (n : ℕ) (x : A) → insert_at n x [] ≡ x ∷ []
unfolding insert_at
insert_nil zero x = refl
insert_nil (suc n) x = refl

insert_suc {ℓ} :
    {A : Type ℓ} (k n : ℕ) (x y : A) (xs : List A)
    → k ≡ suc n
    → insert_at k x (y ∷ xs) ≡ y ∷ insert_at n x xs
unfolding insert_at
insert_suc zero n x y xs e = absurd (omega (arith, e))
insert_suc (suc k) n x y xs e =
    let same : k ≡ n = omega (arith, e) in ap (λ i. y ∷ insert_at i x xs) same

insert-between {ℓ} :
    {A : Type ℓ} (a b : ℕ) (x : A) (xs : List A)
    → a ≤ b
    → insert_at (min a (length (take a xs ++ drop b xs))) x (take a xs ++ drop b xs)
      ≡ take a xs ++ x ∷ drop b xs
unfolding insert_at drop
insert-between zero b x xs h = ground arith
insert-between (suc a) zero x xs h = absurd (omega (arith, h))
insert-between (suc a) (suc b) x [] h = insert_nil (min (suc a) 0) x
insert-between (suc a) (suc b) x (y ∷ xs) h =
    insert_suc _ (min a (length (take a xs ++ drop b xs))) x y _ (omega arith)
    ∙ ap (λ zs. y ∷ zs) (insert-between a b x xs (omega (arith, h)))

replace_range_lem :
    (start_step end_step : ℕ) (x : AgentMessage) (messages : List AgentMessage)
    → start_step ≤ end_step
    → replace_range (some (suc start_step, end_step)) x messages
      ≡ take (suc start_step) messages ++ x ∷ drop (suc end_step) messages
unfolding replace_range outside insert_at drop
replace_range_lem start_step end_step x [] h = insert_nil (min (suc start_step) 0) x
replace_range_lem start_step end_step x (m ∷ messages) h =
    let kept : outside (suc start_step) end_step 1 messages
        ≡ take start_step messages ++ drop end_step messages =
      before_range start_step end_step 0 (suc start_step) end_step messages (omega arith)
        (omega arith) h in
    ap (λ rest. insert_at (min (suc start_step) (suc (length rest))) x (m ∷ rest)) kept
    ∙ insert_suc _ (min start_step (length (take start_step messages ++ drop end_step messages))) x
        m _ (omega arith)
    ∙ ap (λ rest. m ∷ rest) (insert-between start_step end_step x messages h)

summarized_lem :
    (ctx : MissionContext) (start_step end_step : ℕ) (messages : List AgentMessage)
    → ctx.step_range ≡ some (suc start_step, end_step)
    → start_step ≤ end_step
    → summarized ctx messages
      ≡ take (suc start_step) messages ++ summary_message ctx ∷ drop (suc end_step) messages
unfolding summarized
summarized_lem ctx start_step end_step messages e h =
    ap (λ range. replace_range range (summary_message ctx) messages) e
    ∙ replace_range_lem start_step end_step (summary_message ctx) messages h

-- The state after the end of a mission that has a context.
completed_state : ℕ → MissionContext → ContextState → ContextState
completed_state id ctx s =
    emit_eviction_event "mission_complete" id (removed_count ctx s.messages) (build_summary ctx)
      (with_context id (completed_context ctx) (with_messages (summarized ctx s.messages) s))

on_mission_complete-found :
    (id : ℕ) (ctx : MissionContext) (s : ContextState)
    → get_context id s.mission_contexts ≡ some ctx
    → on_mission_complete id s ≡ completed_state id ctx s
unfolding on_mission_complete completed_state
on_mission_complete-found id ctx s e =
    ap (λ o. elim o [ none ↦ s | some c ↦ completed_state id c s ]) e

-- When a mission ends that has a context and a range of steps, which does not start at the first
-- message, the transcript is what it was up to the range, the mission's summary, and what stood behind
-- the range. The context is completed and has that summary, and no other context changes. A trace
-- of evictions within its cap stays within it.
pub on_mission_complete-summarized :
    (id j start_step end_step : ℕ) (ctx : MissionContext) (s : ContextState)
    → get_context id s.mission_contexts ≡ some ctx
    → ctx.step_range ≡ some (suc start_step, end_step)
    → start_step ≤ end_step
    → length s.pipeline_trace ≤ pipeline_trace_cap
    → let after = on_mission_complete id s in
      (after.messages ≡ (
        take (suc start_step) s.messages
        ++ record { role = "user"; content = concat ("[Orchestrator] " ∷ build_summary ctx ∷ []) }
          ∷ drop (suc end_step) s.messages))
      × (get_context j after.mission_contexts ≡ (
          if eqb id j
          then some (record ctx { status = "completed"; summary = build_summary ctx })
          else get_context j s.mission_contexts))
      × (length after.pipeline_trace ≤ pipeline_trace_cap)
unfolding completed_state with_context with_messages emit_eviction_event completed_context
    summary_message
on_mission_complete-summarized id j start_step end_step ctx s found range h short =
    let done = on_mission_complete-found id ctx s found in
    (
      ap (λ u. u.messages) done ∙ summarized_lem ctx start_step end_step s.messages range h,
      ap (λ u. get_context j u.mission_contexts) done
          ∙ get_context-put id j (completed_context ctx) s.mission_contexts,
      subst (λ u. length u.pipeline_trace ≤ pipeline_trace_cap) (sym done)
          (emit-trace_cap "mission_complete" id (removed_count ctx s.messages) (build_summary ctx)
            (with_context id (completed_context ctx) (with_messages (summarized ctx s.messages) s))
            short),
    )

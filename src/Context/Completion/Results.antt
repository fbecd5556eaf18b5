-- ===== src/Context/Completion/Results.antt =====
-- What a tool's result leaves: a transcript with at most one text replaced, and a context that has the result.
use mathlib.Core.Path.{subst}
use agentic_workflows.Base.Text.{print_nat}
use agentic_workflows.Context.{concat, update_texts}
use agentic_workflows.Context.Artifacts.{extract_artifacts, extract_summary_from_result}
use agentic_workflows.Base.{
  ◌++◌, ◌⊎◌, inl, inr, false, any, sym, contains, ℕ, ◌≤◌, String, ◌≡◌, refl, ap, ◌∙◌, Bool, true,
  Option, none, some, List, [], ◌∷◌, arith, eqb, if◌then◌else◌, length,
}
use agentic_workflows.Base.Text.{size}
use agentic_workflows.Values.{Value, obj, Fields, to_str}
use agentic_workflows.Missions.{AgentMessage}
use agentic_workflows.Context.{MissionContext, ContextState, get_context, get_context-put}
use agentic_workflows.Context.Window.{pipeline_trace_cap, emit_eviction_event, with_messages}
use agentic_workflows.Context.Window.Bounds.{emit-trace_cap}
use agentic_workflows.Context.Completion.{
  store_result, placeholder, is_result_of, with_context, change_last, with_result, update_context,
  replaced_messages, on_tool_result,
}

-- Of a list, the last element that passes the test, changed.
abbrev LastChanged {ℓ} : {A : Type ℓ} → (A → Bool) → (A → A) → List A → List A → Type ℓ
LastChanged {A = A} p f xs ys =
    (before : List A) × (x : A) × (after : List A) × (xs ≡ before ++ x ∷ after)
    × (ys ≡ before ++ f x ∷ after)
    × (p x ≡ true)
    × (any p after ≡ false)

change_last-none {ℓ} :
    {A : Type ℓ} (p : A → Bool) (f : A → A) (xs : List A)
    → change_last p f xs ≡ none
    → any p xs ≡ false
unfolding change_last any
change_last-none p f [] e = refl
change_last-none {A = A} p f (x ∷ xs) e =
    by_rest (change_last p f xs) refl (λ h. change_last-none p f xs h)
  where
    by_rest :
        (o : Option (List A))
        → change_last p f xs ≡ o
        → (change_last p f xs ≡ none → any p xs ≡ false)
        → any p (x ∷ xs) ≡ false
    by_rest none h g = ground (arith, e, h, g h)
    by_rest (some zs) h g = ground (arith, e, h)

change_last-LastChanged {ℓ} :
    {A : Type ℓ} (p : A → Bool) (f : A → A) (xs ys : List A)
    → change_last p f xs ≡ some ys
    → LastChanged p f xs ys
unfolding change_last
change_last-LastChanged p f [] ys e = cc
change_last-LastChanged {A = A} p f (x ∷ xs) ys e =
    by_rest (change_last p f xs) refl (λ zs. change_last-LastChanged p f xs zs)
  where
    by_rest :
        (o : Option (List A))
        → change_last p f xs ≡ o
        → ((zs : List A) → change_last p f xs ≡ some zs → LastChanged p f xs zs)
        → LastChanged p f (x ∷ xs) ys
    by_rest none h g =
        ([], x, xs, refl, ground (arith, e, h), ground (arith, e, h), change_last-none p f xs h)
    by_rest (some zs) h g =
        let (before, y, after, was, now, passes, none_after) = g zs h in
        let same : x ∷ zs ≡ ys = ground (arith, e, h) in
        (
          x ∷ before,
          y,
          after,
          ap (λ l. x ∷ l) was,
          sym same ∙ ap (λ l. x ∷ l) now,
          passes,
          none_after,
        )

get_context-same :
    (id j : ℕ) (contexts : List (ℕ × MissionContext))
    → eqb id j ≡ true
    → get_context j contexts ≡ get_context id contexts
get_context-same id j contexts h =
    let same : j ≡ id = ground (arith, h) in ap (λ i. get_context i contexts) same

module _ (dumps : Value → String) where
  -- The context that a result of this mission leaves under j.
  abbrev pub context_after : String → Fields → Fields → ℕ → ℕ → ContextState → Option MissionContext
  context_after tool result args id j s =
      if eqb id j
      then elim (get_context j s.mission_contexts) [
        | none ↦ none
        | some ctx ↦ some (record ctx {
          tools_used =
              if contains ctx.tools_used tool then ctx.tools_used else ctx.tools_used ++ tool ∷ [];
          key_results =
              update_texts ctx.key_results (extract_summary_from_result dumps tool result);
          artifacts = ctx.artifacts ++ extract_artifacts dumps tool result args id;
        })
      ]
      else get_context j s.mission_contexts

  update_context-get :
      (tool : String) (result args : Fields) (id j : ℕ) (s : ContextState)
      → get_context j (update_context dumps tool result args id s).mission_contexts
        ≡ context_after tool result args id j s
  unfolding update_context with_context with_result
  update_context-get tool result args id j s = by_found (get_context id s.mission_contexts) refl
    where
      by_found :
          (o : Option MissionContext)
          → get_context id s.mission_contexts ≡ o
          → get_context j (update_context dumps tool result args id s).mission_contexts
            ≡ context_after tool result args id j s
      by_found none h = ground (arith, h, get_context-same id j s.mission_contexts)
      by_found (some ctx) h = ground (
        arith,
        h,
        get_context-same id j s.mission_contexts,
        get_context-put id j (with_result dumps tool result args id ctx) s.mission_contexts,
      )

  update_context-frame :
      (tool : String) (result args : Fields) (id : ℕ) (s : ContextState)
      → ((update_context dumps tool result args id s).messages ≡ s.messages)
        × ((update_context dumps tool result args id s).pipeline_trace ≡ s.pipeline_trace)
  unfolding update_context with_context
  update_context-frame tool result args id s = by_found (get_context id s.mission_contexts) refl
    where
      by_found :
          (o : Option MissionContext)
          → get_context id s.mission_contexts ≡ o
          → ((update_context dumps tool result args id s).messages ≡ s.messages)
            × ((update_context dumps tool result args id s).pipeline_trace ≡ s.pipeline_trace)
      by_found none h = ground (arith, h)
      by_found (some ctx) h = ground (arith, h)

  -- The transcript is as it was, or the text of the tool's last result in it is a placeholder.
  abbrev pub IsReplaced : String → Fields → List AgentMessage → List AgentMessage → Type 0
  IsReplaced tool result messages after =
      (after ≡ messages)
      ⊎ ((before : List AgentMessage) × (m : AgentMessage) × (later : List AgentMessage) × (messages
            ≡ before ++ m ∷ later)
          × (after
              ≡ before
                ++ record {
                  role = m.role;
                  content = concat (
                      "[tool_result: "
                      ∷ tool
                      ∷ ", "
                      ∷ print_nat (size (to_str (obj result)))
                      ∷ " chars, stored in context]"
                      ∷ []);
                }
                  ∷ later)
          × (is_result_of tool m ≡ true)
          × (any (is_result_of tool) later ≡ false))

  replaced_messages-IsReplaced :
      (threshold : ℕ) (tool : String) (result : Fields) (messages after : List AgentMessage)
      → replaced_messages dumps threshold tool result messages ≡ some after
      → IsReplaced tool result messages after
  unfolding replaced_messages placeholder
  replaced_messages-IsReplaced threshold tool result messages after e = inr (
      change_last-LastChanged (is_result_of tool) (placeholder tool (size (to_str (obj result))))
        messages after (ground (arith, e)))

  -- What a tool's result makes of a state.
  pub record IsResultOf (tool : String) (result args : Fields) (id : ℕ)
      (before after : ContextState) : Type 0 where
    pub transcript : IsReplaced tool result before.messages after.messages
    pub contexts :
        (j : ℕ) → get_context j after.mission_contexts ≡ context_after tool result args id j before
    pub capped : length after.pipeline_trace ≤ pipeline_trace_cap

  store_result-IsResultOf :
      (o : Option (List AgentMessage)) (tool : String) (result args : Fields) (id : ℕ)
      (s : ContextState)
      → length s.pipeline_trace ≤ pipeline_trace_cap
      → ((messages : List AgentMessage)
          → o ≡ some messages
          → IsReplaced tool result s.messages messages)
      → IsResultOf tool result args id s (store_result dumps o tool result args id s)
  unfolding store_result with_messages emit_eviction_event
  store_result-IsResultOf none tool result args id s short h =
      let frame = update_context-frame tool result args id s in
      record {
        transcript = inl frame.0;
        contexts = λ j. update_context-get tool result args id j s;
        capped = ground (arith, short, frame.1);
      }
  store_result-IsResultOf (some messages) tool result args id s short h =
      let frame = update_context-frame tool result args id (with_messages messages s) in
      record {
        transcript =
            subst (λ l. IsReplaced tool result s.messages l) (sym frame.0) (h messages refl);
        contexts = λ j. update_context-get tool result args id j (with_messages messages s);
        capped =
            emit-trace_cap "large_tool_result" id 1 _
              (update_context dumps tool result args id (with_messages messages s))
              (ground (arith, short, frame.1));
      }

  -- A tool's result changes at most the text of one message, the last one of the transcript that has a
  -- result of the tool, which becomes a placeholder. The context of its mission, and no other, takes
  -- the tool, unless it has it, and the result's summary and artifacts; and a trace of evictions within its cap stays within it.
  pub on_tool_result_lem :
      (threshold : ℕ) (tool : String) (result args : Fields) (id : ℕ) (s : ContextState)
      → length s.pipeline_trace ≤ pipeline_trace_cap
      → IsResultOf tool result args id s (on_tool_result dumps threshold tool result args id s)
  unfolding on_tool_result
  on_tool_result_lem threshold tool result args id s short =
      store_result-IsResultOf (replaced_messages dumps threshold tool result s.messages) tool result
        args id s short
        (λ messages. replaced_messages-IsReplaced threshold tool result s.messages messages)

-- ===== src/Graph/Execute/Action/Laws.antt =====
-- What an execution adds to the records of a run.
use agentic_workflows.Base.{
  String, ◌≡◌, refl, sym, ap, ◌∙◌, ◌⊎◌, inl, inr, true, false, Option, none, some, List, [], ◌∷◌,
  ◌++◌, arith, get_or, all, contains, length, length-append, ◌==◌, Bool-cases, eq_refl,
  contains-append_one,
}
use agentic_workflows.Values.{
  null, bool, int, arr, obj, to_str, Value, Fields, end, field, str, get, get_str,
}
use agentic_workflows.Missions.{ToolRecord}
use agentic_workflows.Routing.Directives.{is_tool_allowed_for_specialist}
use agentic_workflows.Graph.Execute.{done, Session, Step, raised, Env, with_run}
use agentic_workflows.Graph.Execute.Contexts.{mission_index_of}
use agentic_workflows.Graph.Execute.Gate.{
  check_scope, action_tool, specialist_for, is_cursor_resume, signature_of,
}
use agentic_workflows.Graph.Execute.Gate.Laws.{Passed, check_scope_rule}
use agentic_workflows.Graph.Execute.Gate.Traces.{
  no_lookup, append_one, has_no_call, is_lookup, Stopped, if_rule, Raises,
}
use agentic_workflows.Graph.Execute.Action.{
  is_finish, see, call_seen, execute_pending, execute_action,
}
use agentic_workflows.Graph.Execute.Action.Ends.{entry_of, Logged, call_seen-Logged}

module _ {W : Type 0} (env : Env W) where
  -- The one call of an execution: behind lookups in the memo store, a tool that the action names, that
  -- the specialist may use and the registry has, with arguments that it was not called with before.
  abbrev pub CalledOnce : Session W → Fields → Session W → Type 0
  CalledOnce s action t =
      (lookups : List ToolRecord) × (entry : ToolRecord) × (t.run.tool_history
        ≡ s.run.tool_history ++ (lookups ++ entry ∷ []))
      × (all is_lookup lookups ≡ true)
      × (entry.call ≡ length t.run.tool_history)
      × (entry.tool ≡ action_tool action)
      × (is_tool_allowed_for_specialist (specialist_for s.active_specialist) entry.tool ≡ true)
      × (contains env.tools entry.tool ≡ true)
      × ((is_cursor_resume action entry.tool ≡ true)
          ⊎ (contains s.run.seen_tool_signatures (signature_of env entry.tool entry.args) ≡ false))
      × (contains t.run.seen_tool_signatures (signature_of env entry.tool entry.args) ≡ true)
      × (has_no_call t.run.pending_action ≡ true)

  abbrev pub Executed : Session W → Fields → Step W → Type 0
  Executed s action (raised e) = Raises env e
  Executed s action (done t) = Stopped s t ⊎ CalledOnce s action t

  contains-see :
      (signature : String) (s : Session W)
      → contains (see env signature s).run.seen_tool_signatures signature ≡ true
  unfolding see
  contains-see signature s = elim (Bool-cases (contains s.run.seen_tool_signatures signature)) [
    | inl e ↦ rw e e
    | inr e ↦ rw e (
        contains-append_one s.run.seen_tool_signatures signature signature
        ∙ ground (arith, eq_refl signature))
  ]

  call_after_guards :
      (s : Session W) (action : Fields) (tool : String) (args : Fields) (t : Session W)
      (step : Step W)
      → Passed env s action tool args t
      → Logged env (see env (signature_of env tool args) t) tool args step
      → Executed s action step
  unfolding see
  call_after_guards s action tool args t (raised e) passed logged = logged
  call_after_guards s action tool args t (done u)
        ((lookups, h, looked, same), named, allowed, known, free, fresh)
        (result, (grown, seen, quiet)) =
      let signature = signature_of env tool args in
      let entry = entry_of env (see env signature t) tool args result in
      inr (
        lookups,
        entry,
        grown ∙ ap (λ l. l ++ entry ∷ []) h ∙ append_one s.run.tool_history lookups entry,
        looked,
        omega (arith, ap length grown, length-append t.run.tool_history (entry ∷ [])),
        named,
        allowed,
        known,
        elim fresh [
          | inl resumed ↦ inl resumed
          | inr unseen ↦ inr (ap (λ l. contains l signature) (sym same) ∙ unseen)
        ],
        ap (λ l. contains l signature) seen ∙ contains-see signature t,
        quiet,
      )

  finish_no_call :
      (o : Option Value)
      → is_finish env o ≡ true
      → (elim o as (λ x. String) [ none ↦ "" | some v ↦ to_str v ] == "finish") ≡ true
  unfolding is_finish to_str
  finish_no_call none h = cc
  finish_no_call (some null) h = cc
  finish_no_call (some (bool b)) h = cc
  finish_no_call (some (int z)) h = cc
  finish_no_call (some (str text)) h = h
  finish_no_call (some (arr vs)) h = cc
  finish_no_call (some (obj fs)) h = cc

  execute_pending-Executed :
      (k : String) (v : Value) (fs : Fields) (s : Session W)
      → s.run.pending_action ≡ some (field k v fs)
      → Executed s (field k v fs) (execute_pending env (field k v fs) s)
  unfolding execute_pending get_str
  execute_pending-Executed k v fs s e =
      let action = field k v fs in
      if_rule (Executed s action) (is_finish env (get "action" action))
        (done (with_run (record s.run { final_answer = get_str "" "answer" action }) s))
        (check_scope env (call_seen env (mission_index_of action s.run)) action s)
        (λ f. inl (no_lookup s, ap has_no_call e ∙ finish_no_call (get "action" action) f))
        (λ f.
          check_scope_rule env s action (call_seen env (mission_index_of action s.run))
            (Executed s action) (λ problem why. why) (λ t stopped. inl stopped)
            (λ tool args t passed.
              call_after_guards s action tool args t
                (call_seen env (mission_index_of action s.run) tool args t) passed
                (call_seen-Logged env (mission_index_of action s.run) tool args t)))

  execute_at :
      (s : Session W) (o : Option Fields)
      → s.run.pending_action ≡ o
      → Executed s (get_or end o) (elim o as (λ x. Step W) [
        | none ↦ done s
        | some action ↦ elim action as (λ x. Step W) [
          | end ↦ done s
          | field k v fs ↦ execute_pending env (field k v fs) s
        ]
      ])
  execute_at s none e = inl (no_lookup s, ap has_no_call e)
  execute_at s (some end) e = inl (no_lookup s, ap has_no_call e)
  execute_at s (some (field k v fs)) e = execute_pending-Executed k v fs s e

  -- What an execution of the pending action adds to the records of the run. It raises only
  -- MemoizationPolicyViolation or what a tool's call crashes with, and else: either there are only
  -- lookups in the memo store; or behind them there is one call, numbered by its place: of the tool
  -- that the action names, which the specialist may use and the registry has, with arguments that it
  -- was not called with before, unless it resumes a chunked read; and the call is among those made from
  -- then on. No tool call is pending after either.
  pub execute_action-Executed :
      (s : Session W) → Executed s (get_or end s.run.pending_action) (execute_action env s)
  unfolding execute_action
  execute_action-Executed s = execute_at s s.run.pending_action refl

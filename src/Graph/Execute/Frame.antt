-- ===== src/Graph/Execute/Frame.antt =====
-- What the parts of `_execute_action` leave alone: the tool history, the signatures of the calls that
-- were made, and the pending action.
use agentic_workflows.Base.{
  eqb, ◌||◌, set, not, ◌+◌, ◌&&◌, inr, inl, ℕ, String, ◌≡◌, refl, ◌∙◌, Bool, true, false, Option,
  none, some, List, [], ◌∷◌, arith, if◌then◌else◌, get_elem?, Bool-cases, Option-cases, is_nil,
}
use agentic_workflows.Base.Int.{pos, ℤ, index?}
use agentic_workflows.Context.{get_context}
use agentic_workflows.Context.Completion.{on_tool_result}
use agentic_workflows.Base.Text.{strip, empty}
use agentic_workflows.Values.{get_str, Value, Fields}
use agentic_workflows.Missions.{ToolRecord, MissionReport, RunState, is_completed}
use agentic_workflows.Missions.Status.{refresh_mission_status}
use agentic_workflows.Missions.Events.{
  add_event, next_incomplete_mission_index, ensure_reports, event_index, record_mission_tool_event,
}
use agentic_workflows.Memo.Keys.{
  reuse_at, reuse_report, hit_path, write_cache_candidates,
  mark_next_mission_complete_from_memo_hit,
}
use agentic_workflows.Graph.Execute.{Session, Env}
use agentic_workflows.Graph.Execute.Contexts.{
  was_completed, context_state, with_contexts, with_range, complete_missions, complete_mission,
  store_in_context, start_mission,
}
use agentic_workflows.Graph.Execute.Cache.{
  inputs, cache_input, cache_inputs, cache_write_file_inputs,
}

abbrev pub core : RunState → List ToolRecord × List String × Option Fields
core run = (run.tool_history, run.seen_tool_signatures, run.pending_action)

core-elim {ℓ} :
    {A : Type ℓ} (o : Option A) (run : RunState) (f : A → RunState)
    (c : List ToolRecord × List String × Option Fields)
    → core run ≡ c
    → ((a : A) → core (f a) ≡ c)
    → core (elim o as (λ x. RunState) [ none ↦ run | some a ↦ f a ]) ≡ c
core-elim none run f c p q = p
core-elim (some a) run f c p q = q a

core-refresh : (run : RunState) (z : ℤ) → core (refresh_mission_status run z) ≡ core run
unfolding refresh_mission_status
core-refresh run z = elim (Option-cases (index? z)) [
  | inl e ↦ ground arith
  | inr (i, e) ↦ elim (Option-cases (get_elem? run.mission_reports i)) [
    | inl f ↦ ground arith
    | inr (r, f) ↦ ground arith
  ]
]

core-ensure : (run : RunState) → core (ensure_reports run) ≡ core run
unfolding ensure_reports
core-ensure run = elim (Bool-cases (is_nil run.mission_reports)) [
  | inl e ↦ ground arith
  | inr e ↦ ground arith
]

pub core-record_mission_tool_event :
    (run : RunState) (tool : String) (result : Fields) (index : Option ℤ) (args : Option Fields)
    → core (record_mission_tool_event run tool result index args) ≡ core run
unfolding record_mission_tool_event
core-record_mission_tool_event run tool result index args =
    let ensured = ensure_reports run in
    let i = event_index run tool index in
    let active = record ensured { active_mission_index = pos i; active_mission_id = i + 1 } in
    core-elim (get_elem? ensured.mission_reports i) active
      (λ r.
        refresh_mission_status
          (record active {
            mission_reports = set ensured.mission_reports i (add_event tool result args r);
          })
          (pos i))
      (core run) (core-ensure run) (λ r. core-refresh _ (pos i) ∙ core-ensure run)

core-reuse_at : (run : RunState) (hit : Fields) (i : ℕ) → core (reuse_at run hit i) ≡ core run
unfolding reuse_at
core-reuse_at run hit i =
    core-elim (get_elem? run.mission_reports i) run
      (λ r.
        refresh_mission_status
          (record run {
            active_mission_index = pos i;
            active_mission_id = i + 1;
            mission_reports = set run.mission_reports i (reuse_report (hit_path run hit) hit r);
          })
          (pos i))
      (core run) refl (λ r. core-refresh _ (pos i))

pub core-mark_next :
    (run : RunState) (hit : Fields)
    → core (mark_next_mission_complete_from_memo_hit run hit) ≡ core run
unfolding mark_next_mission_complete_from_memo_hit
core-mark_next run hit =
    core-elim (index? (next_incomplete_mission_index run)) run (reuse_at run hit) (core run) refl
      (core-reuse_at run hit)

module _ {W : Type 0} where
  pub core-start_mission : (z : ℤ) (s : Session W) → core (start_mission z s).run ≡ core s.run
  unfolding start_mission
  core-start_mission z s = elim (Option-cases (index? z)) [
    | inl e ↦ ground arith
    | inr (i, e) ↦ ground arith
  ]

  core-complete_mission :
      (r : MissionReport) (s : Session W) → core (complete_mission r s).run ≡ core s.run
  unfolding complete_mission agentic_workflows.Graph.Execute.emit_trace
  core-complete_mission r s = refl

  pub core-if :
      (b : Bool) (t u : Session W) (c : List ToolRecord × List String × Option Fields)
      → core t.run ≡ c
      → core u.run ≡ c
      → core (if b then t else u).run ≡ c
  core-if true t u c p q = p
  core-if false t u c p q = q

  pub core-complete_missions :
      (before rs : List MissionReport) (s : Session W)
      → core (complete_missions before rs s).run ≡ core s.run
  unfolding complete_missions
  core-complete_missions before [] s = refl
  core-complete_missions before (r ∷ rs) s =
      core-complete_missions before rs (
        if is_completed r.status && not (was_completed r.mission_id before)
        then complete_mission r s
        else s)
      ∙ core-if (is_completed r.status && not (was_completed r.mission_id before))
          (complete_mission r s) s (core s.run) (core-complete_mission r s) refl

  core-with_range : (id : ℕ) (s : Session W) → core (with_range id s).run ≡ core s.run
  unfolding with_range
  core-with_range id s = elim (Option-cases (get_context id s.mission_contexts)) [
    | inl e ↦ ground arith
    | inr (ctx, e) ↦ ground arith
  ]

  pub core-store_in_context :
      (dumps : Value → String) (n : ℕ) (tool : String) (result args : Fields) (s : Session W)
      → core (store_in_context dumps n tool result args s).run ≡ core s.run
  unfolding store_in_context
  core-store_in_context dumps n tool result args s =
      let id = s.run.active_mission_id in
      core-if (eqb id 0) s
        (with_contexts
          (on_tool_result dumps n tool result args id (context_state (with_range id s)))
          (with_range id s))
        (core s.run) refl (core-with_range id s)

  module _ (env : Env W) where
    core-cache_inputs :
        (keys : List String) (v : Value) (s : Session W)
        → core (cache_inputs env keys v s).run ≡ core s.run
    unfolding cache_inputs cache_input agentic_workflows.Graph.Execute.remember
    core-cache_inputs [] v s = refl
    core-cache_inputs (k ∷ keys) v s = core-cache_inputs keys v (cache_input env k v s)

    pub core-cache_write :
        (args : Fields) (s : Session W) → core (cache_write_file_inputs env args s).run ≡ core s.run
    unfolding cache_write_file_inputs
    core-cache_write args s =
        let path = strip (get_str "" "path" args) in
        core-if (empty path || empty (get_str "" "content" args)) s
          (cache_inputs env (write_cache_candidates path) (inputs path (get_str "" "content" args))
            s)
          (core s.run) refl (core-cache_inputs (write_cache_candidates path) _ s)

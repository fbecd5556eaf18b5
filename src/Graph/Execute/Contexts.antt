-- ===== src/Graph/Execute/Contexts.antt =====
-- Of orchestration/langgraph/graph.py, what `_execute_action` does about the missions and their
-- contexts: the mission that a call is for, those that it completed, and its result in the context.
use agentic_workflows.Base.{
  ℕ, suc, ◌+◌, String, Bool, true, false, not, ◌&&◌, Option, none, some, List, [], ◌∷◌,
  if◌then◌else◌, eqb, get_elem?, get_or,
}
use agentic_workflows.Base.Int.{ℤ, pos, index?}
use agentic_workflows.Base.Text.{prefix}
use agentic_workflows.Values.{Value, bool, int, str, Fields, end, field, get}
use agentic_workflows.Missions.{MissionReport, RunState, is_completed}
use agentic_workflows.Missions.Events.{next_incomplete_mission_index}
use agentic_workflows.Context.{MissionContext, ContextState, get_context, put_context}
use agentic_workflows.Context.Completion.{on_mission_complete, on_tool_result}
use agentic_workflows.Graph.Execute.{Session, emit_trace}

-- The index of the mission that an action names by its id, if it does.
unfoldable pub named_mission : Fields → Option ℕ
named_mission action = named (get "__mission_id" action)
  where
    named : Option Value → Option ℕ
    named (some (int (pos (suc n)))) = some n
    named (some (bool true)) = some 0
    named v = none

unfoldable pub mission_index_of : Fields → RunState → ℤ
mission_index_of action run = elim (named_mission action) [
  | some i ↦ pos i
  | none ↦ next_incomplete_mission_index run
]

unfoldable pub new_context : ℕ → RunState → MissionContext
new_context i run = record {
  mission_id = 1 + i;
  goal = get_or "" (get_elem? run.missions i);
  status = "pending";
  tools_used = [];
  key_results = [];
  artifacts = [];
  sub_missions = [];
  summary = "";
  step_range = some (run.step, run.step);
}

-- `_pre_statuses.get(_mid) == "completed"`: the last report of the id counts.
unfoldable pub was_completed : ℕ → List MissionReport → Bool
was_completed id reports = get_or false (last_status reports)
  where
    last_status : List MissionReport → Option Bool
    last_status [] = none
    last_status (r ∷ rs) = elim (last_status rs) [
      | some b ↦ some b
      | none ↦ if eqb r.mission_id id then some (is_completed r.status) else none
    ]

-- The step range of the active mission's context ends with the step.
unfoldable pub extend_range : ℕ → MissionContext → MissionContext
extend_range step ctx = record ctx {
  step_range = elim ctx.step_range [ none ↦ none | some (start, last) ↦ some (start, step) ];
}

module _ {W : Type 0} where
  -- The mission is the active one, and has a context.
  unfoldable pub start_mission : ℤ → Session W → Session W
  start_mission mission_index s = elim (index? mission_index) [
    | none ↦ s
    | some i ↦ record s {
      run = record s.run { active_mission_index = pos i; active_mission_id = 1 + i };
      mission_contexts = elim (get_context (1 + i) s.mission_contexts) [
        | some ctx ↦ s.mission_contexts
        | none ↦ put_context (1 + i) (new_context i s.run) s.mission_contexts
      ];
    }
  ]

  -- What the context manager sees of the state. No part of the program sets `current_mission_id`,
  -- which is read as 1.
  abbrev pub context_state : Session W → ContextState
  context_state s = record {
    run_id = s.run.run_id;
    step = s.run.step;
    current_mission_id = 1;
    messages = s.run.messages;
    missions = s.run.missions;
    mission_contexts = s.mission_contexts;
    pipeline_trace = s.pipeline_trace;
  }

  abbrev pub with_contexts : ContextState → Session W → Session W
  with_contexts c s = record s {
    run = record s.run { messages = c.messages };
    mission_contexts = c.mission_contexts;
    pipeline_trace = c.pipeline_trace;
  }

  unfoldable pub complete_mission : MissionReport → Session W → Session W
  complete_mission r s =
      let traced =
        emit_trace "mission_complete"
          (field "mission_id" (int (pos r.mission_id))
            (field "mission_preview" (str (prefix 60 r.mission)) end))
          s in
      with_contexts (on_mission_complete r.mission_id (context_state traced)) traced

  -- The missions that are completed after the call and were not before it.
  unfoldable pub complete_missions : List MissionReport → List MissionReport → Session W → Session W
  complete_missions before [] s = s
  complete_missions before (r ∷ rs) s = complete_missions before rs (
      if is_completed r.status && not (was_completed r.mission_id before)
      then complete_mission r s
      else s)

  unfoldable pub with_range : ℕ → Session W → Session W
  with_range id s = elim (get_context id s.mission_contexts) [
    | none ↦ s
    | some ctx ↦ record s {
      mission_contexts = put_context id (extend_range s.run.step ctx) s.mission_contexts;
    }
  ]

  unfoldable pub store_in_context :
      (Value → String) → ℕ → String → Fields → Fields → Session W → Session W
  store_in_context dumps threshold tool result args s =
      let id = s.run.active_mission_id in
      let extended = with_range id s in
      if eqb id 0
      then s
      else with_contexts
          (on_tool_result dumps threshold tool result args id (context_state extended)) extended

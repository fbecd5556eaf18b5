-- ===== src/Graph/Specialists/Samples.antt =====
-- A call of `sort_array` that is routed to the executor.
use agentic_workflows.Base.{◌≡◌, refl, none, some, [], ◌∷◌, ◌++◌, map}
use agentic_workflows.Base.Int.{pos}
use agentic_workflows.Values.{int, arr, nil, cons, Fields, end, field}
use agentic_workflows.Missions.{RunState}
use agentic_workflows.Missions.Samples.{two_missions}
use agentic_workflows.Planner.Fallback.{tool_action}
use agentic_workflows.Graph.Specialists.{HandoffResult, SpecialistState, route_to_specialist}

abbrev call : Fields
call = tool_action "sort_array" (field "items" (arr (cons (int (pos 2)) nil)) end)

abbrev sort : RunState → RunState
sort s = record s {
  tool_history =
      s.tool_history
      ++ record { call = 9; tool = "sort_array"; args = end; result = field "sorted" (arr nil) end }
        ∷ [];
  pending_action = none;
}

abbrev before : SpecialistState
before = record {
  run = record two_missions { pending_action = some call; step = 4 };
  active_specialist = "supervisor";
  token_budget_remaining = pos 100;
  handoff_queue = [];
  handoff_results = [];
  pipeline_trace = [];
  via_subgraph = [];
}

status_test :
    map (λ (r : HandoffResult). r.status) (route_to_specialist sort before).handoff_results
    ≡ "success" ∷ []
unfolding route_to_specialist
status_test = refl

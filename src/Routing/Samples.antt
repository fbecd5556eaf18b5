-- ===== src/Routing/Samples.antt =====
-- Tests of the router and of the choice of a specialist.
use agentic_workflows.Base.{String, ◌≡◌, refl, none, some, contains}
use agentic_workflows.Base.Int.{pos}
use agentic_workflows.Base.Text.{strip, lower}
use agentic_workflows.Values.{str, Fields, end, field, get_str}
use agentic_workflows.Routing.Router.{
  RoutingSignals, ModelRouter, model_router, route_by_signals, route_by_intent, tool_selection,
}
use agentic_workflows.Routing.Directives.{select_specialist_for_action}

abbrev only : String
only = "only"

abbrev router : ModelRouter String
router = record { strong = "strong"; fast = "fast" }

abbrev signals : RoutingSignals
signals = record {
  token_budget_remaining = pos 4999;
  mission_type = "unknown";
  retry_count = 1;
  step = 3;
  intent_classification = none;
}

-- An intent that is not called complex goes to the strong provider too.
moderate_test :
    route_by_signals router (record signals {
      token_budget_remaining = pos 5000;
      intent_classification = some (field "complexity" (str "moderate") end);
    })
    ≡ "strong"
unfolding route_by_signals
moderate_test = refl

budget_test : route_by_signals router signals ≡ "strong"
unfolding route_by_signals
budget_test = refl

-- A provider alone serves both.
alone_test :
    route_by_signals (model_router only none) (record signals { token_budget_remaining = pos 5000 })
    ≡ only
unfolding route_by_signals model_router
alone_test = refl

intent_test :
    route_by_intent router (some (field "complexity" (str "simple") end)) tool_selection ≡ "fast"
unfolding route_by_intent
intent_test = refl

abbrev compare_action : Fields
compare_action = field "action" (str "tool") (field "tool_name" (str " compare_texts") end)

choice_test : select_specialist_for_action (some compare_action) ≡ "evaluator"
unfolding select_specialist_for_action lower strip get_str contains
choice_test = refl

-- ===== src/Routing/Router.antt =====
-- orchestration/langgraph/model_router.py. A provider is what the router is given two of.
use agentic_workflows.Base.{
  ℕ, String, Bool, true, false, Option, none, some, ltb, leb, if◌then◌else◌, get_or, ◌==◌,
}
use agentic_workflows.Base.Int.{ℤ, pos, negsuc}
use agentic_workflows.Values.{Fields, get_str}

pub data TaskComplexity : Type 0 where
  planning evaluation error_recovery tool_selection continuation : TaskComplexity

-- _STRONG_TASKS
is_strong_task : TaskComplexity → Bool
is_strong_task planning = true
is_strong_task evaluation = true
is_strong_task error_recovery = true
is_strong_task t = false

abbrev pub budget_strong_threshold : ℕ
budget_strong_threshold = 5000

abbrev pub retry_strong_threshold : ℕ
retry_strong_threshold = 2

pub record RoutingSignals : Type 0 where
  pub token_budget_remaining : ℤ
  pub mission_type : String
  pub retry_count : ℕ
  pub step : ℕ
  pub intent_classification : Option Fields

pub record ModelRouter (Provider : Type 0) : Type 0 where
  pub strong : Provider
  pub fast : Provider

-- z < n
unfoldable pub below : ℤ → ℕ → Bool
below (pos m) n = ltb m n
below (negsuc m) n = true

module _ {Provider : Type 0} where
  unfoldable pub model_router : Provider → Option Provider → ModelRouter Provider
  model_router strong_provider fast_provider = record {
    strong = strong_provider;
    fast = get_or strong_provider fast_provider;
  }

  route : ModelRouter Provider → TaskComplexity → Provider
  unfolding is_strong_task
  route r t = if is_strong_task t then r.strong else r.fast

  unfoldable pub route_by_signals : ModelRouter Provider → RoutingSignals → Provider
  unfolding below get_str
  route_by_signals r s =
      if leb retry_strong_threshold s.retry_count
      then r.strong
      else if below s.token_budget_remaining budget_strong_threshold
      then r.strong
      else if s.mission_type == "multi_step"
      then r.strong
      else elim s.intent_classification [
        | none ↦ r.fast
        | some intent ↦
            if get_str "complex" "complexity" intent == "simple" then r.fast else r.strong
      ]

  unfoldable pub route_by_intent : ModelRouter Provider → Option Fields → TaskComplexity → Provider
  unfolding route_by_signals route
  route_by_intent r intent fallback_complexity = elim intent [
    | none ↦ route r fallback_complexity
    | some d ↦ route_by_signals r (record {
      token_budget_remaining = pos 100000;
      mission_type = "unknown";
      retry_count = 0;
      step = 0;
      intent_classification = some d;
    })
  ]

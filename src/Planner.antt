-- ===== src/Planner.antt =====
-- What the planner makes of a model's answer, and what it does without one:
-- orchestration/langgraph/action_parser.py (the search for JSON objects) and fallback_planner.py.
pub mod Aliases
pub mod Fallback
pub mod Objects
pub mod Samples

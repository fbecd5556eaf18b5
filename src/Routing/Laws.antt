-- ===== src/Routing/Laws.antt =====
-- Whom the choice of a specialist sends a tool to, against the scopes of the specialists.
use agentic_workflows.Base.{
  String, ◌≡◌, true, some, arith, contains_of_subset, contains_of_subset, contains,
}
use agentic_workflows.Base.Text.{strip}
use agentic_workflows.Values.{Fields, end, field, get_str}
use agentic_workflows.Routing.Directives.{
  scopes_nested, allowed_tools, evaluator_tools, executor_tools, specialist_of,
  is_tool_allowed_for_specialist, select_specialist_for_action, select_for,
}

supervisor_of_executor :
    (tool : String)
    → is_tool_allowed_for_specialist "executor" tool ≡ true
    → is_tool_allowed_for_specialist "supervisor" tool ≡ true
unfolding is_tool_allowed_for_specialist specialist_of allowed_tools
supervisor_of_executor tool h = contains_of_subset executor_tools _ tool (scopes_nested.1) h

evaluator_of_tools :
    (tool : String)
    → contains evaluator_tools tool ≡ true
    → is_tool_allowed_for_specialist "evaluator" tool ≡ true
unfolding is_tool_allowed_for_specialist specialist_of allowed_tools
evaluator_of_tools tool h = h

-- Whatever the action, the specialist chosen for it may use the tool the action names, when the
-- executor may.
pub select-IsAllowed :
    (action : Fields)
    → is_tool_allowed_for_specialist "executor" (strip (get_str "" "tool_name" action)) ≡ true
    → is_tool_allowed_for_specialist
        (select_specialist_for_action (some action))
        (strip (get_str "" "tool_name" action))
      ≡ true
unfolding select_specialist_for_action select_for
select-IsAllowed end h = supervisor_of_executor (strip (get_str "" "tool_name" end)) h
select-IsAllowed (field k v fs) h = ground (
  arith,
  supervisor_of_executor (strip (get_str "" "tool_name" (field k v fs))) h,
  evaluator_of_tools (strip (get_str "" "tool_name" (field k v fs))),
  h,
)

-- ===== src/Routing/Directives.antt =====
-- orchestration/langgraph/directives.py: which tools a specialist may use; and of
-- orchestration/langgraph/graph.py, how the specialist of an action is chosen.
use agentic_workflows.Base.{
  String, ◌≡◌, refl, Bool, true, not, Option, none, some, List, [], ◌∷◌, ◌++◌, if◌then◌else◌, all,
  contains, sorted, subset, ◌==◌,
}
use agentic_workflows.Base.Text.{strip, lower}
use agentic_workflows.Values.{Fields, end, field, get_str}

pub data Specialist : Type 0 where
  supervisor executor evaluator : Specialist

abbrev pub executor_tools : List String
executor_tools =
    "repeat_message" ∷ "sort_array" ∷ "string_ops" ∷ "math_stats" ∷ "write_file" ∷ "memoize"
    ∷ "retrieve_memo" ∷ "task_list_parser" ∷ "text_analysis" ∷ "data_analysis" ∷ "json_parser"
    ∷ "regex_matcher" ∷ "outline_code" ∷ "read_file_chunk" ∷ "describe_db_schema" ∷ "read_file"
    ∷ "run_bash" ∷ "http_request" ∷ "datetime_ops" ∷ "extract_table" ∷ "fill_template"
    ∷ "hash_content" ∷ "query_db" ∷ "recognize_pattern" ∷ "clear_context" ∷ "update_file_section"
    ∷ "list_directory" ∷ "search_files" ∷ "search_content" ∷ "summarize_text" ∷ "compare_texts"
    ∷ "classify_intent" ∷ "format_converter" ∷ "file_manager" ∷ "encode_decode" ∷ "validate_data"
    ∷ "retrieve_run_context" ∷ []

abbrev pub evaluator_tools : List String
evaluator_tools =
    "retrieve_memo" ∷ "text_analysis" ∷ "data_analysis" ∷ "json_parser" ∷ "regex_matcher"
    ∷ "summarize_text" ∷ "compare_texts" ∷ "classify_intent" ∷ "encode_decode" ∷ "validate_data"
    ∷ "retrieve_run_context" ∷ []

abbrev pub supervisor_tools : List String
supervisor_tools = executor_tools ++ "audit_run" ∷ []

unfoldable pub allowed_tools : Specialist → List String
allowed_tools supervisor = supervisor_tools
allowed_tools executor = executor_tools
allowed_tools evaluator = evaluator_tools

-- DIRECTIVE_BY_SPECIALIST.get(name)
unfoldable pub specialist_of : String → Option Specialist
specialist_of name =
    if name == "supervisor"
    then some supervisor
    else if name == "executor"
    then some executor
    else if name == "evaluator"
    then some evaluator
    else none

unfoldable pub role_tool_scopes : List (Specialist × List String)
unfolding sorted allowed_tools
role_tool_scopes =
    (supervisor, sorted (allowed_tools supervisor))
    ∷ (executor, sorted (allowed_tools executor))
    ∷ (evaluator, sorted (allowed_tools evaluator))
    ∷ []

-- A name that is no specialist's may use every tool.
unfoldable pub is_tool_allowed_for_specialist : String → String → Bool
unfolding specialist_of allowed_tools
is_tool_allowed_for_specialist specialist tool_name = elim (specialist_of specialist) [
  | none ↦ true
  | some s ↦ contains (allowed_tools s) tool_name
]

unfoldable pub select_for : Fields → String
select_for action =
    if not (lower (strip (get_str "" "action" action)) == "tool")
    then "supervisor"
    else if contains evaluator_tools (strip (get_str "" "tool_name" action))
    then "evaluator"
    else "executor"

unfoldable pub select_specialist_for_action : Option Fields → String
unfolding select_for
select_specialist_for_action none = "supervisor"
select_specialist_for_action (some end) = "supervisor"
select_specialist_for_action (some (field k v fs)) = select_for (field k v fs)

-- `audit_run` is the one tool of the supervisor's that the executor lacks; the evaluator's are a part
-- of the executor's.
pub scopes_nested :
    (subset evaluator_tools executor_tools ≡ true) × (subset executor_tools supervisor_tools ≡ true)
unfolding subset all contains
scopes_nested = (refl, refl)

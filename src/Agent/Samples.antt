-- ===== src/Agent/Samples.antt =====
-- A model that calls one tool, repeats the call, and finishes.
use agentic_workflows.Base.{
  String, ◌≡◌, refl, Option, none, some, List, [], ◌∷◌, ltb, if◌then◌else◌, length, ◌==◌,
}
use agentic_workflows.Base.Text.{strip, prefix}
use agentic_workflows.Values.{Value, str, obj, end, field, to_str}
use agentic_workflows.Missions.{AgentMessage}
use agentic_workflows.Agent.{
  Error, Result, ok, err, Tool, finished, raised, run, round, max_steps, unknown_tool,
}
use agentic_workflows.Agent.Laws.{IsGoodEnd, run-IsGoodEnd}

abbrev llm : List AgentMessage → Result String
llm messages = if ltb (length messages) 5 then ok "call" else ok "done"

abbrev echo : Tool
echo args = ok (field "echo" (obj args) end)

abbrev tools : String → Option Tool
tools name = if name == "repeat_message" then some echo else none

abbrev loads : String → Option Value
loads text =
    if text == "call"
    then some (
        obj (
          field "action" (str "tool")
            (field "tool_name" (str "repeat_message") (field "args" (obj end) end))))
    else if text == "done"
    then some (obj (field "action" (str "finish") (field "answer" (str "ok") end)))
    else none

abbrev dumps : Value → String
dumps v = "json"

abbrev sha256 : String → String
sha256 s = s

abbrev error_text : Error → String
error_text e = "bad"

run_test :
    run llm tools loads dumps sha256 error_text "system" "user"
    ≡ finished "ok"
        (record { call = 1; tool = "repeat_message"; args = end; result = "{'echo': {}}" } ∷ [])
unfolding run round agentic_workflows.Agent.validate_input strip
    agentic_workflows.Agent.register_tool_call agentic_workflows.Agent.handle_tool
    agentic_workflows.Agent.record_result prefix to_str
run_test = refl

-- A model that never answers in JSON uses up the steps.
never_json_test :
    run llm tools (λ t. none) dumps sha256 error_text "system" "user" ≡ raised max_steps
unfolding run round agentic_workflows.Agent.validate_input agentic_workflows.Agent.on_error
never_json_test = refl

unknown_tool_test :
    run llm (λ t. none) loads dumps sha256 error_text "system" "user" ≡ raised unknown_tool
unfolding run round agentic_workflows.Agent.validate_input strip
    agentic_workflows.Agent.register_tool_call agentic_workflows.Agent.handle_tool
    agentic_workflows.Agent.on_error
unknown_tool_test = refl

run-IsGoodEnd_example :
    IsGoodEnd llm tools loads dumps sha256 error_text 20
      (run llm tools loads dumps sha256 error_text "system" "user")
run-IsGoodEnd_example = run-IsGoodEnd llm tools loads dumps sha256 error_text "system" "user"

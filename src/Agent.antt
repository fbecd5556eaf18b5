-- ===== src/Agent.antt =====
-- The first orchestrator, core/orchestrator.py, with core/agent_state.py, errors.py and schemas.py. The
-- model, the tools, JSON and the hash are parameters: `llm` answers a transcript or raises `LLMError`,
-- `tools` is the registry, `loads` is `json.loads` (`none` where it raises), `dumps` is `json.dumps`.
pub mod Laws
pub mod Samples
use Prim.Native.String.{◌++◌ as str_append}
use agentic_workflows.Base.{
  ℕ, zero, suc, ◌+◌, max, String, ap, Bool, true, false, not, ◌&&◌, ◌||◌, Option, none, some, List,
  [], ◌∷◌, ◌++◌, if◌then◌else◌, all, contains, ◌==◌,
}
use agentic_workflows.Base.Text.{strip, contains_text, prefix, print_nat}
use agentic_workflows.Values.{
  Value, int, str, arr, obj, Items, nil, cons, Fields, end, field, get, put, has, to_str,
}
use agentic_workflows.Missions.{AgentMessage}

-- errors.py, with the `TypeError` that Python itself raises and the end of the steps.
pub data Error : Type 0 where
  invalid_json schema_validation missing_action unknown_action tool_execution llm_error : Error
  unknown_tool max_steps type_error : Error

-- whether the class is a `RetryableAgentError`
unfoldable pub is_retryable : Error → Bool
is_retryable unknown_tool = false
is_retryable max_steps = false
is_retryable type_error = false
is_retryable e = true

pub data Result {ℓ} (A : Type ℓ) : Type ℓ where
  ok : A → Result A
  err : Error → Result A

-- schemas.py
pub data Action : Type 0 where
  tool_action : (tool_name : String) (args : Fields) → Action
  finish_action : (answer : String) → Action

abbrev pub Tool : Type 0
Tool = Fields → Result Fields

pub record UsedTool : Type 0 where
  pub call : ℕ
  pub tool : String
  pub args : Fields
  pub result : String

-- The state of `run`: the `AgentState`, and its two local variables.
pub record Run : Type 0 where
  pub messages : List AgentMessage
  pub step : ℕ
  pub seen_tool_calls : List String
  pub tool_call_count : ℕ
  pub tools_used : List UsedTool

pub data Outcome : Type 0 where
  finished : (answer : String) (tools_used : List UsedTool) → Outcome
  raised : Error → Outcome

-- `extra="forbid"`: no key but those listed
only_keys : List String → Fields → Bool
unfolding contains
only_keys keys end = true
only_keys keys (field k v fs) = contains keys k && only_keys keys fs

tool_of : Fields → Option Value → Option Value → Result Action
unfolding only_keys
tool_of data_fields (some (str name)) (some (obj args)) =
    if only_keys ("action" ∷ "tool_name" ∷ "args" ∷ []) data_fields
    then ok (tool_action name args)
    else err schema_validation
tool_of data_fields name args = err schema_validation

finish_of : Fields → Option Value → Result Action
unfolding only_keys
finish_of data_fields (some (str answer)) =
    if only_keys ("action" ∷ "answer" ∷ []) data_fields
    then ok (finish_action answer)
    else err schema_validation
finish_of data_fields answer = err schema_validation

action_of : Fields → Option Value → Result Action
unfolding tool_of finish_of get
action_of d none = err missing_action
action_of d (some (str kind)) =
    if kind == "tool"
    then tool_of d (get "tool_name" d) (get "args" d)
    else if kind == "finish"
    then finish_of d (get "answer" d)
    else err unknown_action
action_of d (some v) = err unknown_action

-- `"action" in items`
has_action : Items → Bool
has_action nil = false
has_action (cons (str s) vs) = s == "action" || has_action vs
has_action (cons v vs) = has_action vs

-- `_validate_input` behind `json.loads`. For a list or a text `in` asks for an element or a part, and
-- `data["action"]` raises a `TypeError`; for what is neither, `in` itself does.
validate_value : Value → Result Action
unfolding action_of has_action
validate_value (obj d) = action_of d (get "action" d)
validate_value (arr vs) = if has_action vs then err type_error else err missing_action
validate_value (str s) = if contains_text s "action" then err type_error else err missing_action
validate_value v = err type_error

infixr 65 ◌+++◌
abbrev ◌+++◌ : String → String → String
◌+++◌ = str_append

add_message : String → String → Run → Run
add_message role content r = record r {
  messages = r.messages ++ record { role = role; content = content } ∷ [];
}

duplicate_text : String → ℕ → String
duplicate_text tool count =
    "ERROR: You just called '"
    +++ tool
    +++ "' with the same "
    +++ "arguments as a previous call. This is a duplicate — do NOT repeat it.\n"
    +++ "You have completed "
    +++ print_nat count
    +++ " tool call(s) so far.\n"
    +++ "Move on to the NEXT uncompleted task. Respond with ONE valid JSON object."

result_text : String → ℕ → String → String
result_text tool count result =
    "TOOL_RESULT — Tool call #"
    +++ print_nat count
    +++ " completed (tool: '"
    +++ tool
    +++ "'):\n"
    +++ result
    +++ "\n\nYou have now completed "
    +++ print_nat count
    +++ " tool call(s).\n"
    +++ "What is the NEXT task? Call the appropriate tool for it.\n"
    +++ "If ALL tasks from the user request are done, emit finish.\n"
    +++ "Respond with ONE valid JSON object only."

pub data Next : Type 0 where
  again : Run → Next
  stop : Outcome → Next

module _ (llm : List AgentMessage → Result String) (tools : String → Option Tool)
    (loads : String → Option Value) (dumps : Value → String) (sha256 : String → String)
    (error_text : Error → String) where
  validate_input : String → Result Action
  unfolding validate_value
  validate_input text = elim (loads text) [ none ↦ err invalid_json | some v ↦ validate_value v ]

  unfoldable pub signature : String → Fields → String
  signature tool args = sha256 (tool +++ dumps (obj args))

  -- Whether the call is new, and the state with the call registered.
  register_tool_call : String → Fields → Run → Bool × Run
  unfolding signature
  register_tool_call tool args r =
      let s = signature tool args in
      if contains r.seen_tool_calls s
      then (false, r)
      else (true, record r { seen_tool_calls = r.seen_tool_calls ++ s ∷ [] })

  handle_tool : String → Fields → Result Fields
  handle_tool tool args = elim (tools tool) [
    | none ↦ err unknown_tool
    | some execute ↦ execute args
  ]

  -- The two `except` clauses; what is no `AgentError` passes through.
  on_error : Error → Run → Next
  unfolding is_retryable add_message
  on_error e r =
      if is_retryable e
      then again (
          add_message "system"
            ("Previous output was invalid: "
              +++ error_text e
              +++ ".\nReturn exactly ONE valid JSON object. "
              +++ "Do not output multiple JSON objects.")
            r)
      else stop (raised e)

  pub record_result : String → Fields → Fields → Run → Run
  unfolding add_message
  record_result tool args result r =
      let count = suc r.tool_call_count in
      add_message "system" (result_text tool count (dumps (obj result))) (record r {
        tool_call_count = count;
        tools_used =
            r.tools_used
            ++ record {
              call = count;
              tool = tool;
              args = args;
              result = prefix 120 (to_str (obj result));
            }
              ∷ [];
      })

  after_call : String → Fields → Run → Result Fields → Next
  after_call tool args r (ok result) = again (record_result tool args result r)
  after_call tool args r (err e) = on_error e r

  act : Run → Result Action → Next
  unfolding after_call add_message
  act r (err e) = on_error e r
  act r (ok (finish_action answer)) = stop (finished answer r.tools_used)
  act r (ok (tool_action tool args)) =
      let (is_new, r') = register_tool_call tool args r in
      if is_new
      then after_call tool args r' (handle_tool tool args)
      else again (add_message "system" (duplicate_text tool r'.tool_call_count) r')

  heard : Run → Result String → Next
  unfolding act add_message
  heard r (err e) = on_error e r
  heard r (ok output) =
      let text = strip output in act (add_message "assistant" text r) (validate_input text)

  -- One round of the loop in `run`.
  pub round : ℕ → Run → Next
  unfolding heard
  round step r = heard (record r { step = step }) (llm r.messages)

  pub run_loop : ℕ → ℕ → Run → Outcome
  run_loop zero step r = raised max_steps
  run_loop (suc left) step r = elim (round step r) [
    | stop o ↦ o
    | again r' ↦ run_loop left (suc step) r'
  ]

  pub run : String → String → Outcome
  unfolding run_loop
  run system_prompt user_input = run_loop 20 0 (record {
    messages =
        record { role = "system"; content = system_prompt }
        ∷ record { role = "user"; content = user_input }
        ∷ [];
    step = 0;
    seen_tool_calls = [];
    tool_call_count = 0;
    tools_used = [];
  })

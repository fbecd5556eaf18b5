-- ===== src/Planner/Fallback.antt =====
-- `deterministic_fallback_action` of orchestration/langgraph/fallback_planner.py: the next action when
-- the provider does not answer. `dumps` is `json.dumps(args, sort_keys=True, default=str)`.
pub mod Laws
use Prim.Native.String.{◌++◌ as str_append}
use agentic_workflows.Base.{
  ℕ, min, String, ap, Bool, true, false, not, ◌&&◌, ◌||◌, Option, none, some, List, [], ◌∷◌, ltb,
  if◌then◌else◌, get_elem?, is_nil, all, any, contains, ◌==◌,
}
use agentic_workflows.Base.Int.{ℤ, index?}
use agentic_workflows.Base.Text.{strip, lower, empty, contains_text}
use agentic_workflows.Values.{
  int, str, arr, obj, Items, nil, cons, Fields, end, field, get, truthy, get_str, get_dict,
}
use agentic_workflows.Extract.{
  extract_quoted_text, extract_numbers_from_text, extract_fibonacci_count, fibonacci_csv,
  extract_write_path_from_mission,
}
use agentic_workflows.Missions.{MissionReport, RunState}
use agentic_workflows.Missions.Progress.{
  Missing, all_missions_completed, next_incomplete_mission, next_incomplete_mission_requirements,
  build_auto_finish_answer,
}

-- An action, None, or the IndexError of reading the first of no required files.
pub data Fallback : Type 0 where
  acts : Fields → Fallback
  nothing : Fallback
  index_error : Fallback

infixr 55 ◌or_else◌
abbrev pub ◌or_else◌ : Fallback → Fallback → Fallback
nothing or_else k = k
acts a or_else k = acts a
index_error or_else k = index_error

abbrev pub tool_action : String → Fields → Fields
tool_action tool args =
    field "action" (str "tool") (field "tool_name" (str tool) (field "args" (obj args) end))

abbrev pub finish_action : String → Fields
finish_action answer = field "action" (str "finish") (field "answer" (str answer) end)

-- policy_flags.get("memo_required"), as a test
unfoldable pub memo_required : Fields → Bool
unfolding get truthy
memo_required flags = elim (get "memo_required" flags) [ none ↦ false | some v ↦ truthy v ]

unfoldable pub memo_key : Fields → String
unfolding get_str strip
memo_key flags = strip (get_str "" "memo_required_key" flags)

-- The memoize call for a key: of the last result, if there is one.
unfoldable pub memo_call : RunState → String → Fields
unfolding get_str strip get_dict
memo_call state key =
    let tool = strip (get_str "memoize" "last_tool_name" state.policy_flags) in
    tool_action "memoize" (
      field "key" (str key) (
        field "value" (obj (value_of (get_dict "last_tool_result" state.policy_flags))) (
          field "run_id" (str state.run_id)
            (field "source_tool" (str (if empty tool then "memoize" else tool)) end))))
  where
    value_of : Fields → Fields
    value_of end = field "status" (str "memoized_by_fallback") end
    value_of (field k v fs) = field k v fs

-- The memoize call that the policy waits for.
unfoldable pub memo_action : RunState → Fallback
unfolding memo_required memo_key memo_call
memo_action state =
    let key = memo_key state.policy_flags in
    if memo_required state.policy_flags && not (empty key)
    then acts (memo_call state key)
    else nothing

unfoldable pub finish : RunState → Fallback
unfolding build_auto_finish_answer
finish state = acts (finish_action (build_auto_finish_answer state))

int_items : List ℤ → Items
int_items [] = nil
int_items (n ∷ ns) = cons (int n) (int_items ns)

-- reports[mission_index] if 0 <= mission_index < len(reports)
report_at : RunState → ℤ → Option MissionReport
report_at state z = elim (index? z) [ none ↦ none | some i ↦ get_elem? state.mission_reports i ]

-- The path in the mission's text, or the first required file of its report, or a default; reading the
-- first of no files fails.
fibonacci_path : Option MissionReport → String → Option String
fibonacci_path report found = if not (empty found) then some found else elim report [
  | none ↦ some "fib.txt"
  | some r ↦ elim r.required_files [
    | [] ↦ none
    | path ∷ paths ↦ some (if empty path then "fib.txt" else path)
  ]
]

-- How many numbers: what the report expects, or what the mission's text asks for.
fibonacci_count : Option MissionReport → String → ℕ
unfolding extract_fibonacci_count
fibonacci_count none mission = extract_fibonacci_count mission
fibonacci_count (some r) mission = elim r.expected_fibonacci_count [
  | none ↦ extract_fibonacci_count mission
  | some n ↦ if ltb 0 n then n else extract_fibonacci_count mission
]

-- A call that the planner tries when its test holds.
pub record Candidate : Type 0 where
  pub test : Bool
  pub tool_name : String
  pub args : Fields

-- The calls tried before the fibonacci file, in order.
early_candidates : Missing → String → List Candidate
unfolding extract_quoted_text extract_numbers_from_text int_items lower contains_text contains
early_candidates missing mission =
    let mission_lower = lower mission in
    let text = extract_quoted_text mission in
    let numbers = extract_numbers_from_text mission in
    let lacks = contains missing.missing_tools in
    let string_op : String → Candidate = λ operation. record {
      test = lacks "string_ops" && contains_text mission_lower operation && not (empty text);
      tool_name = "string_ops";
      args = field "text" (str text) (field "operation" (str operation) end);
    } in
    record {
      test = lacks "repeat_message" && not (empty text) && not (lacks "write_file");
      tool_name = "repeat_message";
      args = field "message" (str text) end;
    }
    ∷ record {
      test = lacks "sort_array" && contains_text mission_lower "sort" && not (is_nil numbers);
      tool_name = "sort_array";
      args =
          field "items" (arr (int_items numbers)) (
            field "order" (str (if contains_text mission_lower "desc" then "desc" else "asc")) end);
    }
    ∷ string_op "uppercase"
    ∷ string_op "lowercase"
    ∷ string_op "reverse"
    ∷ []

-- The call tried after it.
last_candidate : String → Candidate
unfolding extract_quoted_text lower contains_text
last_candidate mission =
    let text = extract_quoted_text mission in
    record {
      test = contains_text (lower mission) "repeat" && not (empty text);
      tool_name = "repeat_message";
      args = field "message" (str text) end;
    }

-- Whether a fibonacci file is wanted.
asks_fibonacci_file : Missing → String → Bool
unfolding contains any lower contains_text
asks_fibonacci_file missing mission =
    let mission_lower = lower mission in
    (contains missing.missing_tools "write_file"
      || any (λ f. contains_text (lower f) "fib") missing.missing_files)
    && contains_text mission_lower "fibonacci"
    && (contains_text mission_lower "write" || contains_text mission_lower "write_file")

abbrev pub numbers_candidate : ℕ → String → Candidate
numbers_candidate count path = record {
  test = true;
  tool_name = "write_file";
  args = field "path" (str path) (field "content" (str (fibonacci_csv count)) end);
}

module _ (dumps : Fields → String) where
  unfoldable pub action_signature : Fields → String
  unfolding get_str get_dict
  action_signature action =
      str_append (get_str "" "tool_name" action) (str_append ":" (dumps (get_dict "args" action)))

  is_duplicate_tool_action : RunState → Fields → Bool
  unfolding action_signature get_str contains
  is_duplicate_tool_action state action =
      if not (get_str "" "action" action == "tool")
      then false
      else contains state.seen_tool_signatures (action_signature action)

  -- The candidate's call, if its test holds and no call like it was made.
  choose : RunState → Candidate → Fallback
  unfolding is_duplicate_tool_action
  choose state c =
      if c.test
      then (if is_duplicate_tool_action state (tool_action c.tool_name c.args)
          then nothing
          else acts (tool_action c.tool_name c.args))
      else nothing

  choose_first : RunState → List Candidate → Fallback
  unfolding choose
  choose_first state [] = nothing
  choose_first state (c ∷ cs) = choose state c or_else choose_first state cs

  -- The write of the fibonacci file, where there is a path.
  write_numbers : RunState → ℕ → Option String → Fallback
  unfolding choose
  write_numbers state count none = index_error
  write_numbers state count (some path) = choose state (numbers_candidate count path)

  unfoldable pub fibonacci_write : RunState → Missing → String → Fallback
  unfolding asks_fibonacci_file write_numbers fibonacci_path fibonacci_count report_at
      extract_write_path_from_mission
  fibonacci_write state missing mission =
      let report = report_at state missing.mission_index in
      if asks_fibonacci_file missing mission
      then write_numbers state (fibonacci_count report mission)
          (fibonacci_path report (extract_write_path_from_mission mission))
      else nothing

  mission_action : RunState → Missing → String → Fallback
  unfolding choose choose_first fibonacci_write early_candidates last_candidate
  mission_action state missing mission =
      choose_first state (early_candidates missing mission)
      or_else fibonacci_write state missing mission
      or_else choose state (last_candidate mission)

  -- The action that the missions ask for.
  unfoldable pub planned_action : RunState → Fallback
  unfolding finish mission_action all_missions_completed next_incomplete_mission
      next_incomplete_mission_requirements strip
  planned_action state =
      let mission = strip (next_incomplete_mission state) in
      if all_missions_completed state
      then finish state
      else if empty mission
      then finish state
      else mission_action state (next_incomplete_mission_requirements state) mission

  unfoldable pub deterministic_fallback_action : RunState → Fallback
  unfolding memo_action planned_action
  deterministic_fallback_action state = memo_action state or_else planned_action state

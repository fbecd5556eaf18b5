-- ===== src/Planner/Samples.antt =====
-- The planner's tests, and its theorems at concrete inputs.
use agentic_workflows.Base.{
  String, ◌≡◌, refl, ◌||◌, none, some, [], ◌∷◌, select, sorted, difference,
}
use agentic_workflows.Base.Int.{pos}
use agentic_workflows.Base.Text.{strip, empty, print_nat}
use agentic_workflows.Values.{int, str, arr, obj, nil, cons, Fields, end, field, to_str}
use agentic_workflows.Missions.{RunState}
use agentic_workflows.Missions.Samples.{two_missions}
use agentic_workflows.Missions.Progress.{all_missions_completed, next_incomplete_mission}
use agentic_workflows.Planner.Aliases.{normalize_tool_args}
use agentic_workflows.Planner.Aliases.Laws.{normalize_tool_args_idem}
use agentic_workflows.Planner.Fallback.{
  acts, nothing, index_error, tool_action, memo_action, fibonacci_write,
  deterministic_fallback_action,
}
use agentic_workflows.Planner.Fallback.Laws.{IsNew, is_finish, fallback-IsNew, fallback-finish}
use agentic_workflows.Planner.Objects.{
  split_object, extract_first_json_object, extract_all_json_objects,
}
use agentic_workflows.Planner.Objects.Laws.{
  IsFirstObject, split_object-IsFirstObject, extract_all_lem,
}

abbrev dumps : Fields → String
dumps args = to_str (obj args)

abbrev file_args : Fields
file_args = field "filename" (str "a.txt") (field "text" (str "hi") (field "data" (str "x") end))

normalize_test :
    normalize_tool_args "write_file" file_args
    ≡ field "data" (str "x") (field "path" (str "a.txt") (field "content" (str "hi") end))
unfolding normalize_tool_args
normalize_test = refl

normalize_tool_args_idem_example :
    normalize_tool_args "write_file" (normalize_tool_args "write_file" file_args)
    ≡ normalize_tool_args "write_file" file_args
normalize_tool_args_idem_example = normalize_tool_args_idem "write_file" file_args

abbrev answer : String
answer = "Sure: {\"a\": \"}{\", \"b\": {\"c\": \"\\\"\"}} and {\"d\": 1} or {"

first_test : extract_first_json_object answer ≡ some "{\"a\": \"}{\", \"b\": {\"c\": \"\\\"\"}}"
unfolding extract_first_json_object
first_test = refl

all_test :
    extract_all_json_objects answer
    ≡ "{\"a\": \"}{\", \"b\": {\"c\": \"\\\"\"}}" ∷ "{\"d\": 1}" ∷ []
unfolding extract_all_json_objects
all_test = refl

split_object-IsFirstObject_example : IsFirstObject answer (split_object answer)
split_object-IsFirstObject_example = split_object-IsFirstObject answer

extract_all_lem_example :
    extract_all_json_objects answer
    ≡ elim (split_object answer) [ none ↦ [] | some p ↦ p.0 ∷ extract_all_json_objects p.1 ]
extract_all_lem_example = extract_all_lem answer

-- Once `sort_array` was called with these numbers, the fallback has nothing left to propose.
abbrev sort_mission : RunState
sort_mission = record two_missions {
  mission_reports = elim two_missions.mission_reports [
    | [] ↦ []
    | r ∷ rs ↦ record r { mission = "Sort 3, 1, 2 now" } ∷ []
  ];
}

abbrev sort_args : Fields
sort_args =
    field "items" (arr (cons (int (pos 3)) (cons (int (pos 1)) (cons (int (pos 2)) nil))))
      (field "order" (str "asc") end)

propose_test :
    deterministic_fallback_action dumps sort_mission ≡ acts (tool_action "sort_array" sort_args)
unfolding deterministic_fallback_action
    agentic_workflows.Missions.Events.next_incomplete_mission_index sorted difference select
propose_test = refl

nothing_left_test :
    deterministic_fallback_action dumps (record sort_mission {
      seen_tool_signatures = "sort_array:{'items': [3, 1, 2], 'order': 'asc'}" ∷ [];
    })
    ≡ nothing
unfolding deterministic_fallback_action
    agentic_workflows.Missions.Events.next_incomplete_mission_index sorted difference select
    print_nat
nothing_left_test = refl

-- A mission that asks for a fibonacci file and whose text and report name none is an IndexError.
index_error_test :
    fibonacci_write dumps two_missions
      (record {
        mission_index = pos 0;
        mission_id = 1;
        missing_tools = "write_file" ∷ [];
        missing_files = [];
      })
      "write 5 fibonacci numbers"
    ≡ index_error
unfolding fibonacci_write
index_error_test = refl

fallback-IsNew_example : IsNew dumps sort_mission (deterministic_fallback_action dumps sort_mission)
unfolding memo_action
fallback-IsNew_example = fallback-IsNew dumps sort_mission refl

fallback-finish_example :
    is_finish (deterministic_fallback_action dumps sort_mission)
    ≡ (all_missions_completed sort_mission || empty (strip (next_incomplete_mission sort_mission)))
unfolding memo_action
fallback-finish_example = fallback-finish dumps sort_mission refl

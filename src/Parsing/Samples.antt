-- ===== src/Parsing/Samples.antt =====
-- A text of two tasks with a sub-task, and its plan limited to one step.
use agentic_workflows.Base.{
  String, ◌≡◌, refl, Option, none, some, List, [], ◌∷◌, map, arith, length, count_if, contains,
}
use agentic_workflows.Base.Text.{join, print_nat}
use agentic_workflows.Missions.{MissionStep, StructuredPlan}
use agentic_workflows.Parsing.Lines.{
  parse_numbered_tasks, parse_bullet_lists, parse_nested_subtasks, input_lines,
}
use agentic_workflows.Parsing.Steps.{
  is_top_level, top_ids, suggest_tools_for_step, detect_dependencies, steps_to_flat_missions,
  limited_steps, enforce_step_limit,
}
use agentic_workflows.Parsing.Steps.Laws.{IsLimited, enforce_step_limit_lem}

abbrev sample_text : String
sample_text = "Task 1: Sort 3,1,2\n  1a. write out.txt\n2) echo hi\n"

abbrev sample_steps : List MissionStep
sample_steps =
    parse_nested_subtasks (input_lines sample_text) (parse_numbered_tasks (input_lines sample_text))

parsing : Unit {0}
unfolding parse_numbered_tasks parse_bullet_lists parse_nested_subtasks input_lines
    suggest_tools_for_step detect_dependencies steps_to_flat_missions enforce_step_limit
    limited_steps
parsing = tt

steps_test :
    map {B = String × String} (λ s. (s.id, s.description)) sample_steps
    ≡ ("1", "Sort 3,1,2") ∷ ("2", "echo hi") ∷ ("1a", "write out.txt") ∷ []
unfolding parsing
steps_test = refl

bullets_test :
    map {B = String × String}
      (λ s. (s.id, s.description))
      (parse_bullet_lists ("- a" ∷ "x" ∷ " * b c" ∷ []))
    ≡ ("1", "a") ∷ ("2", "b c") ∷ []
unfolding parsing print_nat
bullets_test = refl

abbrev step : String → String → Option String → MissionStep
step id description parent_id = record {
  id = id;
  description = description;
  parent_id = parent_id;
  suggested_tools = [];
  dependencies = [];
  status = "pending";
}

abbrev three_steps : List MissionStep
three_steps = step "1" "Sort" none ∷ step "2" "echo hi" none ∷ step "2a" "write" (some "2") ∷ []

suggest_test :
    map (λ s. (suggest_tools_for_step s).suggested_tools) three_steps
    ≡ ("sort_array" ∷ []) ∷ ("repeat_message" ∷ []) ∷ ("write_file" ∷ []) ∷ []
unfolding parsing
suggest_test = refl

dependencies_test :
    map (λ s. s.dependencies) (detect_dependencies three_steps) ≡ [] ∷ ("1" ∷ []) ∷ ("2" ∷ []) ∷ []
unfolding parsing
dependencies_test = refl

abbrev plan : StructuredPlan
plan = record {
  steps = three_steps;
  flat_missions = steps_to_flat_missions three_steps;
  parsing_method = "structured";
}

limit_test :
    (enforce_step_limit 1 plan).flat_missions ≡ "Task 1: Sort | echo hi | Subtasks: 2a. write" ∷ []
unfolding parsing join
limit_test = refl

-- A second step with the id of one that is kept is kept above the limit.
same_id_test :
    map (λ s. s.description) (limited_steps 1 (step "1" "a" none ∷ step "1" "b" none ∷ []))
    ≡ "a | b" ∷ "b" ∷ []
unfolding parsing join
same_id_test = refl

enforce_step_limit_lem_example :
    let limited = enforce_step_limit 1 plan in
    IsLimited 1 plan.steps limited.steps
    × (count_if is_top_level limited.steps ≡ 1)
    × (length limited.flat_missions ≡ 1)
unfolding count_if contains top_ids
enforce_step_limit_lem_example =
    enforce_step_limit_lem 1 plan (omega arith) (refl, (refl, tt)) (omega arith) refl

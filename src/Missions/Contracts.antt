-- ===== src/Missions/Contracts.antt =====
-- `build_mission_contracts_from_plan` and `initialize_mission_reports` of
-- orchestration/langgraph/mission_tracker.py.
pub mod Laws
use Prim.Native.String.{◌++◌ as str_append}
use agentic_workflows.Base.{
  ℕ, suc, ◌+◌, String, Bool, true, false, ◌&&◌, ◌||◌, Option, none, some, List, [], ◌∷◌, ◌++◌, map,
  if◌then◌else◌, get_elem?, is_nil, select, find, any, sorted, ◌==◌,
}
use agentic_workflows.Base.Text.{lower, contains_text, print_nat}
use agentic_workflows.Missions.{
  SubtaskContract, MissionContract, MissionReport, MissionStep, StructuredPlan, pending,
}
use agentic_workflows.Missions.Requirements.{Requirements, infer_requirements_from_text}

abbrev is_top : MissionStep → Bool
is_top step = elim step.parent_id [ none ↦ true | some p ↦ false ]

-- children_by_parent.get(id, [])
children_of : String → List MissionStep → List MissionStep
unfolding select
children_of id = select (λ step. elim step.parent_id [ none ↦ false | some p ↦ p == id ])

-- The top-level step of a mission: by position, else by an id that is the mission's number.
parent_step : StructuredPlan → ℕ → Option MissionStep
unfolding select find
parent_step plan idx =
    let top = select is_top plan.steps in
    elim (get_elem? top idx) [
      | some step ↦ some step
      | none ↦ find (λ step. step.id == print_nat (idx + 1)) top
    ]

subtask_of : String → String → Requirements → SubtaskContract
subtask_of id description needs = record {
  id = id;
  description = description;
  required_tools = sorted needs.tools;
  required_files = sorted needs.files;
  expected_fibonacci_count = needs.fibonacci_count;
}

-- A file or a count needs `write_file`.
write_tools : Requirements → List String
write_tools needs =
    (if is_nil needs.files then [] else "write_file" ∷ [])
    ++ elim needs.fibonacci_count [ none ↦ [] | some n ↦ "write_file" ∷ [] ]

-- What a child step adds to its mission.
child_tools : Requirements → List String
unfolding write_tools
child_tools needs = needs.tools ++ write_tools needs

-- A child's requirements merged into its mission's: the last count wins.
merge_child : Requirements → Requirements → Requirements
unfolding child_tools
merge_child needs more = record {
  tools = needs.tools ++ child_tools more;
  files = needs.files ++ more.files;
  fibonacci_count = elim more.fibonacci_count [ none ↦ needs.fibonacci_count | some n ↦ some n ];
}

merge_children : Requirements → List MissionStep → Requirements
unfolding merge_child
merge_children needs [] = needs
merge_children needs (child ∷ children) =
    merge_children (merge_child needs (infer_requirements_from_text child.description)) children

abbrev asks_pattern_report : String → Bool
asks_pattern_report text =
    contains_text (lower text) "pattern"
    && (contains_text (lower text) "sum" || contains_text (lower text) "mean")

contract_checks_of : Requirements → List String → List String
contract_checks_of needs texts =
    elim needs.fibonacci_count [
      | none ↦ []
      | some n ↦ str_append "fibonacci_count=" (print_nat n) ∷ []
    ]
    ++ (if is_nil needs.files then [] else "required_files" ∷ [])
    ++ (if is_nil needs.tools then [] else "required_tools" ∷ [])
    ++ (if any asks_pattern_report texts then "pattern_report_consistency" ∷ [] else [])

abbrev description_of : MissionStep → String
description_of step = step.description

-- The contract of a mission whose top-level step has the id and the children given.
contract_from : ℕ → String → String → List MissionStep → MissionContract
unfolding merge_children contract_checks_of subtask_of any
contract_from idx mission id children =
    let base = infer_requirements_from_text mission in
    let needs = merge_children base children in
    record {
      mission_id = idx + 1;
      required_tools = sorted needs.tools;
      required_files = sorted needs.files;
      expected_fibonacci_count = needs.fibonacci_count;
      contract_checks = contract_checks_of needs (mission ∷ map description_of children);
      subtask_contracts =
          subtask_of id mission base
          ∷ map
              (λ child.
                subtask_of child.id child.description
                  (infer_requirements_from_text child.description))
              children;
    }

contract_of : StructuredPlan → ℕ → String → MissionContract
unfolding parent_step children_of contract_from
contract_of plan idx mission =
    let parent = parent_step plan idx in
    contract_from idx mission (elim parent [ none ↦ print_nat (idx + 1) | some step ↦ step.id ])
      (elim parent [ none ↦ [] | some step ↦ children_of step.id plan.steps ])

contracts_from : StructuredPlan → ℕ → List String → List MissionContract
unfolding contract_of
contracts_from plan idx [] = []
contracts_from plan idx (mission ∷ missions) =
    contract_of plan idx mission ∷ contracts_from plan (suc idx) missions

unfoldable pub build_mission_contracts_from_plan :
    StructuredPlan → List String → List MissionContract
unfolding contracts_from
build_mission_contracts_from_plan plan missions = contracts_from plan 0 missions

-- A report at the start; without a contract nothing is required.
initial_report : ℕ → String → Option MissionContract → MissionReport
initial_report index mission contract = record {
  mission_id = index + 1;
  mission = mission;
  used_tools = [];
  tool_results = [];
  result = "";
  status = pending;
  required_tools = elim contract [ none ↦ [] | some c ↦ c.required_tools ];
  required_files = elim contract [ none ↦ [] | some c ↦ c.required_files ];
  written_files = [];
  expected_fibonacci_count = elim contract [ none ↦ none | some c ↦ c.expected_fibonacci_count ];
  contract_checks = elim contract [ none ↦ [] | some c ↦ c.contract_checks ];
  subtask_contracts = elim contract [ none ↦ [] | some c ↦ c.subtask_contracts ];
  subtask_statuses = [];
}

reports_from : ℕ → List String → List MissionContract → List MissionReport
unfolding initial_report
reports_from index [] contracts = []
reports_from index (mission ∷ missions) contracts =
    initial_report index mission (get_elem? contracts index)
    ∷ reports_from (suc index) missions contracts

unfoldable pub initialize_mission_reports : List String → List MissionContract → List MissionReport
unfolding reports_from
initialize_mission_reports missions contracts = reports_from 0 missions contracts

-- ===== src/Missions/Contracts/Laws.antt =====
-- A mission's contract covers its sub-tasks.
use agentic_workflows.Base.{
  ℕ, ◌+◌, String, ◌≡◌, Bool, true, ◌&&◌, Option, none, some, List, [], ◌∷◌, map, get_elem?, all,
  contains, sorted, subset, false, find, select, ◌==◌,
}
use agentic_workflows.Base.Text.{print_nat}
use agentic_workflows.Missions.{SubtaskContract, MissionContract, MissionStep, StructuredPlan}
use agentic_workflows.Missions.Requirements.{Requirements, infer_requirements_from_text}
use agentic_workflows.Missions.Contracts.{subtask_of}

-- Set inclusion, element by element.
abbrev Includes : List String → List String → Type 0
Includes ys xs = (z : String) → contains xs z ≡ true → contains ys z ≡ true

-- Both sets of `more` include those of `needs`.
abbrev Covers : Requirements → Requirements → Type 0
Covers more needs = Includes more.tools needs.tools × Includes more.files needs.files

abbrev inferred : MissionStep → Requirements
inferred c = infer_requirements_from_text c.description

-- The contract's sets hold those of a sub-task.
abbrev pub covers : MissionContract → SubtaskContract → Bool
covers c sub =
    subset sub.required_tools c.required_tools && subset sub.required_files c.required_files

abbrev covered_by : Requirements → SubtaskContract → Bool
covered_by needs sub =
    subset sub.required_tools (sorted needs.tools) && subset sub.required_files (sorted needs.files)

abbrev child_subtask : MissionStep → SubtaskContract
child_subtask c = subtask_of c.id c.description (inferred c)

abbrev IsCovering : ℕ → Option MissionContract → Type 0
IsCovering idx none = Unit {0}
IsCovering idx (some c) = (c.mission_id ≡ idx + 1) × (all (covers c) c.subtask_contracts ≡ true)

-- The id and the text of a sub-task.
abbrev pub label_of : SubtaskContract → String × String
label_of sub = (sub.id, sub.description)

-- The steps of the plan below the id.
abbrev pub steps_below : StructuredPlan → String → List MissionStep
steps_below plan id =
    select (λ step. elim step.parent_id [ none ↦ false | some p ↦ p == id ]) plan.steps

-- The step of a mission: the top-level step at its position, else the first one whose id is its number.
abbrev pub planned_step : StructuredPlan → ℕ → Option MissionStep
planned_step plan i =
    let top =
      select (λ (step : MissionStep). elim step.parent_id [ none ↦ true | some p ↦ false ])
        plan.steps in
    elim (get_elem? top i) [
      | some step ↦ some step
      | none ↦ find (λ step. step.id == print_nat (i + 1)) top
    ]

-- The sub-tasks that a mission's contract has to have: the mission under its step's id, and the steps
-- of the plan below that step, or none when the mission has no step.
abbrev pub planned_labels : StructuredPlan → ℕ → String → List (String × String)
planned_labels plan i mission = elim (planned_step plan i) [
  | none ↦ (print_nat (i + 1), mission) ∷ []
  | some step ↦
      (step.id, mission) ∷ map (λ child. (child.id, child.description)) (steps_below plan step.id)
]

abbrev HasLabels : StructuredPlan → ℕ → Option String → Option MissionContract → Type 0
HasLabels plan i none o = Unit
HasLabels plan i (some mission) none = Unit
HasLabels plan i (some mission) (some c) =
    map label_of c.subtask_contracts ≡ planned_labels plan i mission

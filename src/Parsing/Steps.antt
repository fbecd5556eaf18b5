-- ===== src/Parsing/Steps.antt =====
-- orchestration/langgraph/mission_parser.py: `_suggest_tools_for_steps`, `_detect_dependencies`,
-- `_steps_to_flat_missions`, `_enforce_step_limit` and `_deterministic_classify`, over the steps of a
-- plan. The code changes the steps in place.
pub mod Rebuild
pub mod Laws
use agentic_workflows.Base.{
  ℕ, zero, suc, ◌+◌, max, String, ap, Bool, true, false, ◌||◌, Option, none, some, List, [], ◌∷◌,
  ◌++◌, map, leb, eqb, if◌then◌else◌, get_or, length, take, is_nil, last?, select, find, all, any,
  contains, ◌==◌,
}
use agentic_workflows.Base.Text.{lower, empty, contains_text, join}
use agentic_workflows.Values.{nil, end, get}
use agentic_workflows.Missions.{MissionStep, StructuredPlan}
use agentic_workflows.Parsing.Keywords.{tool_keyword_map}

abbrev pub is_top_level : MissionStep → Bool
is_top_level s = elim s.parent_id [ none ↦ true | some p ↦ false ]

abbrev pub is_sub_step : MissionStep → Bool
is_sub_step s = elim s.parent_id [ none ↦ false | some p ↦ true ]

-- The names with those of a list that are not there yet.
unfoldable pub add_missing : List String → List String → List String
unfolding contains
add_missing names [] = names
add_missing names (tool ∷ tools) =
    let more = add_missing (names ++ tool ∷ []) tools in
    let same = add_missing names tools in if contains names tool then same else more

suggested_from : String → List String → List (String × List String) → List String
unfolding contains_text add_missing
suggested_from text suggested [] = suggested
suggested_from text suggested ((keyword, tools) ∷ entries) =
    let more = suggested_from text (add_missing suggested tools) entries in
    let same = suggested_from text suggested entries in
    if contains_text text keyword then more else same

unfoldable pub suggest_tools_for_step : MissionStep → MissionStep
unfolding lower suggested_from
suggest_tools_for_step s = record s {
  suggested_tools = suggested_from (lower s.description) [] tool_keyword_map;
}

same_parent : Option String → Option String → Bool
same_parent none none = true
same_parent (some p) (some q) = p == q
same_parent o u = false

-- What a step depends on: its sibling before it, or else its parent.
with_dependency : Option MissionStep → MissionStep → MissionStep
unfolding contains
with_dependency (some sibling) s = record s { dependencies = s.dependencies ++ sibling.id ∷ [] }
with_dependency none s = elim s.parent_id [
  | none ↦ s
  | some p ↦
      if empty p || contains s.dependencies p
      then s
      else record s { dependencies = s.dependencies ++ p ∷ [] }
]

-- The steps with their dependencies, behind those that came before, the latest first.
dependencies_from : List MissionStep → List MissionStep → List MissionStep
unfolding find same_parent with_dependency
dependencies_from earlier [] = []
dependencies_from earlier (s ∷ steps) =
    with_dependency (find (λ e. same_parent e.parent_id s.parent_id) earlier) s
    ∷ dependencies_from (s ∷ earlier) steps

unfoldable pub detect_dependencies : List MissionStep → List MissionStep
unfolding dependencies_from
detect_dependencies steps = dependencies_from [] steps

child_texts : List MissionStep → List String
child_texts [] = []
child_texts (s ∷ steps) = join "" (s.id ∷ ". " ∷ s.description ∷ []) ∷ child_texts steps

child_steps : List MissionStep → String → List MissionStep
unfolding select
child_steps steps id = select (λ s. elim s.parent_id [ none ↦ false | some p ↦ p == id ]) steps

flat_mission : List MissionStep → MissionStep → String
unfolding child_steps child_texts
flat_mission steps s =
    let children = child_steps steps s.id in
    let mission = join "" ("Task " ∷ s.id ∷ ": " ∷ s.description ∷ []) in
    if is_nil children
    then mission
    else join "" (mission ∷ " | Subtasks: " ∷ join "; " (child_texts children) ∷ [])

-- The missions of these top-level steps, with children among all steps.
unfoldable pub flat_from : List MissionStep → List MissionStep → List String
unfolding flat_mission
flat_from all_steps [] = []
flat_from all_steps (s ∷ steps) =
    let rest = flat_from all_steps steps in
    if is_top_level s then flat_mission all_steps s ∷ rest else rest

unfoldable pub steps_to_flat_missions : List MissionStep → List String
unfolding flat_from
steps_to_flat_missions steps =
    let flat = flat_from steps steps in if is_nil flat then map (λ s. s.description) steps else flat

unfoldable pub top_ids : List MissionStep → List String
top_ids [] = []
top_ids (s ∷ steps) = let rest = top_ids steps in if is_top_level s then s.id ∷ rest else rest

-- xs[n:]
unfoldable pub skip {ℓ} : {A : Type ℓ} → ℕ → List A → List A
skip zero xs = xs
skip (suc n) [] = []
skip (suc n) (x ∷ xs) = skip n xs

merged_tools : List String → List MissionStep → List String
unfolding add_missing
merged_tools tools [] = tools
merged_tools tools (s ∷ steps) = merged_tools (add_missing tools s.suggested_tools) steps

-- The last step that is kept, with what the excess steps say and suggest.
unfoldable pub merge_excess : List MissionStep → MissionStep → MissionStep
unfolding merged_tools
merge_excess excess last = record last {
  description = join " | " (last.description ∷ map (λ s. s.description) excess);
  suggested_tools = merged_tools last.suggested_tools excess;
}

-- The steps that are kept of these, of which the first top-level one stands at position k among those.
unfoldable pub rebuild :
    ℕ
    → List String
    → List String
    → List MissionStep
    → String
    → ℕ
    → List MissionStep
    → List MissionStep
unfolding contains merge_excess
rebuild max_steps kept_ids excess_ids excess last_id k [] = []
rebuild max_steps kept_ids excess_ids excess last_id k (s ∷ steps) =
    let after_top = rebuild max_steps kept_ids excess_ids excess last_id (suc k) steps in
    let after_sub = rebuild max_steps kept_ids excess_ids excess last_id k steps in
    elim s.parent_id [
      | none ↦
          if eqb (suc k) max_steps
          then merge_excess excess s ∷ after_top
          else if contains kept_ids s.id
          then s ∷ after_top
          else after_top
      | some p ↦
          (if contains excess_ids p then record s { parent_id = some last_id } else s) ∷ after_sub
    ]

unfoldable pub limited_steps : ℕ → List MissionStep → List MissionStep
unfolding top_ids skip select rebuild
limited_steps max_steps steps =
    let ids = top_ids steps in
    let kept_ids = take max_steps ids in
    rebuild max_steps kept_ids (skip max_steps ids) (skip max_steps (select is_top_level steps))
      (get_or "" (last? kept_ids)) 0 steps

unfoldable pub enforce_step_limit : ℕ → StructuredPlan → StructuredPlan
enforce_step_limit max_steps plan =
    let new_steps = limited_steps max_steps plan.steps in
    if eqb max_steps 0 || leb (length (select is_top_level plan.steps)) max_steps
    then plan
    else record plan { steps = new_steps; flat_missions = steps_to_flat_missions new_steps }

abbrev complex_tools : List String
complex_tools =
    "data_analysis" ∷ "outline_code" ∷ "read_file_chunk" ∷ "run_bash" ∷ "http_request" ∷ []

-- Whether a plan is complex, by its tools, its number of top-level steps and how it was parsed.
unfoldable pub is_complex_plan : StructuredPlan → Bool
unfolding any contains select
is_complex_plan plan =
    any (λ s. any (contains complex_tools) s.suggested_tools) plan.steps
    || leb 3 (length (select is_top_level plan.steps))
    || (plan.parsing_method == "regex_fallback")

-- ===== src/Parsing/Plans.antt =====
-- orchestration/langgraph/mission_parser.py: plans as dicts, `to_dict` and `from_dict` of a plan, of its
-- steps and of its intent. A dict without a key that is read by index, or with a value of another type
-- than the field's, has no plan. The confidence, a float, is kept as it is.
use agentic_workflows.Base.{String, ◌≡◌, refl, Option, none, some, List, [], ◌∷◌, arith, get_or}
use agentic_workflows.Values.{Value, null, str, arr, obj, Items, nil, cons, Fields, end, field, get}
use agentic_workflows.Missions.{MissionStep, StructuredPlan}

infixl 20 ◌>>=◌
abbrev ◌>>=◌ {ℓ} : {A B : Type ℓ} → Option A → (A → Option B) → Option B
none >>= f = none
(some a) >>= f = f a

pub record IntentClassification : Type 0 where
  pub complexity : String
  pub mission_type : String
  pub confidence : Value
  pub source : String

pub record ClassifiedPlan : Type 0 where
  pub plan : StructuredPlan
  pub intent_classification : Option IntentClassification

text_items : List String → Items
text_items [] = nil
text_items (s ∷ ss) = cons (str s) (text_items ss)

intent_dict : IntentClassification → Fields
intent_dict c = field "complexity" (str c.complexity) (
    field "mission_type" (str c.mission_type)
      (field "confidence" c.confidence (field "source" (str c.source) end)))

optional_text : Option String → Value
optional_text none = null
optional_text (some s) = str s

step_dict : MissionStep → Fields
unfolding text_items optional_text
step_dict s = field "id" (str s.id) (
    field "description" (str s.description) (
      field "parent_id" (optional_text s.parent_id) (
        field "suggested_tools" (arr (text_items s.suggested_tools)) (
          field "dependencies" (arr (text_items s.dependencies))
            (field "status" (str s.status) end)))))

step_items : List MissionStep → Items
unfolding step_dict
step_items [] = nil
step_items (s ∷ steps) = cons (obj (step_dict s)) (step_items steps)

optional_intent : Option IntentClassification → Value
unfolding intent_dict
optional_intent none = null
optional_intent (some c) = obj (intent_dict c)

unfoldable pub plan_to_dict : ClassifiedPlan → Fields
unfolding step_items text_items optional_intent
plan_to_dict p = field "steps" (arr (step_items p.plan.steps)) (
    field "flat_missions" (arr (text_items p.plan.flat_missions)) (
      field "parsing_method" (str p.plan.parsing_method)
        (field "intent_classification" (optional_intent p.intent_classification) end)))

-- A text that is there, or the default where nothing is.
text_value : Option String → Option Value → Option String
text_value default none = default
text_value default (some (str s)) = some s
text_value default (some v) = none

optional_value : Option Value → Option (Option String)
optional_value none = some none
optional_value (some null) = some none
optional_value (some (str s)) = some (some s)
optional_value (some v) = none

texts_of_items : Items → Option (List String)
texts_of_items nil = some []
texts_of_items (cons (str s) vs) = elim (texts_of_items vs) [
  | none ↦ none
  | some ss ↦ some (s ∷ ss)
]
texts_of_items (cons v vs) = none

texts_value : Option Value → Option (List String)
unfolding texts_of_items
texts_value none = some []
texts_value (some (arr vs)) = texts_of_items vs
texts_value (some v) = none

step_from : Fields → Option MissionStep
unfolding text_value optional_value texts_value get
step_from s = do
  id ← text_value none (get "id" s)
  description ← text_value none (get "description" s)
  parent_id ← optional_value (get "parent_id" s)
  suggested_tools ← texts_value (get "suggested_tools" s)
  dependencies ← texts_value (get "dependencies" s)
  status ← text_value (some "pending") (get "status" s)
  some record {
    id = id;
    description = description;
    parent_id = parent_id;
    suggested_tools = suggested_tools;
    dependencies = dependencies;
    status = status;
  }

steps_from : Items → Option (List MissionStep)
unfolding step_from
steps_from nil = some []
steps_from (cons (obj s) vs) = do step ← step_from s; steps ← steps_from vs; some (step ∷ steps)
steps_from (cons v vs) = none

steps_value : Option Value → Option (List MissionStep)
unfolding steps_from
steps_value none = some []
steps_value (some (arr vs)) = steps_from vs
steps_value (some v) = none

-- 0.5, as its text
abbrev default_confidence : Value
default_confidence = str "0.5"

intent_from : Fields → Option IntentClassification
unfolding text_value get
intent_from c = do
  complexity ← text_value none (get "complexity" c)
  mission_type ← text_value none (get "mission_type" c)
  source ← text_value (some "unknown") (get "source" c)
  some record {
    complexity = complexity;
    mission_type = mission_type;
    confidence = get_or default_confidence (get "confidence" c);
    source = source;
  }

-- An intent that is missing, None or an empty dict is none.
intent_value : Option Value → Option (Option IntentClassification)
unfolding intent_from
intent_value none = some none
intent_value (some null) = some none
intent_value (some (obj end)) = some none
intent_value (some (obj (field k v fs))) = do c ← intent_from (field k v fs); some (some c)
intent_value (some v) = none

unfoldable pub plan_from_dict : Fields → Option ClassifiedPlan
unfolding get steps_value texts_value text_value intent_value
plan_from_dict fs = do
  steps ← steps_value (get "steps" fs)
  flat_missions ← texts_value (get "flat_missions" fs)
  parsing_method ← text_value (some "unknown") (get "parsing_method" fs)
  intent ← intent_value (get "intent_classification" fs)
  some record {
    plan = record { steps = steps; flat_missions = flat_missions; parsing_method = parsing_method };
    intent_classification = intent;
  }

texts_back : (ss : List String) → texts_of_items (text_items ss) ≡ some ss
unfolding texts_of_items text_items
texts_back [] = refl
texts_back (s ∷ ss) = ground (arith, texts_back ss)

optional_back : (o : Option String) → optional_value (some (optional_text o)) ≡ some o
unfolding optional_value optional_text
optional_back none = refl
optional_back (some s) = refl

step_back : (s : MissionStep) → step_from (step_dict s) ≡ some s
unfolding step_from step_dict texts_value text_value get
step_back s =
    ground
      (arith, optional_back s.parent_id, texts_back s.suggested_tools, texts_back s.dependencies)

steps_back : (steps : List MissionStep) → steps_from (step_items steps) ≡ some steps
unfolding steps_from step_items
steps_back [] = refl
steps_back (s ∷ steps) = ground (arith, step_back s, steps_back steps)

intent_back : (o : Option IntentClassification) → intent_value (some (optional_intent o)) ≡ some o
unfolding intent_value optional_intent intent_dict intent_from text_value get
intent_back none = refl
intent_back (some c) = refl

-- A plan is read back from its dict as it was.
pub plan_from_dict-plan_to_dict : (p : ClassifiedPlan) → plan_from_dict (plan_to_dict p) ≡ some p
unfolding plan_from_dict plan_to_dict steps_value texts_value text_value get
plan_from_dict-plan_to_dict p = ground (
  arith,
  steps_back p.plan.steps,
  texts_back p.plan.flat_missions,
  intent_back p.intent_classification,
)

-- ===== src/Planner/Objects.antt =====
-- `extract_first_json_object` and `extract_all_json_objects` of
-- orchestration/langgraph/action_parser.py: the balanced objects in a model's answer.
pub mod Balance
pub mod Laws
use Prim.Native.Char.{Char, code}
use agentic_workflows.Base.{
  ℕ, zero, suc, ◌-◌, String, ap, Bool, true, false, not, ◌&&◌, Option, none, some, List, [], ◌∷◌,
  eqb, if◌then◌else◌, all,
}
use agentic_workflows.Base.Text.{size, split}
use agentic_workflows.Values.{str, obj}

-- depth, in_string and escaped
pub record Scan : Type 0 where
  pub depth : ℕ
  pub in_string : Bool
  pub escaped : Bool

abbrev pub at_start : Scan
at_start = record { depth = 0; in_string = false; escaped = false }

-- One turn of the loop over the characters.
scan_char : Scan → Char → Scan
scan_char s c =
    let n = code c in
    if s.in_string
    then (if s.escaped
        then record s { escaped = false }
        else if eqb n 92
        then record s { escaped = true }
        else if eqb n 34
        then record s { in_string = false }
        else s)
    else if eqb n 34
    then record s { in_string = true }
    else if eqb n b'{'
    then record s { depth = suc s.depth }
    else if eqb n b'}'
    then record s { depth = s.depth - 1 }
    else s

-- Whether the character takes the depth to 0.
closes : Scan → Char → Bool
closes s c = not s.in_string && eqb (code c) b'}' && eqb s.depth 1

with_char : Char → Option (String × String) → Option (String × String)
with_char c none = none
with_char c (some (o, rest)) = some (String.◌∷◌ c o, rest)

-- The text up to the closing brace, and what follows it.
pub scan : Scan → String → Option (String × String)
unfolding scan_char closes with_char
scan s String.[] = none
scan s (String.◌∷◌ c text) =
    let later = scan (scan_char s c) text in
    if closes s c then some (String.◌∷◌ c "", text) else with_char c later

-- text[text.find("{"):], or nothing
from_brace : String → String
from_brace String.[] = ""
from_brace (String.◌∷◌ c text) =
    let later = from_brace text in if eqb (code c) b'{' then String.◌∷◌ c text else later

-- The first object and what follows it.
unfoldable pub split_object : String → Option (String × String)
unfolding scan from_brace
split_object text = scan at_start (from_brace text)

unfoldable pub extract_first_json_object : String → Option String
unfolding split_object
extract_first_json_object text = elim (split_object text) [ none ↦ none | some p ↦ some p.0 ]

-- The loop over the positions; its fuel is the length of the text.
objects_from : ℕ → String → List String
unfolding split_object
objects_from zero text = []
objects_from (suc n) text = elim (split_object text) [
  | none ↦ []
  | some p ↦ p.0 ∷ objects_from n p.1
]

unfoldable pub extract_all_json_objects : String → List String
unfolding objects_from size
extract_all_json_objects text = objects_from (size text) text

-- ===== src/Audit/Counts.antt =====
-- orchestration/langgraph/mission_auditor.py: the checks that count the items of a result,
-- `_check_list_count` and `_check_chain_integrity`.
use agentic_workflows.Base.{
  ℕ, suc, ◌-◌, String, Option, none, some, List, [], ◌∷◌, leb, eqb, if◌then◌else◌, ◌==◌,
}
use agentic_workflows.Base.Text.{join, print_nat}
use agentic_workflows.Values.{Value, arr, Items, nil, cons, Fields, get}
use agentic_workflows.Regex.{Re, seq, alt, group, search_re}
use agentic_workflows.Regex.Patterns.{opt, plus, digit, space, lit_any_case}
use agentic_workflows.Base.Text.{parse_nat}
use agentic_workflows.Missions.{MissionReport, ToolResult}
use agentic_workflows.Audit.{Level, AuditFinding, finding}

-- len(xs)
items_length : Items → ℕ
items_length nil = 0
items_length (cons v vs) = suc (items_length vs)

-- The length of d[key], where that is a list.
unfoldable pub list_length : String → Fields → Option ℕ
unfolding get items_length
list_length key fs = of_value (get key fs)
  where
    of_value : Option Value → Option ℕ
    of_value (some (arr vs)) = some (items_length vs)
    of_value o = none

-- The first of these keys that has a list, and how long that is.
unfoldable pub first_list : List String → Fields → Option (String × ℕ)
unfolding list_length
first_list [] fs = none
first_list (key ∷ keys) fs =
    let rest = first_list keys fs in
    elim (list_length key fs) [ none ↦ rest | some n ↦ some (key, n) ]

abbrev list_keys : List String
list_keys = "sorted" ∷ "non_outliers" ∷ "matches" ∷ "numbers" ∷ "items" ∷ "result" ∷ []

plural : String → Re
unfolding lit_any_case
plural s = seq (lit_any_case s) (opt (lit_any_case "s"))

-- r"(?:fibonacci|numbers?|items?)"
counted : Re
unfolding lit_any_case plural
counted = alt (lit_any_case "fibonacci") (alt (plural "number") (plural "item"))

-- r"first\s+(\d+)\s+(?:fibonacci|numbers?|items?|terms?)", in any case
first_pattern : Re
unfolding lit_any_case plural
first_pattern = seq (lit_any_case "first") (
    seq (plus space) (
      seq (group (plus digit)) (
        seq (plus space) (
          alt (lit_any_case "fibonacci")
            (alt (plural "number") (alt (plural "item") (plural "term")))))))

-- r"(\d+)\s+(?:fibonacci|numbers?|items?)", in any case
number_pattern : Re
unfolding counted
number_pattern = seq (group (plus digit)) (seq (plus space) counted)

-- How many items a mission asks for.
unfoldable pub asked_count : String → Option ℕ
unfolding search_re parse_nat first_pattern number_pattern
asked_count text = elim (search_re first_pattern text) [
  | some digits ↦ some (parse_nat digits)
  | none ↦ elim (search_re number_pattern text) [
    | some digits ↦ some (parse_nat digits)
    | none ↦ none
  ]
]

count_finding : MissionReport → ℕ → List ToolResult → Option AuditFinding
unfolding first_list
count_finding r n [] = none
count_finding r n (t ∷ ts) =
    let rest = count_finding r n ts in
    elim (first_list list_keys t.result) [
      | none ↦ rest
      | some (key, actual) ↦
          if eqb actual n
          then none
          else some (
              finding r Level.fail "count_match" (
                "Expected "
                ∷ print_nat n
                ∷ " items in '"
                ∷ key
                ∷ "' but got "
                ∷ print_nat actual
                ∷ "."
                ∷ []))
    ]

unfoldable pub check_list_count : MissionReport → Option AuditFinding
unfolding asked_count count_finding
check_list_count r = elim (asked_count r.mission) [
  | none ↦ none
  | some n ↦ count_finding r n r.tool_results
]

-- The last result of a tool.
unfoldable pub last_result_of : String → List ToolResult → Option Fields
last_result_of tool [] = none
last_result_of tool (t ∷ ts) = elim (last_result_of tool ts) [
  | some later ↦ some later
  | none ↦ if t.tool == tool then some t.result else none
]

length_in : String → Option Fields → Option ℕ
unfolding list_length
length_in key none = none
length_in key (some fs) = list_length key fs

print_difference : ℕ → ℕ → String
print_difference a b = if leb b a then print_nat (a - b) else join "" ("-" ∷ print_nat (b - a) ∷ [])

chain_finding : MissionReport → Option ℕ → Option ℕ → Option AuditFinding
unfolding print_difference
chain_finding r (some expected) (some actual) =
    if eqb expected actual
    then none
    else some (
        finding r Level.fail "chain_integrity" (
          "data_analysis returned "
          ∷ print_nat expected
          ∷ " non_outliers but sort_array received "
          ∷ print_nat actual
          ∷ " items ("
          ∷ print_difference expected actual
          ∷ " item(s) dropped by planner)."
          ∷ []))
chain_finding r expected actual = none

unfoldable pub check_chain_integrity : MissionReport → Option AuditFinding
unfolding chain_finding length_in last_result_of
check_chain_integrity r =
    chain_finding r (length_in "non_outliers" (last_result_of "data_analysis" r.tool_results))
      (length_in "original" (last_result_of "sort_array" r.tool_results))

-- ===== src/Validate.antt =====
-- The fibonacci checks of orchestration/langgraph/content_validator.py on what a mission writes. The
-- checks of a pattern report, which compare floating-point numbers, are not modelled.
pub mod Laws
pub mod Samples
use Prim.Native.String.{◌++◌ as str_append}
use agentic_workflows.Base.{
  get_elem?, get_or, is_nil, map, ℕ, zero, suc, ◌+◌, ◌-◌, min, String, ap, Bool, false, not, ◌&&◌,
  ◌||◌, Option, none, some, List, [], ◌∷◌, ◌++◌, ltb, eqb, if◌then◌else◌, length, contains, ◌==◌,
}
use agentic_workflows.Base.Int.{index?, ℤ, pos, negsuc}
use agentic_workflows.Base.Text.{empty, strip, lower, contains_text, print_nat}
use agentic_workflows.Values.{int, str, Fields, end, get, has, get_str}
use agentic_workflows.Values.{print_int}
use agentic_workflows.Extract.{extract_fibonacci_count, parse_csv_int_list}
use agentic_workflows.Missions.{RunState, MissionReport}

infixr 65 ◌+++◌
abbrev ◌+++◌ : String → String → String
◌+++◌ = str_append

-- m - n
minus : ℕ → ℕ → ℤ
minus m zero = pos m
minus zero (suc n) = negsuc n
minus (suc m) (suc n) = minus m n

infixl 65 ◌+ℤ◌
unfoldable pub ◌+ℤ◌ : ℤ → ℤ → ℤ
unfolding minus
pos m +ℤ pos n = pos (m + n)
pos m +ℤ negsuc n = minus m (suc n)
negsuc m +ℤ pos n = minus n (suc m)
negsuc m +ℤ negsuc n = negsuc (suc (m + n))

int_eq : ℤ → ℤ → Bool
int_eq (pos m) (pos n) = eqb m n
int_eq (negsuc m) (negsuc n) = eqb m n
int_eq a b = false

-- The loop over the numbers from the third on; `a` and `b` are the two before.
sequence_error : ℕ → ℤ → ℤ → List ℤ → Option String
unfolding int_eq
sequence_error seq_index a b [] = none
sequence_error seq_index a b (n ∷ ns) =
    let later = sequence_error (suc seq_index) b n ns in
    if int_eq n (b +ℤ a)
    then later
    else some (
        "fibonacci sequence mismatch at index "
        +++ print_nat seq_index
        +++ ": got "
        +++ print_int n
        +++ ", expected "
        +++ print_int (b +ℤ a)
        +++ ".")

start_error : List ℤ → Option String
unfolding int_eq sequence_error
start_error (a ∷ b ∷ ns) =
    let rest = sequence_error 2 a b ns in
    if int_eq a (pos 0) && int_eq b (pos 1)
    then rest
    else some "fibonacci content must start with 0, 1."
start_error ns = some "fibonacci content must start with 0, 1."

unfoldable pub numbers_error : ℕ → List ℤ → Option String
unfolding start_error
numbers_error expected_count numbers =
    if not (eqb (length numbers) expected_count)
    then some (
        "fibonacci content must contain exactly "
        +++ print_nat expected_count
        +++ " integers, got "
        +++ print_nat (length numbers)
        +++ ".")
    else start_error numbers

expected_count_of : MissionReport → ℕ
unfolding extract_fibonacci_count lower
expected_count_of report =
    let from_text = extract_fibonacci_count (lower report.mission) in
    elim report.expected_fibonacci_count [
      | none ↦ from_text
      | some n ↦ if ltb 0 n then n else from_text
    ]

is_fibonacci_mission : MissionReport → Bool
unfolding lower contains_text
is_fibonacci_mission report =
    elim report.expected_fibonacci_count [ none ↦ false | some n ↦ ltb 0 n ]
    || contains_text (lower report.mission) "fibonacci"

-- The checks up to the pattern report's, on the report that the mission's index names.
unfoldable pub validate_fibonacci : MissionReport → String → Fields → Fields → Option String
unfolding has get_str is_fibonacci_mission expected_count_of numbers_error parse_csv_int_list
validate_fibonacci report tool_name tool_args tool_result =
    if not (tool_name == "write_file")
      || has "error" tool_result
      || not (is_fibonacci_mission report)
    then none
    else elim (parse_csv_int_list (get_str "" "content" tool_args)) [
      | none ↦ some "write_file content must be a comma-separated list of integers."
      | some numbers ↦ numbers_error (expected_count_of report) numbers
    ]

-- Whether the written content has to be a pattern report.
is_pattern_report : MissionReport → Bool
unfolding lower strip contains_text
is_pattern_report report =
    let text = lower report.mission in
    let checks = map (λ check. lower (strip check)) report.contract_checks in
    if is_nil checks && contains_text text "pattern"
    then contains_text text "sum" || contains_text text "mean"
    else contains checks "pattern_report_consistency"

non_empty : Option String → Option String
non_empty none = none
non_empty (some text) = if empty text then none else some text

-- `pattern_error` is validate_pattern_report_content, which compares floating-point numbers.
module _ (pattern_error : String → Option String) where
  validate_report : MissionReport → String → Fields → Fields → Option String
  unfolding validate_fibonacci is_pattern_report get_str has non_empty
  validate_report report tool_name tool_args tool_result =
      elim (validate_fibonacci report tool_name tool_args tool_result) [
        | some problem ↦ some problem
        | none ↦
            if tool_name == "write_file"
              && not (has "error" tool_result)
              && is_pattern_report report
            then non_empty (pattern_error (get_str "" "content" tool_args))
            else none
      ]

  -- A mission's index that is out of range has no report, and nothing to check.
  unfoldable pub validate_tool_result_for_active_mission :
      RunState → String → Fields → Fields → Option ℤ → Option String
  unfolding validate_report
  validate_tool_result_for_active_mission state tool_name tool_args tool_result mission_index =
      elim (index? (get_or state.active_mission_index mission_index)) [
        | none ↦ none
        | some i ↦ elim (get_elem? state.mission_reports i) [
          | none ↦ none
          | some report ↦ validate_report report tool_name tool_args tool_result
        ]
      ]

-- ===== src/Audit/Numbers.antt =====
-- orchestration/langgraph/mission_auditor.py: the checks of the numbers that a mission wrote or
-- averaged, `_check_fibonacci_file_size` and `_check_mean_reuse`.
use Prim.Native.Char.{code}
use agentic_workflows.Base.{
  ℕ, zero, suc, ◌+◌, ◌-◌, String, Bool, true, false, not, ◌&&◌, ◌||◌, Option, none, some, List, [],
  ◌∷◌, ltb, leb, eqb, if◌then◌else◌, last?, select, count_if, contains, ◌==◌,
}
use agentic_workflows.Base.Text.{strip, lower, empty, size, contains_text, split, print_nat}
use agentic_workflows.Values.{get_str}
use agentic_workflows.Regex.{Re, seq, alt, group, search_re}
use agentic_workflows.Regex.Patterns.{plus, digit, space, lit_any_case}
use agentic_workflows.Base.Text.{parse_nat}
use agentic_workflows.Missions.{MissionReport, ToolResult, ToolRecord}
use agentic_workflows.Audit.{Level, AuditFinding, finding}
use agentic_workflows.Audit.Outputs.{told_chars}
use agentic_workflows.Audit.Counts.{list_length, first_list}

-- The characters of the first numbers as text: n of them to go, from a on, with a comma between them.
csv_chars : ℕ → ℕ → ℕ → ℕ
unfolding size
csv_chars zero a b = 0
csv_chars (suc n) a b = size (print_nat a) + (if eqb n 0 then 0 else 1) + csv_chars n b (a + b)

unfoldable pub estimate_fib_csv_min_chars : ℕ → ℕ
unfolding csv_chars
estimate_fib_csv_min_chars n = csv_chars n 0 1

-- Digits, with single underscores between them.
is_digits : Bool → String → Bool
is_digits after_digit String.[] = after_digit
is_digits after_digit (String.◌∷◌ c s) =
    let n = code c in
    let digits = is_digits true s in
    let gap = is_digits false s in
    if leb 48 n && leb n 57 then digits else after_digit && eqb n 95 && gap

-- Whether int(t) gives a number, for a text that is stripped.
is_int_text : String → Bool
unfolding is_digits
is_int_text String.[] = false
is_int_text (String.◌∷◌ c s) =
    let n = code c in
    if eqb n 43 || eqb n 45 then is_digits false s else is_digits false (String.◌∷◌ c s)

unfoldable pub count_csv_integers : String → ℕ
unfolding count_if split strip is_int_text
count_csv_integers content = count_if (λ t. is_int_text (strip t)) (split "," content)

-- r"first\s+(\d+)|(\d+)\s+fibonacci", in any case
fibonacci_pattern : Re
unfolding lit_any_case
fibonacci_pattern =
    alt (seq (lit_any_case "first") (seq (plus space) (group (plus digit))))
      (seq (group (plus digit)) (seq (plus space) (lit_any_case "fibonacci")))

result_paths : List ToolResult → List String
unfolding get_str
result_paths [] = []
result_paths (t ∷ ts) =
    let rest = result_paths ts in
    if t.tool == "write_file" then get_str "" "path" t.result ∷ rest else rest

is_fib_write : List String → ToolRecord → Bool
unfolding get_str contains_text lower contains
is_fib_write fib_paths h =
    let path = get_str "" "path" h.args in
    (h.tool == "write_file")
    && not (empty (get_str "" "content" h.args))
    && (contains_text (lower path) "fib" || contains fib_paths path)

content_finding : MissionReport → ℕ → ℕ → Option AuditFinding
content_finding r n actual =
    if ltb actual n
    then some (
        finding r Level.fail "fibonacci_count" (
          "fibonacci file has "
          ∷ print_nat actual
          ∷ " integers, expected "
          ∷ print_nat n
          ∷ " (file content appears to contain only ~"
          ∷ print_nat actual
          ∷ " numbers)."
          ∷ []))
    else none

chars_finding : MissionReport → ℕ → ℕ → Option AuditFinding
unfolding estimate_fib_csv_min_chars
chars_finding r n actual =
    let least = estimate_fib_csv_min_chars n + (n - 1) in
    if ltb actual least
    then some (
        finding r Level.warn "fibonacci_count" (
          "fibonacci file has "
          ∷ print_nat actual
          ∷ " chars, expected ≥ "
          ∷ print_nat least
          ∷ " for "
          ∷ print_nat n
          ∷ " numbers (file may contain fewer than "
          ∷ print_nat n
          ∷ " numbers)."
          ∷ []))
    else none

-- The characters that the last write result tells, of those that tell any.
last_told : List ToolResult → Option ℕ
unfolding told_chars
last_told [] = none
last_told (t ∷ ts) = elim (last_told ts) [
  | some later ↦ some later
  | none ↦ if t.tool == "write_file" then told_chars t.result else none
]

size_finding : MissionReport → List ToolRecord → ℕ → Option AuditFinding
unfolding select is_fib_write result_paths content_finding count_csv_integers get_str last_told
    chars_finding
size_finding r tool_history n =
    elim (last? (select (is_fib_write (result_paths r.tool_results)) tool_history)) [
      | some latest ↦ content_finding r n (count_csv_integers (get_str "" "content" latest.args))
      | none ↦ elim (last_told r.tool_results) [
        | none ↦ none
        | some actual ↦ chars_finding r n actual
      ]
    ]

unfoldable pub check_fibonacci_file_size : List ToolRecord → MissionReport → Option AuditFinding
unfolding contains_text lower search_re fibonacci_pattern size_finding parse_nat
check_fibonacci_file_size tool_history r =
    if not (contains_text (lower r.mission) "fibonacci")
    then none
    else elim (search_re fibonacci_pattern r.mission) [
      | none ↦ none
      | some digits ↦ size_finding r tool_history (parse_nat digits)
    ]

-- The first data_analysis result with a list of non_outliers, and how long that is.
analysed_count : List ToolResult → Option ℕ
unfolding list_length
analysed_count [] = none
analysed_count (t ∷ ts) =
    let rest = analysed_count ts in
    if t.tool == "data_analysis"
    then elim (list_length "non_outliers" t.result) [ none ↦ rest | some n ↦ some n ]
    else rest

mean_finding : MissionReport → ℕ → List ToolRecord → Option AuditFinding
unfolding first_list
mean_finding r da_count [] = none
mean_finding r da_count (h ∷ hs) =
    let rest = mean_finding r da_count hs in
    if not (h.tool == "math_stats")
    then rest
    else elim (first_list ("numbers" ∷ "values" ∷ "items" ∷ "data" ∷ []) h.args) [
      | none ↦ rest
      | some (key, n) ↦
          if ltb n da_count
          then some (
              finding r Level.warn "mean_reuse" (
                "math_stats mean computed on "
                ∷ print_nat n
                ∷ " items but data_analysis returned "
                ∷ print_nat da_count
                ∷ " non_outliers (mean was computed on a subset of the data)."
                ∷ []))
          else rest
    ]

unfoldable pub check_mean_reuse : List ToolRecord → MissionReport → Option AuditFinding
unfolding contains_text lower analysed_count mean_finding
check_mean_reuse tool_history r =
    if not (contains_text (lower r.mission) "mean")
    then none
    else elim (analysed_count r.tool_results) [
      | none ↦ none
      | some n ↦ mean_finding r n tool_history
    ]

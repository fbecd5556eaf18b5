-- ===== src/Parsing/Lines.antt =====
-- orchestration/langgraph/mission_parser.py: the lines of a text that are steps,
-- `_parse_numbered_tasks`, `_parse_bullet_lists` and `_parse_nested_subtasks`. A pattern with several
-- groups is matched once for each of them, with that group alone marked.
use Prim.Native.Char.{code}
use agentic_workflows.Base.{
  ℕ, suc, String, Bool, true, false, not, ◌&&◌, ◌||◌, Option, none, some, List, [], ◌∷◌, ◌++◌, map,
  leb, eqb, if◌then◌else◌, get_or, any, contains, ◌==◌,
}
use agentic_workflows.Base.Text.{strip, print_nat}
use agentic_workflows.Regex.{Re, chr, seq, alt, star, group, match_start}
use agentic_workflows.Regex.Patterns.{opt, plus, digit, space, any_char, lit}
use agentic_workflows.Base.Text.{line_pieces, rstrip}
use agentic_workflows.Missions.{MissionStep}

new_step : String → String → Option String → MissionStep
new_step id description parent_id = record {
  id = id;
  description = description;
  parent_id = parent_id;
  suggested_tools = [];
  dependencies = [];
  status = "pending";
}

-- A part of a pattern, as its group or not.
as_group : Bool → Re → Re
as_group b r = if b then group r else r

letter_of : String → Re
letter_of s = chr (λ n. is_in n s)
  where
    is_in : ℕ → String → Bool
    is_in n String.[] = false
    is_in n (String.◌∷◌ c rest) = eqb (code c) n || is_in n rest

-- r"^[Tt]ask\s*(\d+)\s*:\s*(.+)", with its first or its second group
task_pattern : Bool → Re
unfolding lit letter_of as_group
task_pattern first = seq (letter_of "Tt") (
    seq (lit "ask") (
      seq (star space) (
        seq (as_group first (plus digit)) (
          seq (star space)
            (seq (lit ":") (seq (star space) (as_group (not first) (plus any_char))))))))

-- r"^(\d+)\s*[\)\.:\-]\s+(.+)", with its first or its second group
numbering_pattern : Bool → Re
unfolding letter_of as_group
numbering_pattern first = seq (as_group first (plus digit)) (
    seq (star space)
      (seq (letter_of ").:-") (seq (plus space) (as_group (not first) (plus any_char)))))

-- r"^[-*+]\s+(.+)"
bullet_pattern : Re
unfolding letter_of
bullet_pattern = seq (letter_of "-*+") (seq (plus space) (group (plus any_char)))

-- The step of a line, by a pattern with two groups.
step_by : (Bool → Re) → String → Option MissionStep
unfolding match_start strip new_step
step_by pattern line = elim (match_start (pattern true) line) [
  | none ↦ none
  | some id ↦ elim (match_start (pattern false) line) [
    | none ↦ none
    | some description ↦ some (new_step id (strip description) none)
  ]
]

numbered_step : String → Option MissionStep
unfolding step_by task_pattern numbering_pattern
numbered_step line = elim (step_by task_pattern line) [
  | some s ↦ some s
  | none ↦ step_by numbering_pattern line
]

unfoldable pub parse_numbered_tasks : List String → List MissionStep
unfolding strip numbered_step
parse_numbered_tasks [] = []
parse_numbered_tasks (line ∷ lines) =
    let rest = parse_numbered_tasks lines in
    elim (numbered_step (strip line)) [ none ↦ rest | some s ↦ s ∷ rest ]

-- The steps of these bullets, behind `counter` of them.
bullets_from : ℕ → List String → List MissionStep
unfolding match_start bullet_pattern strip new_step
bullets_from counter [] = []
bullets_from counter (line ∷ lines) =
    let same = bullets_from counter lines in
    let more = bullets_from (suc counter) lines in
    elim (match_start bullet_pattern (strip line)) [
      | none ↦ same
      | some description ↦ new_step (print_nat (suc counter)) (strip description) none ∷ more
    ]

unfoldable pub parse_bullet_lists : List String → List MissionStep
unfolding bullets_from
parse_bullet_lists lines = bullets_from 0 lines

-- [a-z], in any case
any_letter : Re
any_letter = chr (λ n. (leb 97 n && leb n 122) || (leb 65 n && leb n 90))

-- Which part of the pattern of a sub-task is its group.
pub data Part : Type 0 where
  parent_part id_part description_part : Part

is_part : Part → Part → Bool
is_part parent_part parent_part = true
is_part id_part id_part = true
is_part description_part description_part = true
is_part p q = false

-- r"^\s+(?:(\d+)([a-z])\s*[\.\):\-]\s*|(\d+)\.(\d+)\s*[\.\):\-]?\s*)(.+)", in any case. The id of a
-- sub-task is what stands from the first to the second group of its branch.
subtask_pattern : Part → Re
unfolding as_group is_part any_letter letter_of lit
subtask_pattern p =
    let number = as_group (is_part p parent_part) (plus digit) in
    let marks = letter_of ".):-" in
    seq (plus space) (
      seq
        (alt
          (seq (as_group (is_part p id_part) (seq number any_letter))
            (seq (star space) (seq marks (star space))))
          (seq (as_group (is_part p id_part) (seq number (seq (lit ".") (plus digit))))
            (seq (star space) (seq (opt marks) (star space)))))
        (as_group (is_part p description_part) (plus any_char)))

-- The sub-task of a line: its parent's id, its own and its description.
subtask_line : String → Option (String × String × String)
unfolding match_start subtask_pattern strip
subtask_line line = elim (match_start (subtask_pattern parent_part) line) [
  | none ↦ none
  | some parent_id ↦ some (
    parent_id,
    get_or "" (match_start (subtask_pattern id_part) line),
    strip (get_or "" (match_start (subtask_pattern description_part) line)),
  )
]

-- The steps with the sub-tasks of these lines behind them: those whose parent was there at first, and
-- whose id no step has.
nested_from : List String → List String → List MissionStep → List MissionStep
unfolding subtask_line contains any new_step
nested_from parent_ids [] steps = steps
nested_from parent_ids (line ∷ lines) steps = elim (subtask_line line) [
  | none ↦ nested_from parent_ids lines steps
  | some (parent_id, sub_id, desc) ↦
      let same = nested_from parent_ids lines steps in
      let more =
        nested_from parent_ids lines (steps ++ new_step sub_id desc (some parent_id) ∷ []) in
      if not (contains parent_ids parent_id) || any (λ s. s.id == sub_id) steps then same else more
]

unfoldable pub parse_nested_subtasks : List String → List MissionStep → List MissionStep
unfolding nested_from
parse_nested_subtasks lines parent_steps =
    nested_from (map (λ s. s.id) parent_steps) lines parent_steps

-- [line.rstrip() for line in user_input.splitlines()]
unfoldable pub input_lines : String → List String
unfolding line_pieces rstrip
input_lines user_input = map rstrip (line_pieces user_input)

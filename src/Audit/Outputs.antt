-- ===== src/Audit/Outputs.antt =====
-- orchestration/langgraph/mission_auditor.py: the checks of what a mission had to write and to use:
-- `_check_write_file_success`, `_check_missing_required_outputs` and
-- `_check_mission_attribution_consistency`.
use agentic_workflows.Base.{
  ℕ, zero, suc, String, not, ◌&&◌, Option, none, some, List, [], ◌∷◌, ◌++◌, map, if◌then◌else◌,
  is_nil, sorted, difference, ◌==◌,
}
use agentic_workflows.Base.Text.{strip, basename, empty}
use agentic_workflows.Values.{Fields, get, has, to_str, get_str}
use agentic_workflows.Regex.{Re, seq, group, search_re}
use agentic_workflows.Regex.Patterns.{plus, digit, space, lit}
use agentic_workflows.Base.Text.{parse_nat}
use agentic_workflows.Missions.{MissionReport, ToolResult}
use agentic_workflows.Audit.{Level, AuditFinding, finding, to_list, names_text}

-- r"(\d+)\s+char"
abbrev chars_pattern : Re
chars_pattern = seq (group (plus digit)) (seq (plus space) (lit "char"))

-- The number of characters that a message tells, if it does.
unfoldable pub told_chars : Fields → Option ℕ
unfolding get_str has search_re parse_nat
told_chars result =
    let msg =
      if has "message" result then get_str "" "message" result else get_str "" "result" result in
    elim (search_re chars_pattern msg) [ none ↦ none | some digits ↦ some (parse_nat digits) ]

write_finding : MissionReport → Fields → Option AuditFinding
unfolding get to_str told_chars
write_finding r result = elim (get "error" result) [
  | some error ↦ some (
      finding r Level.fail "write_file_success" ("write_file returned error: " ∷ to_str error ∷ []))
  | none ↦ elim (told_chars result) [
    | some zero ↦
        some (finding r Level.warn "write_file_success" ("write_file wrote 0 characters." ∷ []))
    | some (suc n) ↦ none
    | none ↦ none
  ]
]

unfoldable pub write_findings : MissionReport → List ToolResult → List AuditFinding
unfolding write_finding
write_findings r [] = []
write_findings r (t ∷ ts) =
    let rest = write_findings r ts in
    if t.tool == "write_file" then to_list (write_finding r t.result) ++ rest else rest

unfoldable pub basenames_of : List String → List String
unfolding basename
basenames_of paths = map basename paths

-- The files that the write results name.
unfoldable pub result_files : List ToolResult → List String
unfolding strip get_str basename
result_files [] = []
result_files (t ∷ ts) =
    let rest = result_files ts in
    let path = strip (get_str "" "path" t.result) in
    if (t.tool == "write_file") && not (empty path) then basename path ∷ rest else rest

unfoldable pub written_files_of : MissionReport → List String
unfolding result_files basenames_of
written_files_of r = result_files r.tool_results ++ basenames_of r.written_files

unfoldable pub missing_files : MissionReport → List String
unfolding sorted difference basenames_of written_files_of
missing_files r = sorted (difference (basenames_of r.required_files) (written_files_of r))

unfoldable pub missing_tools : MissionReport → List String
unfolding sorted difference
missing_tools r = sorted (difference r.required_tools r.used_tools)

-- A failure for what is missing, if anything is.
unfoldable pub missing_finding : MissionReport → String → String → List String → List AuditFinding
unfolding names_text
missing_finding r check text names =
    if is_nil names then [] else finding r Level.fail check (text ∷ names_text names ∷ []) ∷ []

unfoldable pub check_missing_required_outputs : MissionReport → List AuditFinding
unfolding missing_finding missing_tools missing_files
check_missing_required_outputs r =
    missing_finding r "required_tools_missing" "Mission missing required tools: " (missing_tools r)
    ++ missing_finding r "missing_output_file" "Mission missing required output file(s): "
        (missing_files r)

unfoldable pub check_mission_attribution_consistency : MissionReport → List AuditFinding
unfolding missing_finding missing_tools
check_mission_attribution_consistency r =
    missing_finding r "mission_attribution_mismatch"
      "Mission report attribution missing contract tools: " (missing_tools r)

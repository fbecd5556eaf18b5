-- ===== src/Audit/Report/Laws.antt =====
-- What an audit without a failure says of a run, and what its tally counts.
use agentic_workflows.Base.{
  ◌+◌, ◌≤◌, ◌<◌, String, ◌≡◌, refl, ◌∙◌, Bool, true, ◌&&◌, Option, List, [], ◌∷◌, ◌++◌, map, arith,
  if◌then◌else◌, length, is_nil, is_nil-sorted, is_nil-difference, length-append, all, any,
  count_if, difference, subset, not, ◌||◌, ◌==◌, contains, contains-append,
}
use agentic_workflows.Base.Text.{basename, strip, empty}
use agentic_workflows.Values.{get_str}
use agentic_workflows.Missions.{MissionReport, ToolRecord, ToolResult}
use agentic_workflows.Routing.Directives.{Specialist}
use agentic_workflows.Audit.{Level, AuditFinding, is_pass, is_warn, is_fail}
use agentic_workflows.Audit.Outputs.{
  basenames_of, written_files_of, result_files, missing_files, missing_tools, missing_finding,
  check_missing_required_outputs,
}
use agentic_workflows.Audit.Report.{allowed_of, with_overall, checked, all_findings, audit_run}

count-append {ℓ} :
    {A : Type ℓ} (p : A → Bool) (xs ys : List A)
    → count_if p (xs ++ ys) ≡ count_if p xs + count_if p ys
unfolding count_if
count-append p [] ys = omega arith
count-append p (x ∷ xs) ys = ground (arith, count-append p xs ys)

count-inner {ℓ} :
    {A : Type ℓ} (p : A → Bool) (before xs after later : List A)
    → count_if p xs ≤ count_if p (before ++ xs ++ after ++ later)
count-inner p before xs after later = omega (
  arith,
  count-append p (before ++ xs ++ after) later,
  count-append p (before ++ xs) after,
  count-append p before xs,
)

-- Whether the result is one of a write to a file with the base name.
abbrev pub is_write_of : String → ToolResult → Bool
is_write_of name t =
    t.tool == "write_file"
    && not (empty (strip (get_str "" "path" t.result)))
    && name == basename (strip (get_str "" "path" t.result))

-- Whether a file with the base name of the required one was written, by the report's own account or by
-- a result of a write.
abbrev pub was_written : MissionReport → String → Bool
was_written r file =
    any (is_write_of (basename file)) r.tool_results
    || any (λ f. basename file == basename f) r.written_files

-- Whether a report has all that its mission had to use and to write.
abbrev pub has_outputs : MissionReport → Bool
has_outputs r = subset r.required_tools r.used_tools && all (was_written r) r.required_files

contains-result_files :
    (ts : List ToolResult) (name : String)
    → contains (result_files ts) name ≡ any (is_write_of name) ts
unfolding contains result_files any
contains-result_files [] name = refl
contains-result_files (t ∷ ts) name = ground (arith, contains-result_files ts name)

contains-basenames :
    (fs : List String) (name : String)
    → contains (map basename fs) name ≡ any (λ f. name == basename f) fs
unfolding contains any
contains-basenames [] name = refl
contains-basenames (f ∷ fs) name = ground (arith, contains-basenames fs name)

subset-was_written :
    (r : MissionReport) (files : List String)
    → subset (map basename files) (written_files_of r) ≡ all (was_written r) files
unfolding subset all written_files_of basenames_of
subset-was_written r [] = refl
subset-was_written r (f ∷ fs) = ground (
  arith,
  subset-was_written r fs,
  contains-append (result_files r.tool_results) (map basename r.written_files) (basename f),
  contains-result_files r.tool_results (basename f),
  contains-basenames r.written_files (basename f),
)

missing-fails :
    (r : MissionReport) (check text : String) (names : List String)
    → count_if is_fail (missing_finding r check text names) ≡ (if is_nil names then 0 else 1)
unfolding missing_finding count_if
missing-fails r check text [] = refl
missing-fails r check text (name ∷ names) = refl

missing_tools-nil :
    (r : MissionReport) → is_nil (missing_tools r) ≡ subset r.required_tools r.used_tools
unfolding missing_tools
missing_tools-nil r =
    is_nil-sorted (difference r.required_tools r.used_tools)
    ∙ is_nil-difference r.required_tools r.used_tools

missing_files-nil :
    (r : MissionReport)
    → is_nil (missing_files r) ≡ subset (map basename r.required_files) (written_files_of r)
unfolding missing_files basenames_of
missing_files-nil r =
    is_nil-sorted (difference (map basename r.required_files) (written_files_of r))
    ∙ is_nil-difference (map basename r.required_files) (written_files_of r)

outputs-fails :
    (r : MissionReport)
    → count_if is_fail (check_missing_required_outputs r) ≡ 0
    → has_outputs r ≡ true
unfolding check_missing_required_outputs
outputs-fails r h = ground (
  arith,
  h,
  count-append is_fail
      (missing_finding r "required_tools_missing" "Mission missing required tools: "
        (missing_tools r))
      (missing_finding r "missing_output_file" "Mission missing required output file(s): "
        (missing_files r)),
  missing-fails r "required_tools_missing" "Mission missing required tools: " (missing_tools r),
  missing-fails r "missing_output_file" "Mission missing required output file(s): "
      (missing_files r),
  missing_tools-nil r,
  missing_files-nil r ∙ subset-was_written r r.required_files,
)

overall-fails :
    (r : MissionReport) (findings : List AuditFinding)
    → count_if is_fail (with_overall r findings) ≡ count_if is_fail findings
unfolding with_overall count_if
overall-fails r findings = ground arith

module _ (pattern_fault : String → List ToolRecord → Option String) where
  checked-fails :
      (allowed_tools : Option (List String)) (tool_history : List ToolRecord) (r : MissionReport)
      → count_if is_fail (check_missing_required_outputs r)
        ≤ count_if is_fail (checked pattern_fault allowed_tools tool_history r)
  unfolding checked
  checked-fails allowed_tools tool_history r =
      count-inner is_fail _ (check_missing_required_outputs r) _ _

  findings-fails :
      (allowed_tools : Option (List String)) (tool_history : List ToolRecord)
      (reports : List MissionReport)
      → count_if is_fail (all_findings pattern_fault allowed_tools tool_history reports) ≡ 0
      → all has_outputs reports ≡ true
  unfolding all all_findings
  findings-fails allowed_tools tool_history [] h = refl
  findings-fails allowed_tools tool_history (r ∷ rs) h = ground (
    arith,
    h,
    count-append is_fail (with_overall r (checked pattern_fault allowed_tools tool_history r))
        (all_findings pattern_fault allowed_tools tool_history rs),
    overall-fails r (checked pattern_fault allowed_tools tool_history r),
    checked-fails allowed_tools tool_history r,
    outputs-fails r,
    findings-fails allowed_tools tool_history rs,
  )

  -- When the audit of a run counts no failure, each mission's report used all the tools that it
  -- requires, and for each file that it requires one of the same base name was written, in whatever
  -- directory, by its own account or by a result of its writes.
  pub audit_run-has_outputs :
      (run_id : String) (reports : List MissionReport) (tool_history : List ToolRecord)
      (scopes : List (Specialist × List String))
      → (audit_run pattern_fault run_id reports tool_history scopes).failed ≡ 0
      → all has_outputs reports ≡ true
  unfolding audit_run
  audit_run-has_outputs run_id reports tool_history scopes h =
      findings-fails (allowed_of scopes) tool_history reports h

  overall-nonempty :
      (r : MissionReport) (findings : List AuditFinding) → 0 < length (with_overall r findings)
  unfolding with_overall any
  overall-nonempty r [] = omega arith
  overall-nonempty r (f ∷ fs) = ground arith

  length-findings :
      (allowed_tools : Option (List String)) (tool_history : List ToolRecord)
      (reports : List MissionReport)
      → length reports ≤ length (all_findings pattern_fault allowed_tools tool_history reports)
  unfolding all_findings
  length-findings allowed_tools tool_history [] = omega arith
  length-findings allowed_tools tool_history (r ∷ rs) = omega (
    arith,
    length-append (with_overall r (checked pattern_fault allowed_tools tool_history r))
        (all_findings pattern_fault allowed_tools tool_history rs),
    overall-nonempty r (checked pattern_fault allowed_tools tool_history r),
    length-findings allowed_tools tool_history rs,
  )

  count-levels :
      (fs : List AuditFinding)
      → count_if is_pass fs + count_if is_warn fs + count_if is_fail fs ≡ length fs
  unfolding count_if
  count-levels [] = omega arith
  count-levels (f ∷ fs) = by_level f.level refl (count-levels fs)
    where
      by_level :
          (level : Level)
          → f.level ≡ level
          → count_if is_pass fs + count_if is_warn fs + count_if is_fail fs ≡ length fs
          → count_if is_pass (f ∷ fs) + count_if is_warn (f ∷ fs) + count_if is_fail (f ∷ fs)
            ≡ length (f ∷ fs)
      by_level Level.pass e h = ground (arith, e, h)
      by_level Level.warn e h = ground (arith, e, h)
      by_level Level.fail e h = ground (arith, e, h)

  -- The tally counts each finding once, and there is one at least for each mission.
  pub audit_run-tally :
      (run_id : String) (reports : List MissionReport) (tool_history : List ToolRecord)
      (scopes : List (Specialist × List String))
      → let report = audit_run pattern_fault run_id reports tool_history scopes in
        (report.passed + report.warned + report.failed ≡ length report.findings)
        × (length reports ≤ length report.findings)
  unfolding audit_run
  audit_run-tally run_id reports tool_history scopes = (
    count-levels (all_findings pattern_fault (allowed_of scopes) tool_history reports),
    length-findings (allowed_of scopes) tool_history reports,
  )

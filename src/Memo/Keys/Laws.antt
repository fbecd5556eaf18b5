-- ===== src/Memo/Keys/Laws.antt =====
-- What a memo hit does to the mission that waits for a write.
use agentic_workflows.Base.{
  ℕ, ◌+◌, String, ◌≡◌, refl, sym, ap, ◌∙◌, ◌≢◌, Bool, true, false, ◌&&◌, ◌||◌, contains,
  contains-append_one, eq_refl, eq_iff, none, some, List, [], ◌∷◌, ◌++◌, arith, if◌then◌else◌,
  get_elem?, set, get_elem?-set_self, get_elem?-set_ne, lt-length_of_get_elem?, last?,
}
use agentic_workflows.Base.Int.{pos, index?}
use agentic_workflows.Base.Text.{empty, basename}
use agentic_workflows.Values.{str, Fields, end, field, has}
use agentic_workflows.Missions.{MissionReport, RunState, ToolResult, is_completed}
use agentic_workflows.Missions.Status.{refresh_mission_status, refresh_report, has_latest_error}
use agentic_workflows.Missions.Status.Laws.{
  status-refresh_report, deserved_status, needs_met, subtasks_met,
}
use agentic_workflows.Missions.Events.{next_incomplete_mission_index, add_written}
use agentic_workflows.Missions.Events.Frame.{refresh-keeps, reports-refresh, set-set}
use agentic_workflows.Memo.Keys.{
  hit_path, synthetic_result, reuse_report, reuse_at, mark_next_mission_complete_from_memo_hit,
}

last-append : (xs : List ToolResult) (x : ToolResult) → last? (xs ++ x ∷ []) ≡ some x
last-append [] x = refl
last-append (y ∷ []) x = refl
last-append (y ∷ z ∷ xs) x = last-append (z ∷ xs) x

synthetic-has_no_error : (path : String) → has "error" (synthetic_result path) ≡ false
unfolding synthetic_result has
synthetic-has_no_error path = no_error (empty path)
  where
    no_error :
        (b : Bool)
        → has "error" (
            field "result" (str "memo_hit_reused") (
              field "source"
                (str "retrieve_memo")
                (if b then end else field "path" (str path) end)))
          ≡ false
    no_error true = refl
    no_error false = refl

-- The result that stands for the skipped write is no error.
reuse-has_no_error :
    (path : String) (hit : Fields) (r : MissionReport)
    → has_latest_error (reuse_report path hit r) ≡ false
unfolding has_latest_error reuse_report
reuse-has_no_error path hit r =
    rw
      (
        last-append r.tool_results (record { tool = "write_file"; result = synthetic_result path }),
        has_latest_error,
      )
      (synthetic-has_no_error path)

-- The state before the refresh.
marked : RunState → ℕ → MissionReport → RunState
marked s i used = record s {
  active_mission_index = pos i;
  active_mission_id = i + 1;
  mission_reports = set s.mission_reports i used;
}

module _ (s : RunState) (hit : Fields) (i : ℕ) (r : MissionReport)
    (next : next_incomplete_mission_index s ≡ pos i)
    (here : get_elem? s.mission_reports i ≡ some r) where
  abbrev used_report : MissionReport
  used_report = reuse_report (hit_path s hit) hit r

  mark-eq-reuse : mark_next_mission_complete_from_memo_hit s hit ≡ reuse_at s hit i
  unfolding mark_next_mission_complete_from_memo_hit
  mark-eq-reuse = ap (λ z. elim (index? z) [ none ↦ s | some k ↦ reuse_at s hit k ]) next

  reuse-eq-refresh : reuse_at s hit i ≡ refresh_mission_status (marked s i used_report) (pos i)
  unfolding reuse_at marked
  reuse-eq-refresh = rw (here, reuse_at) refl

  reports-mark :
      (mark_next_mission_complete_from_memo_hit s hit).mission_reports
      ≡ set s.mission_reports i (refresh_report used_report)
  unfolding marked
  reports-mark =
      ap (λ (t : RunState). t.mission_reports) (mark-eq-reuse ∙ reuse-eq-refresh)
      ∙ reports-refresh (marked s i used_report) i used_report (
          get_elem?-set_self s.mission_reports i used_report
            (lt-length_of_get_elem? s.mission_reports i r here))
      ∙ set-set s.mission_reports i used_report (refresh_report used_report)

completed_of_deserved :
    (r : MissionReport)
    → has_latest_error r ≡ false
    → is_completed (deserved_status r) ≡ (needs_met r && subtasks_met r)
unfolding is_completed
completed_of_deserved r h = ground arith

-- What a write of the path that succeeded adds to a report: the tool, a result, and the file's name.
abbrev pub IsWritten : String → MissionReport → MissionReport → Type 0
IsWritten path before after =
    (after.used_tools ≡ before.used_tools ++ "write_file" ∷ [])
    × ((t : ToolResult) × (after.tool_results ≡ before.tool_results ++ t ∷ [])
        × (t.tool ≡ "write_file")
        × (has "error" t.result ≡ false))
    × ((empty (basename path) || contains after.written_files (basename path)) ≡ true)

contains-add_written :
    (path : String) (written : List String)
    → (empty (basename path) || contains (add_written path written) (basename path)) ≡ true
unfolding add_written
contains-add_written path written =
    ground
      (arith, contains-append_one written (basename path) (basename path), eq_refl (basename path))

contains-reused :
    (path : String) (written : List String) (b : Bool)
    → empty path ≡ b
    → (empty (basename path)
        || contains (if b then written else add_written path written) (basename path))
      ≡ true
unfolding basename
contains-reused path written true e =
    let none_there : path ≡ "" = ground (arith, e, eq_iff path "") in rw none_there refl
contains-reused path written false e = contains-add_written path written

reuse-IsWritten :
    (path : String) (hit : Fields) (r : MissionReport)
    → IsWritten path r (refresh_report (reuse_report path hit r))
unfolding reuse_report
reuse-IsWritten path hit r =
    let used = reuse_report path hit r in
    let kept = refresh-keeps used in
    (
      kept.0,
      (
        record { tool = "write_file"; result = synthetic_result path },
        kept.1,
        refl,
        synthetic-has_no_error path,
      ),
      rw (kept.3) (contains-reused path r.written_files (empty path) refl),
    )

-- A memo hit goes to the next open mission and to no other. It counts as its write: the report takes
-- write_file as its last tool used, a result of it without an error, and the name of the file, where
-- there is one; and the mission is then completed exactly if its needs and all its sub-tasks are met: an earlier error no longer fails
-- it.
pub mark_next_mission_lem :
    (s : RunState) (hit : Fields) (i j : ℕ) (r : MissionReport)
    → next_incomplete_mission_index s ≡ pos i
    → get_elem? s.mission_reports i ≡ some r
    → j ≢ i
    → let s' = mark_next_mission_complete_from_memo_hit s hit in
      let used = reuse_report (hit_path s hit) hit r in
      (get_elem? s'.mission_reports i ≡ some (refresh_report used))
      × (get_elem? s'.mission_reports j ≡ get_elem? s.mission_reports j)
      × (is_completed (refresh_report used).status ≡ (needs_met used && subtasks_met used))
      × IsWritten (hit_path s hit) r (refresh_report used)
mark_next_mission_lem s hit i j r next here ne =
    let used = reuse_report (hit_path s hit) hit r in
    let eq = reports-mark s hit i r next here in
    (
      rw eq (
          get_elem?-set_self s.mission_reports i (refresh_report used)
            (lt-length_of_get_elem? s.mission_reports i r here)),
      rw eq (get_elem?-set_ne s.mission_reports i j (refresh_report used) (λ e. ne (sym e))),
      ap is_completed (status-refresh_report used)
          ∙ completed_of_deserved used (reuse-has_no_error (hit_path s hit) hit r),
      reuse-IsWritten (hit_path s hit) hit r,
    )

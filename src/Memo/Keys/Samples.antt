-- ===== src/Memo/Keys/Samples.antt =====
-- A write that a memo hit spares.
use agentic_workflows.Base.{◌≡◌, refl, ◌&&◌, some, [], ◌∷◌, arith, get_elem?}
use agentic_workflows.Base.Text.{strip, basename, startswith, after_first}
use agentic_workflows.Values.{str, Fields, end, field, get_str}
use agentic_workflows.Missions.{is_completed}
use agentic_workflows.Missions.Samples.{two_missions, sort_report}
use agentic_workflows.Missions.Status.{refresh_report}
use agentic_workflows.Missions.Status.Laws.{needs_met, subtasks_met}
use agentic_workflows.Missions.Events.{next_incomplete_mission_index}
use agentic_workflows.Memo.Keys.{
  write_cache_candidates, hit_path, reuse_report, mark_next_mission_complete_from_memo_hit,
}
use agentic_workflows.Memo.Keys.Laws.{IsWritten, mark_next_mission_lem}

candidates_test :
    write_cache_candidates "out/a.txt"
    ≡ "write_file_input:out/a.txt" ∷ "write_file_input:a.txt" ∷ []
unfolding write_cache_candidates strip basename
candidates_test = refl

abbrev hit : Fields
hit = field "key" (str "write_file:out/report.txt") end

path_test : hit_path two_missions hit ≡ "out/report.txt"
unfolding hit_path startswith strip get_str after_first
path_test = refl

mark_next_mission_lem_example :
    let s' = mark_next_mission_complete_from_memo_hit two_missions hit in
    let used = reuse_report (hit_path two_missions hit) hit sort_report in
    (get_elem? s'.mission_reports 0 ≡ some (refresh_report used))
    × (get_elem? s'.mission_reports 1 ≡ get_elem? two_missions.mission_reports 1)
    × (is_completed (refresh_report used).status ≡ (needs_met used && subtasks_met used))
    × IsWritten (hit_path two_missions hit) sort_report (refresh_report used)
unfolding next_incomplete_mission_index
mark_next_mission_lem_example =
    mark_next_mission_lem two_missions hit 0 1 sort_report refl refl (omega arith)

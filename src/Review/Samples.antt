-- ===== src/Review/Samples.antt =====
-- Reviews of two missions, and the theorems at them.
use agentic_workflows.Base.{
  ◌≡◌, refl, not, ◌&&◌, ◌||◌, none, some, List, [], ◌∷◌, ltb, if◌then◌else◌, is_nil, any, ◌==◌,
}
use agentic_workflows.Base.Int.{pos}
use agentic_workflows.Base.Text.{basename, join, print_nat}
use agentic_workflows.Missions.{MissionReport, completed}
use agentic_workflows.Missions.Samples.{sort_report, write_report}
use agentic_workflows.Review.{Finding, has_id, decide_fail_only, weighted_rerun_ids}
use agentic_workflows.Review.Laws.{names_mission, gap_of, fail_only_lem, weighted_lem}

abbrev findings : List Finding
findings =
    record { level = "fail"; mission_id = some (pos 7) }
    ∷ record { level = "warn"; mission_id = some (pos 4) }
    ∷ record { level = "fail"; mission_id = some (pos 2) }
    ∷ record { level = "fail"; mission_id = none }
    ∷ []

abbrev warning : List Finding
warning = record { level = "warn"; mission_id = some (pos 4) } ∷ []

abbrev reports : List MissionReport
reports =
    record sort_report { status = completed } ∷ record write_report { status = completed } ∷ []

fail_test :
    (decide_fail_only (some findings) []).reasons
    ≡ "fail findings detected for mission ids [2, 7]" ∷ []
unfolding decide_fail_only join print_nat
fail_test = refl

-- The second mission's required file did not change.
weighted_test : weighted_rerun_ids (some warning) reports [] ≡ 2 ∷ 4 ∷ []
unfolding weighted_rerun_ids basename
weighted_test = refl

fail_only_lem_example :
    let d = decide_fail_only (some findings) [] in
    (has_id d.rerun_mission_ids 7 ≡ (ltb 0 7 && any (names_mission "fail" 7) findings))
    × ((d.action == "rerun") ≡ not (is_nil d.rerun_mission_ids))
fail_only_lem_example = fail_only_lem (some findings) [] 7

weighted_lem_example :
    let ids = weighted_rerun_ids (some warning) reports [] in
    let fails = (decide_fail_only (some warning) []).rerun_mission_ids in
    if is_nil fails
    then has_id ids 2
      ≡ (ltb 0 2 && (any (names_mission "warn" 2) warning || any (gap_of [] 2) reports))
    else ids ≡ fails
weighted_lem_example = weighted_lem (some warning) reports [] 2

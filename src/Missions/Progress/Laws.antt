-- ===== src/Missions/Progress/Laws.antt =====
-- What the finish guard and the progress text say of the reports.
use agentic_workflows.Base.{
  ℕ, zero, suc, ◌≡◌, true, false, not, ◌&&◌, none, some, List, [], ◌∷◌, arith, if◌then◌else◌,
  get_elem?, is_nil, all,
}
use agentic_workflows.Base.Int.{ℤ, pos, negsuc, index?}
use agentic_workflows.Missions.{MissionReport, RunState, is_completed, done}
use agentic_workflows.Missions.Events.{next_incomplete_mission_index}
use agentic_workflows.Missions.Events.Frame.{IsFirstOpen, next_incomplete-IsFirstOpen}
use agentic_workflows.Missions.Progress.{all_missions_completed, asks_nothing}

not_all_of_open :
    (rs : List MissionReport) (i : ℕ) (r : MissionReport)
    → get_elem? rs i ≡ some r
    → is_completed r.status ≡ false
    → all done rs ≡ false
unfolding all
not_all_of_open [] i r h k = cc
not_all_of_open (q ∷ rs) zero r h k = ground arith
not_all_of_open (q ∷ rs) (suc i) r h k = ground (arith, not_all_of_open rs i r)

none_open :
    (rs : List MissionReport) (z : ℤ)
    → IsFirstOpen rs z
    → all done rs ≡ elim (index? z) [ none ↦ true | some i ↦ false ]
none_open rs (pos i) (r, e, f, before) = not_all_of_open rs i r e f
none_open rs (negsuc n) h = h

-- With reports, all missions are completed exactly if no report is next; without any, exactly if
-- there are contracts and none of them asks for a tool or a file.
pub all_missions_completed_lem :
    (s : RunState)
    → all_missions_completed s ≡ (
        if is_nil s.mission_reports
        then not (is_nil s.mission_contracts) && all asks_nothing s.mission_contracts
        else elim (index? (next_incomplete_mission_index s)) [ none ↦ true | some i ↦ false ])
unfolding all_missions_completed
all_missions_completed_lem s = ground (
  arith,
  none_open s.mission_reports (next_incomplete_mission_index s) (next_incomplete-IsFirstOpen s),
)

-- ===== src/Missions/Attribution.antt =====
-- `mission_preview_from_state` and `resolve_mission_id_for_action` of
-- orchestration/langgraph/mission_tracker.py.
pub mod Laws
use agentic_workflows.Base.{
  ℕ, String, Bool, not, ◌&&◌, Option, none, some, List, [], ◌∷◌, eqb, if◌then◌else◌, get_or,
  get_elem?, is_nil, find, contains, difference, ◌==◌,
}
use agentic_workflows.Base.Int.{index?}
use agentic_workflows.Base.Text.{strip, lower, basename, empty, startswith, after_first}
use agentic_workflows.Values.{int, str, nil, Fields, get, put, get_str, get_dict}
use agentic_workflows.Missions.{MissionReport, RunState, is_completed, basenames}
use agentic_workflows.Missions.Status.{needs_of, needs_none, non_helpers}
use agentic_workflows.Missions.Events.{next_incomplete_mission_index}

-- What a mission has used and written, as one planner turn sees it.
pub record Usage : Type 0 where
  pub used_tools : List String
  pub written_files : List String

abbrev pub Preview : Type 0
Preview = List (ℕ × Usage)

put_usage : ℕ → Usage → Preview → Preview
put_usage id u [] = (id, u) ∷ []
put_usage id u ((j, v) ∷ ps) = if eqb j id then (id, u) ∷ ps else (j, v) ∷ put_usage id u ps

lookup_usage : ℕ → Preview → Option Usage
lookup_usage id [] = none
lookup_usage id ((j, v) ∷ ps) = let rest = lookup_usage id ps in if eqb j id then some v else rest

usage_of_report : MissionReport → Usage
unfolding basenames
usage_of_report r = record { used_tools = r.used_tools; written_files = basenames r.written_files }

preview_from : Preview → List MissionReport → Preview
unfolding usage_of_report put_usage
preview_from p [] = p
preview_from p (r ∷ rs) =
    preview_from (if eqb r.mission_id 0 then p else put_usage r.mission_id (usage_of_report r) p) rs

unfoldable pub mission_preview_from_state : RunState → Preview
unfolding preview_from
mission_preview_from_state state = preview_from [] state.mission_reports

-- The preview's view of a report where it has one, else the report's own.
usage : Option Preview → MissionReport → Usage
unfolding lookup_usage usage_of_report
usage none r = usage_of_report r
usage (some p) r = get_or (usage_of_report r) (lookup_usage r.mission_id p)

-- The path that an action writes or memoizes, if any.
unfoldable pub path_hint : String → Fields → String
path_hint tool args =
    if tool == "write_file"
    then strip (get_str "" "path" args)
    else if tool == "memoize"
    then (let key = strip (get_str "" "key" args) in
        if startswith key "write_file:" then strip (after_first ":" key) else "")
    else ""

pub requires_file : String → MissionReport → Bool
requires_file path r =
    let name = basename path in not (empty name) && contains (needs_of r).files name

first_use : Option Preview → String → MissionReport → Bool
unfolding usage
first_use p tool r =
    not (is_completed r.status)
    && contains (needs_of r).tools tool
    && not (contains (usage p r).used_tools tool)

still_expects : String → MissionReport → Bool
still_expects tool r = not (is_completed r.status) && contains (needs_of r).tools tool

-- Whether a mission still wants something, by the preview.
wants_more : Option Preview → MissionReport → Bool
unfolding usage
wants_more p r =
    let needs = needs_of r in
    let u = usage p r in
    not (is_completed r.status)
    && (if needs_none needs
        then is_nil (non_helpers u.used_tools)
        else not (
            is_nil (difference needs.tools u.used_tools)
            && is_nil (difference needs.files u.written_files)))

abbrev id_of : MissionReport → ℕ
id_of r = r.mission_id

next_incomplete_id : RunState → ℕ
next_incomplete_id state = elim (index? (next_incomplete_mission_index state)) [
  | none ↦ 0
  | some i ↦ elim (get_elem? state.mission_reports i) [ none ↦ 0 | some r ↦ r.mission_id ]
]

abbrev or_else : Option ℕ → ℕ → ℕ
or_else none d = d
or_else (some n) d = n

-- The id of the first report that passes the test.
first_id : (MissionReport → Bool) → List MissionReport → Option ℕ
first_id p rs = elim (find p rs) [ none ↦ none | some r ↦ some r.mission_id ]

-- The report that requires the file that the action names.
by_path : String → List MissionReport → Option ℕ
unfolding first_id requires_file
by_path hint reports = if empty hint then none else first_id (requires_file hint) reports

attribute : RunState → String → String → Option Preview → ℕ
unfolding by_path first_use still_expects wants_more next_incomplete_id
attribute state tool hint preview =
    let reports = state.mission_reports in
    or_else (by_path hint reports) (
      or_else (first_id (first_use preview tool) reports) (
        or_else (first_id (still_expects tool) reports)
          (or_else (first_id (wants_more preview) reports) (next_incomplete_id state))))

unfoldable pub resolve_mission_id_for_action : RunState → Fields → Option Preview → ℕ
unfolding attribute path_hint
resolve_mission_id_for_action state action preview =
    if not (lower (strip (get_str "" "action" action)) == "tool")
    then 0
    else if is_nil state.mission_reports
    then 0
    else (let tool = strip (get_str "" "tool_name" action) in
        attribute state tool (path_hint tool (get_dict "args" action)) preview)

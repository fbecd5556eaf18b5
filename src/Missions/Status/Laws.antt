-- ===== src/Missions/Status/Laws.antt =====
-- When a report is completed, failed, or still open.
use agentic_workflows.Base.{
  contains-append_one, IsDistinct, append-IsDistinct, map-basename_of_all, all-sorted,
  subset-sorted, all-is_base, is_base, is_nil-sorted, is_nil-difference, String, ◌≡◌, refl, sym, ap,
  ◌∙◌, ◌≢◌, inl, inr, Bool, true, false, not, ◌&&◌, ◌||◌, List, [], ◌∷◌, map, arith, if◌then◌else◌,
  is_nil, all, contains, sorted, difference, subset, ◌==◌, eq_iff, eq_refl, Bool-cases,
}
use agentic_workflows.Base.Text.{strip, basename, empty}
use agentic_workflows.Missions.{
  SubtaskContract, MissionStatus, pending, in_progress, completed, failed, MissionReport,
  is_completed, basenames,
}
use agentic_workflows.Missions.Requirements.{infer_requirements_from_text}
use agentic_workflows.Missions.Status.{
  Needs, needs_of, needs_none, non_helpers, missing_tools_of, missing_files_of, fill_requirements,
  contracts_or_whole, subtask_status, satisfied_of, has_latest_error, next_status, refresh_report,
  update_completed, remove_first,
}

-- What completion asks for, read off the report alone: the needs are met, or where there are none
-- some tool that is no helper was used; and each sub-task's tools and files are there.
abbrev pub needs_met : MissionReport → Bool
needs_met r =
    let needs = needs_of r in
    (if needs_none needs
      then not (is_nil (non_helpers r.used_tools))
      else subset needs.tools r.used_tools)
    && subset needs.files (basenames r.written_files)

abbrev pub subtask_met : MissionReport → SubtaskContract → Bool
subtask_met r c =
    subset c.required_tools r.used_tools
    && subset (basenames c.required_files) (basenames r.written_files)

abbrev pub subtasks_met : MissionReport → Bool
subtasks_met r = all (subtask_met r) r.subtask_contracts

is_nil-missing_tools :
    (n : Needs) (used : List String)
    → is_nil (missing_tools_of n used)
      ≡ (if needs_none n then not (is_nil (non_helpers used)) else subset n.tools used)
unfolding missing_tools_of
is_nil-missing_tools n used =
    ground (arith, is_nil-sorted (difference n.tools used), is_nil-difference n.tools used)

is_nil-missing_files :
    (n : Needs) (written : List String)
    → is_nil (missing_files_of n written) ≡ subset n.files written
unfolding missing_files_of
is_nil-missing_files n written =
    is_nil-sorted (difference n.files written) ∙ is_nil-difference n.files written

satisfied-subtask_status :
    (r : MissionReport) (c : SubtaskContract)
    → (subtask_status r.used_tools (basenames r.written_files) c).satisfied ≡ subtask_met r c
unfolding subtask_status
satisfied-subtask_status r c = simp (is_nil-sorted, is_nil-difference)

all-satisfied :
    (r : MissionReport) (cs : List SubtaskContract)
    → all satisfied_of (map (subtask_status r.used_tools (basenames r.written_files)) cs)
      ≡ all (subtask_met r) cs
unfolding all
all-satisfied r [] = refl
all-satisfied r (c ∷ cs) = ground (arith, satisfied-subtask_status r c, all-satisfied r cs)

is_nil-map : {A B : Type 0} (f : A → B) (xs : List A) → is_nil (map f xs) ≡ is_nil xs
is_nil-map f [] = refl
is_nil-map f (x ∷ xs) = refl

basenames-basenames : (ps : List String) → basenames (basenames ps) ≡ basenames ps
unfolding basenames
basenames-basenames ps = map-basename_of_all (map basename ps) (all-is_base ps)

basenames-sorted : (ps : List String) → basenames (sorted (basenames ps)) ≡ sorted (basenames ps)
unfolding basenames
basenames-sorted ps =
    map-basename_of_all (sorted (map basename ps))
      (all-sorted is_base (map basename ps) ∙ all-is_base ps)

-- The files that a report needs are base names already.
basenames-files : (r : MissionReport) → basenames (needs_of r).files ≡ (needs_of r).files
unfolding needs_of
basenames-files r = elim (Bool-cases (is_nil r.required_tools && is_nil r.required_files)) [
  | inl e ↦ rw e (basenames-basenames (infer_requirements_from_text r.mission).files)
  | inr e ↦ rw e (basenames-basenames r.required_files)
]

subtask_contracts-fill :
    (r : MissionReport) → (fill_requirements r).subtask_contracts ≡ r.subtask_contracts
unfolding fill_requirements
subtask_contracts-fill r = ground arith

basenames-sorted-files :
    (r : MissionReport) → basenames (sorted (needs_of r).files) ≡ sorted (needs_of r).files
basenames-sorted-files r =
    ap (λ fs. basenames (sorted fs)) (sym (basenames-files r))
    ∙ basenames-sorted (needs_of r).files
    ∙ ap sorted (basenames-files r)

-- What the whole mission's own sub-task adds.
abbrev whole_met : MissionReport → Bool
whole_met r =
    subset (needs_of r).tools r.used_tools && subset (needs_of r).files (basenames r.written_files)

all-contracts :
    (r : MissionReport)
    → all (subtask_met r) (contracts_or_whole (fill_requirements r) (needs_of r)) ≡ (
        if is_nil r.subtask_contracts && not (needs_none (needs_of r))
        then whole_met r
        else subtasks_met r)
unfolding contracts_or_whole all
all-contracts r = ground (
  arith,
  subtask_contracts-fill r,
  basenames-sorted-files r,
  subset-sorted (needs_of r).tools r.used_tools,
  subset-sorted (needs_of r).files (basenames r.written_files),
)

is_nil-contracts :
    (r : MissionReport)
    → is_nil (contracts_or_whole (fill_requirements r) (needs_of r))
      ≡ (is_nil r.subtask_contracts && needs_none (needs_of r))
unfolding contracts_or_whole
is_nil-contracts r = ground (arith, subtask_contracts-fill r)

-- The status that a report deserves: an error in the last result fails it, whatever else is there.
abbrev pub deserved_status : MissionReport → MissionStatus
deserved_status r =
    if has_latest_error r
    then failed
    else if needs_met r && subtasks_met r
    then completed
    else if is_nil r.used_tools
    then pending
    else in_progress

-- The ladder of tests, by what each of them says.
decide_status :
    (helped tools files none_needed no_contracts subtasks error unused : Bool)
    → (no_contracts ≡ true → subtasks ≡ true)
    → next_status
        (not ((if none_needed then helped else tools) && files)
          || not (
              if no_contracts && none_needed
              then not (not ((if none_needed then helped else tools) && files))
              else if no_contracts && not none_needed
              then tools && files
              else subtasks))
        error
        (not unused)
      ≡ (if error
          then failed
          else if ((if none_needed then helped else tools) && files) && subtasks
          then completed
          else if unused
          then pending
          else in_progress)
decide_status helped tools files none_needed no_contracts subtasks error unused h = ground arith

subtasks_met_of_nil :
    (r : MissionReport) → is_nil r.subtask_contracts ≡ true → subtasks_met r ≡ true
unfolding all
subtasks_met_of_nil r h = ground arith

-- On every branch `refresh_mission_status` gives a report the status that it deserves: `failed`
-- exactly if the last tool result has an error, else `completed` exactly if the needs and all
-- sub-tasks are met, else `in_progress` or `pending` by whether a tool was used.
pub status-refresh_report : (r : MissionReport) → (refresh_report r).status ≡ deserved_status r
unfolding refresh_report
status-refresh_report r =
    simp
      (
        is_nil-map, all-satisfied, all-contracts, is_nil-contracts, is_nil-missing_tools,
        is_nil-missing_files,
      )
      (decide_status (not (is_nil (non_helpers r.used_tools)))
        (subset (needs_of r).tools r.used_tools)
        (subset (needs_of r).files (basenames r.written_files)) (needs_none (needs_of r))
        (is_nil r.subtask_contracts) (subtasks_met r) (has_latest_error r) (is_nil r.used_tools)
        (subtasks_met_of_nil r))

-- What a refresh leaves alone.
pub frame-refresh_report :
    (r : MissionReport)
    → ((refresh_report r).mission ≡ r.mission)
      × ((refresh_report r).mission_id ≡ r.mission_id)
      × ((refresh_report r).used_tools ≡ r.used_tools)
      × ((refresh_report r).written_files ≡ r.written_files)
unfolding refresh_report fill_requirements
frame-refresh_report r = ground arith

contains-remove_first :
    (x z : String) (ys : List String)
    → IsDistinct ys
    → contains (remove_first x ys) z ≡ (not (z == x) && contains ys z)
unfolding remove_first contains
contains-remove_first x z [] d = ground arith
contains-remove_first x z (y ∷ ys) d =
    ground (arith, contains-remove_first x z ys, eq_iff y x, eq_iff z x, eq_iff z y)

remove_first-IsDistinct :
    (x : String) (ys : List String) → IsDistinct ys → IsDistinct (remove_first x ys)
unfolding remove_first
remove_first-IsDistinct x [] d = d
remove_first-IsDistinct x (y ∷ ys) d = elim (Bool-cases (y == x)) [
  | inl e ↦ rw e d.1
  | inr e ↦ rw e (ground (arith, contains-remove_first x y ys), remove_first-IsDistinct x ys d.1)
]

-- While the completed tasks hold no text twice, an update keeps that so, lists the mission's text
-- (if it has one) exactly if the report is completed, and changes nothing about other texts.
pub update_completed_lem :
    (r : MissionReport) (tasks : List String) (other : String)
    → IsDistinct tasks
    → empty (strip r.mission) ≡ false
    → other ≢ strip r.mission
    → IsDistinct (update_completed r tasks)
      × (contains (update_completed r tasks) (strip r.mission) ≡ is_completed r.status)
      × (contains (update_completed r tasks) other ≡ contains tasks other)
unfolding update_completed is_completed
update_completed_lem r tasks other d h ne =
    let text = strip r.mission in
    elim (Bool-cases (is_completed r.status)) [
      | inl yes_done ↦ elim (Bool-cases (contains tasks text)) [
        | inl old ↦ rw (yes_done, h, old) (d, old, refl)
        | inr new ↦
            rw (yes_done, h, new)
              (
                append-IsDistinct tasks text d new,
                rw contains-append_one (ground (arith, eq_refl text)),
                rw contains-append_one (ground (arith, eq_iff other text)),
              )
      ]
      | inr open_still ↦ elim (Bool-cases (contains tasks text)) [
        | inl old ↦
            rw (open_still, old)
              (
                remove_first-IsDistinct text tasks d,
                ground (arith, contains-remove_first text text tasks d, eq_refl text),
                ground (arith, contains-remove_first text other tasks d, eq_iff other text),
              )
        | inr new ↦ rw (open_still, new) (d, new, refl)
      ]
    ]

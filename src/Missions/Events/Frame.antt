-- ===== src/Missions/Events/Frame.antt =====
-- Which mission an event is for, what it changes, and what it leaves alone.
use native.Mathlib.Nat.{zero-add}
use agentic_workflows.Base.{
  ℕ, zero, suc, ◌+◌, ◌++◌, max, ◌<◌, String, ◌≡◌, refl, sym, ap, ◌∙◌, ◌≢◌, inl, inr, true, false,
  Option, none, some, List, [], ◌∷◌, arith, if◌then◌else◌, length, get_elem?, set, take, length-set,
  get_elem?-set_self, get_elem?-set_ne, get_elem?_of_lt, all, Bool-cases,
}
use agentic_workflows.Base.Int.{ℤ, pos, negsuc}
use agentic_workflows.Values.{Fields, obj, to_str}
use agentic_workflows.Missions.{MissionReport, RunState, is_completed, done}
use agentic_workflows.Missions.Contracts.{initialize_mission_reports}
use agentic_workflows.Missions.Status.{fill_requirements, refresh_mission_status, refresh_report}
use agentic_workflows.Missions.Events.{
  next_incomplete_mission_index, first_incomplete, ensure_reports, event_index, clamp_index,
  target_index, add_event, record_mission_tool_event,
}

-- The place of the first report that is not completed.
open_offset : List MissionReport → Option ℕ
open_offset [] = none
open_offset (r ∷ rs) =
    let later = open_offset rs in
    if is_completed r.status then elim later [ none ↦ none | some k ↦ some (suc k) ] else some 0

first_incomplete-eq :
    (base : ℕ) (rs : List MissionReport)
    → first_incomplete base rs ≡ elim (open_offset rs) [ none ↦ negsuc 0 | some k ↦ pos (base + k) ]
unfolding first_incomplete open_offset
first_incomplete-eq base [] = refl
first_incomplete-eq base (r ∷ rs) = ground (arith, first_incomplete-eq (suc base) rs)

-- All before it are completed and it is not; or all are.
abbrev pub IsFirstOpen : List MissionReport → ℤ → Type 0
IsFirstOpen rs (pos i) =
    (r : MissionReport) × (get_elem? rs i ≡ some r)
    × (is_completed r.status ≡ false)
    × (all done (take i rs) ≡ true)
IsFirstOpen rs (negsuc n) = all done rs ≡ true

later_offset :
    (r : MissionReport) (rs : List MissionReport) (o : Option ℕ)
    → is_completed r.status ≡ true
    → IsFirstOpen rs (elim o [ none ↦ negsuc 0 | some k ↦ pos k ])
    → IsFirstOpen
        (r ∷ rs)
        (elim (elim o as (λ x. Option ℕ) [ none ↦ none | some k ↦ some (suc k) ]) [
          | none ↦ negsuc 0
          | some k ↦ pos k
        ])
unfolding all
later_offset r rs none h f = ground arith
later_offset r rs (some k) h (q, e, g, before) = (q, e, g, ground arith)

open_offset-IsFirstOpen :
    (rs : List MissionReport)
    → IsFirstOpen rs (elim (open_offset rs) [ none ↦ negsuc 0 | some k ↦ pos k ])
unfolding open_offset all
open_offset-IsFirstOpen [] = refl
open_offset-IsFirstOpen (r ∷ rs) = elim (Bool-cases (is_completed r.status)) [
  | inr fresh ↦ rw fresh (r, refl, fresh, refl)
  | inl old ↦ rw old (later_offset r rs (open_offset rs) old (open_offset-IsFirstOpen rs))
]

length-ensure : (s : RunState) → 0 < length (ensure_reports s).mission_reports
unfolding ensure_reports initialize_mission_reports
length-ensure s = ground arith

pub reports-refresh :
    (s : RunState) (i : ℕ) (r : MissionReport)
    → get_elem? s.mission_reports i ≡ some r
    → (refresh_mission_status s (pos i)).mission_reports
      ≡ set s.mission_reports i (refresh_report r)
unfolding refresh_mission_status
reports-refresh s i r h = ground arith

active-refresh :
    (s : RunState) (i : ℕ) (r : MissionReport)
    → get_elem? s.mission_reports i ≡ some r
    → ((refresh_mission_status s (pos i)).active_mission_index ≡ s.active_mission_index)
      × ((refresh_mission_status s (pos i)).active_mission_id ≡ s.active_mission_id)
unfolding refresh_mission_status
active-refresh s i r h = ground arith

clamp_index-lt : (z : ℤ) (n : ℕ) → 0 < n → clamp_index z n < n
unfolding clamp_index
clamp_index-lt z n h = omega arith

-- `next_incomplete_mission_index` is the index of the first report that is not completed, and -1 if
-- all are.
pub next_incomplete-IsFirstOpen :
    (s : RunState) → IsFirstOpen s.mission_reports (next_incomplete_mission_index s)
unfolding next_incomplete_mission_index
next_incomplete-IsFirstOpen s =
    rw (first_incomplete-eq 0 s.mission_reports)
      (at_zero (open_offset s.mission_reports) (open_offset-IsFirstOpen s.mission_reports))
  where
    at_zero :
        (o : Option ℕ)
        → IsFirstOpen s.mission_reports (elim o [ none ↦ negsuc 0 | some k ↦ pos k ])
        → IsFirstOpen s.mission_reports (elim o [ none ↦ negsuc 0 | some k ↦ pos (0 + k) ])
    at_zero none f = f
    at_zero (some k) f = rw zero-add f

event_index-lt :
    (s : RunState) (tool : String) (z : Option ℤ)
    → event_index s tool z < length (ensure_reports s).mission_reports
unfolding event_index
event_index-lt s tool z =
    clamp_index-lt (target_index (ensure_reports s) tool z)
      (length (ensure_reports s).mission_reports) (length-ensure s)

pub set-set : {A : Type 0} (xs : List A) (i : ℕ) (v w : A) → set (set xs i v) i w ≡ set xs i w
set-set [] i v w = refl
set-set (x ∷ xs) zero v w = refl
set-set (x ∷ xs) (suc i) v w = ap (◌∷◌ x) (set-set xs i v w)

-- The state before the refresh, where the event is for report `r`.
recorded : RunState → String → Fields → Option ℤ → Option Fields → MissionReport → RunState
recorded s tool result z args r =
    let i = event_index s tool z in
    record (ensure_reports s) {
      active_mission_index = pos i;
      active_mission_id = i + 1;
      mission_reports = set (ensure_reports s).mission_reports i (add_event tool result args r);
    }

module _ (s : RunState) (tool : String) (result : Fields) (z : Option ℤ) (args : Option Fields)
    (r : MissionReport)
    (here : get_elem? (ensure_reports s).mission_reports (event_index s tool z) ≡ some r) where
  record-eq-refresh :
      record_mission_tool_event s tool result z args
      ≡ refresh_mission_status (recorded s tool result z args r) (pos (event_index s tool z))
  unfolding record_mission_tool_event recorded
  record-eq-refresh = rw (here, record_mission_tool_event)

  get-recorded :
      get_elem? (recorded s tool result z args r).mission_reports (event_index s tool z)
      ≡ some (add_event tool result args r)
  unfolding recorded
  get-recorded =
      get_elem?-set_self (ensure_reports s).mission_reports (event_index s tool z)
        (add_event tool result args r) (event_index-lt s tool z)

  reports-event :
      (record_mission_tool_event s tool result z args).mission_reports
      ≡ set
          (ensure_reports s).mission_reports
          (event_index s tool z)
          (refresh_report (add_event tool result args r))
  unfolding recorded
  reports-event =
      ap (λ (t : RunState). t.mission_reports) record-eq-refresh
      ∙ reports-refresh (recorded s tool result z args r) (event_index s tool z)
          (add_event tool result args r) get-recorded
      ∙ set-set (ensure_reports s).mission_reports (event_index s tool z)
          (add_event tool result args r) (refresh_report (add_event tool result args r))

  active-event :
      ((record_mission_tool_event s tool result z args).active_mission_index
        ≡ pos (event_index s tool z))
      × ((record_mission_tool_event s tool result z args).active_mission_id
          ≡ event_index s tool z + 1)
  unfolding recorded
  active-event = rw record-eq-refresh (
      active-refresh (recorded s tool result z args r) (event_index s tool z)
        (add_event tool result args r) get-recorded)

-- What a run without reports gets is one report.
length-ensured :
    (s : RunState) → length (ensure_reports s).mission_reports ≡ max 1 (length s.mission_reports)
unfolding ensure_reports initialize_mission_reports
length-ensured s = by_reports s.mission_reports refl
  where
    by_reports :
        (rs : List MissionReport)
        → s.mission_reports ≡ rs
        → length (ensure_reports s).mission_reports ≡ max 1 (length s.mission_reports)
    by_reports [] e = ground (arith, e)
    by_reports (r ∷ rs) e = ground (arith, e)

past_one {ℓ} : {A : Type ℓ} (xs : List A) (j : ℕ) → length xs ≡ 1 → j ≢ 0 → get_elem? xs j ≡ none
past_one [] j h n = refl
past_one (x ∷ xs) zero h n = absurd (n refl)
past_one (x ∷ []) (suc k) h n = refl
past_one (x ∷ y ∷ ys) (suc k) h n = absurd (omega (arith, h))

-- A report beside the one that an event is for was there before.
get-ensured :
    (s : RunState) (i j : ℕ)
    → i < length (ensure_reports s).mission_reports
    → j ≢ i
    → get_elem? (ensure_reports s).mission_reports j ≡ get_elem? s.mission_reports j
unfolding ensure_reports
get-ensured s i j h ne = by_reports s.mission_reports refl
  where
    by_reports :
        (rs : List MissionReport)
        → s.mission_reports ≡ rs
        → get_elem? (ensure_reports s).mission_reports j ≡ get_elem? s.mission_reports j
    by_reports [] e =
        let one : length (ensure_reports s).mission_reports ≡ 1 =
          length-ensured s ∙ ap (λ rs. max 1 (length rs)) e in
        let first : i ≡ 0 = omega (arith, h, one) in
        past_one (ensure_reports s).mission_reports j one (λ z. ne (z ∙ sym first))
        ∙ sym (ap (λ rs. get_elem? rs j) e)
    by_reports (r ∷ rs) e = ground (arith, e)

-- What a refresh leaves as it was.
pub refresh-keeps :
    (r : MissionReport)
    → ((refresh_report r).used_tools ≡ r.used_tools)
      × ((refresh_report r).tool_results ≡ r.tool_results)
      × ((refresh_report r).result ≡ r.result)
      × ((refresh_report r).written_files ≡ r.written_files)
unfolding refresh_report fill_requirements
refresh-keeps r = (ground arith, ground arith, ground arith, ground arith)

-- The report that an event leaves has the tool as its last one used, and the result as its last one.
abbrev pub HasEvent : String → Fields → MissionReport → MissionReport → Type 0
HasEvent tool result before after =
    (after.used_tools ≡ before.used_tools ++ tool ∷ [])
    × (after.tool_results ≡ before.tool_results ++ record { tool = tool; result = result } ∷ [])
    × (after.result ≡ to_str (obj result))

event-HasEvent :
    (tool : String) (result : Fields) (args : Option Fields) (r : MissionReport)
    → HasEvent tool result r (refresh_report (add_event tool result args r))
unfolding add_event
event-HasEvent tool result args r =
    let kept = refresh-keeps (add_event tool result args r) in (kept.0, kept.1, kept.2)

-- An event goes to one mission, whose index is in range and becomes the active one. That mission's
-- report takes the tool as its last one used and the result as its last one, and is refreshed; every
-- other report is as it was, and the reports are as many as before, where a run without any gets one.
pub record_mission_tool_event_lem :
    (s : RunState) (tool : String) (result : Fields) (z : Option ℤ) (args : Option Fields) (j : ℕ)
    → j ≢ event_index s tool z
    → let s' = record_mission_tool_event s tool result z args in
      let i = event_index s tool z in
      (i < max 1 (length s.mission_reports))
      × (s'.active_mission_index ≡ pos i)
      × (s'.active_mission_id ≡ i + 1)
      × (length s'.mission_reports ≡ max 1 (length s.mission_reports))
      × (get_elem? s'.mission_reports j ≡ get_elem? s.mission_reports j)
      × ((r : MissionReport) × (get_elem? (ensure_reports s).mission_reports i ≡ some r)
          × (after : MissionReport) × (get_elem? s'.mission_reports i ≡ some after)
          × (after ≡ refresh_report (add_event tool result args r))
          × HasEvent tool result r after)
record_mission_tool_event_lem s tool result z args j ne =
    let before = (ensure_reports s).mission_reports in
    let i = event_index s tool z in
    let in_bounds = event_index-lt s tool z in
    let (r, here) = get_elem?_of_lt before i in_bounds in
    let after = refresh_report (add_event tool result args r) in
    let eq = reports-event s tool result z args r here in
    let active = active-event s tool result z args r here in
    (
      rw (← length-ensured s) in_bounds,
      active.0,
      active.1,
      rw eq (length-set before i after ∙ length-ensured s),
      rw eq (get_elem?-set_ne before i j after (λ e. ne (sym e)) ∙ get-ensured s i j in_bounds ne),
      (
        r,
        here,
        after,
        rw eq (get_elem?-set_self before i after in_bounds),
        refl,
        event-HasEvent tool result args r,
      ),
    )

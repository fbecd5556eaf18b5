-- ===== src/Missions/Attribution/Laws.antt =====
-- To which mission an action may be attributed.
use agentic_workflows.Base.{
  ℕ, suc, ◌<◌, String, ◌≡◌, refl, inl, inr, Bool, true, false, Option, none, some, List, [], ◌∷◌,
  arith, get_elem?, is_nil, find_sound, find, ◌==◌, eq_iff, Bool-cases, Option-cases,
}
use agentic_workflows.Base.Int.{ℤ, pos, negsuc, index?}
use agentic_workflows.Base.Text.{strip, lower, empty}
use agentic_workflows.Values.{Fields, get_str, get_dict}
use agentic_workflows.Missions.{MissionReport, RunState, is_completed}
use agentic_workflows.Missions.Events.{next_incomplete_mission_index}
use agentic_workflows.Missions.Events.Frame.{IsFirstOpen, next_incomplete-IsFirstOpen}
use agentic_workflows.Missions.Attribution.{
  Preview, path_hint, requires_file, by_path, first_use, still_expects, wants_more,
  next_incomplete_id, first_id, or_else, attribute, resolve_mission_id_for_action,
}

-- Some report has the id.
abbrev pub HasId : List MissionReport → ℕ → Type 0
HasId rs id = (i : ℕ) × (r : MissionReport) × (get_elem? rs i ≡ some r) × (r.mission_id ≡ id)

find_index :
    (p : MissionReport → Bool) (rs : List MissionReport) (r : MissionReport)
    → find p rs ≡ some r
    → (i : ℕ) × (get_elem? rs i ≡ some r)
unfolding find
find_index p [] r h = cc
find_index p (q ∷ rs) r h = elim (Bool-cases (p q)) [
  | inl e ↦ (0, ground arith)
  | inr e ↦ let (i, g) = find_index p rs r (ground arith) in (suc i, g)
]

-- Some report with the id passes the test.
abbrev HasWith : (MissionReport → Bool) → List MissionReport → ℕ → Type 0
HasWith p rs id =
    (i : ℕ) × (r : MissionReport) × (get_elem? rs i ≡ some r) × (r.mission_id ≡ id) × (p r ≡ true)

first_id_sound :
    (p : MissionReport → Bool) (rs : List MissionReport) (id : ℕ)
    → first_id p rs ≡ some id
    → HasWith p rs id
unfolding first_id
first_id_sound p rs id h = elim (Option-cases (find p rs)) [
  | inl e ↦ ground arith
  | inr (r, e) ↦ let (i, g) = find_index p rs r e in (i, r, g, ground arith, find_sound p rs r e)
]

-- Some report with the id is not completed.
abbrev pub HasOpen : List MissionReport → ℕ → Type 0
HasOpen rs id =
    (i : ℕ) × (r : MissionReport) × (get_elem? rs i ≡ some r)
    × (r.mission_id ≡ id)
    × (is_completed r.status ≡ false)

open_of :
    (p : MissionReport → Bool) (rs : List MissionReport) (id : ℕ)
    → ((r : MissionReport) → p r ≡ true → is_completed r.status ≡ false)
    → first_id p rs ≡ some id
    → HasOpen rs id
open_of p rs id f h = let (i, r, g, e, t) = first_id_sound p rs id h in (i, r, g, e, f r t)

next_open :
    (s : RunState) → 0 < next_incomplete_id s → HasOpen s.mission_reports (next_incomplete_id s)
unfolding next_incomplete_id
next_open s h = at_index (next_incomplete_mission_index s) (next_incomplete-IsFirstOpen s) h
  where
    id_at : ℤ → ℕ
    id_at z = elim (index? z) [
      | none ↦ 0
      | some i ↦ elim (get_elem? s.mission_reports i) [ none ↦ 0 | some r ↦ r.mission_id ]
    ]

    at_index :
        (z : ℤ)
        → IsFirstOpen s.mission_reports z
        → 0 < id_at z
        → HasOpen s.mission_reports (id_at z)
    at_index (pos i) (r, e, f, before) h = (i, r, e, ground arith, f)
    at_index (negsuc n) f h = absurd (omega arith)

-- One stage of the search, then the rest.
or_else_cases :
    {P : ℕ → Type 0} (o : Option ℕ) (d : ℕ)
    → ((n : ℕ) → o ≡ some n → P n)
    → (0 < d → P d)
    → 0 < or_else o d
    → P (or_else o d)
or_else_cases none d f g h = g h
or_else_cases (some n) d f g h = f n refl

module _ (s : RunState) (tool : String) (p : Option Preview) where
  later_stages : ℕ
  later_stages = or_else (first_id (first_use p tool) s.mission_reports) (
      or_else (first_id (still_expects tool) s.mission_reports)
        (or_else (first_id (wants_more p) s.mission_reports) (next_incomplete_id s)))

  later_stages-open : 0 < later_stages → HasOpen s.mission_reports later_stages
  unfolding later_stages
  later_stages-open =
      or_else_cases {P = HasOpen s.mission_reports} _ _
        (λ n.
          open_of (first_use p tool) s.mission_reports n (λ r. unfold first_use in ground arith))
        (or_else_cases {P = HasOpen s.mission_reports} _ _
          (λ n.
            open_of (still_expects tool) s.mission_reports n
              (λ r. unfold still_expects in ground arith))
          (or_else_cases {P = HasOpen s.mission_reports} _ _
            (λ n.
              open_of (wants_more p) s.mission_reports n (λ r. unfold wants_more in ground arith))
            (next_open s)))

HasId-of_open : (rs : List MissionReport) (id : ℕ) → HasOpen rs id → HasId rs id
HasId-of_open rs id (i, r, g, e, f) = (i, r, g, e)

-- The path that an action names, if it writes or memoizes one.
abbrev pub hint_of : Fields → String
hint_of action = path_hint (strip (get_str "" "tool_name" action)) (get_dict "args" action)

attribute-open :
    (s : RunState) (tool hint : String) (p : Option Preview)
    → empty hint ≡ true
    → 0 < attribute s tool hint p
    → HasOpen s.mission_reports (attribute s tool hint p)
unfolding attribute later_stages by_path
attribute-open s tool hint p e = rw e (later_stages-open s tool p)

by_path-HasId :
    (hint : String) (rs : List MissionReport) (id : ℕ) → by_path hint rs ≡ some id → HasId rs id
unfolding by_path
by_path-HasId hint rs id h =
    let (i, r, g, e, t) = first_id_sound (requires_file hint) rs id (ground arith) in (i, r, g, e)

attribute-HasId :
    (s : RunState) (tool hint : String) (p : Option Preview)
    → 0 < attribute s tool hint p
    → HasId s.mission_reports (attribute s tool hint p)
unfolding attribute later_stages
attribute-HasId s tool hint p =
    or_else_cases {P = HasId s.mission_reports} (by_path hint s.mission_reports)
      (later_stages s tool p) (by_path-HasId hint s.mission_reports)
      (λ h. HasId-of_open _ _ (later_stages-open s tool p h))

-- What an attribution other than 0 tells: the action is a tool action, and the id is that of a report.
pub resolve-HasId :
    (s : RunState) (action : Fields) (p : Option Preview)
    → 0 < resolve_mission_id_for_action s action p
    → (lower (strip (get_str "" "action" action)) ≡ "tool")
      × HasId s.mission_reports (resolve_mission_id_for_action s action p)
unfolding resolve_mission_id_for_action
resolve-HasId s action p =
    elim (Bool-cases (lower (strip (get_str "" "action" action)) == "tool")) [
      | inr e ↦ rw e (λ h. absurd (omega arith))
      | inl e ↦ elim (Bool-cases (is_nil s.mission_reports)) [
        | inl e' ↦ rw (e, e') (λ h. absurd (omega arith))
        | inr e' ↦
            rw (e, e')
              (λ h. (
                (eq_iff _ "tool").0 e,
                attribute-HasId s (strip (get_str "" "tool_name" action)) (hint_of action) p h,
              ))
      ]
    ]

-- An action that names no path is attributed to no mission that is completed.
pub resolve-HasOpen :
    (s : RunState) (action : Fields) (p : Option Preview)
    → empty (hint_of action) ≡ true
    → 0 < resolve_mission_id_for_action s action p
    → HasOpen s.mission_reports (resolve_mission_id_for_action s action p)
unfolding resolve_mission_id_for_action
resolve-HasOpen s action p none_named =
    elim (Bool-cases (lower (strip (get_str "" "action" action)) == "tool")) [
      | inr e ↦ rw e (λ h. absurd (omega arith))
      | inl e ↦ elim (Bool-cases (is_nil s.mission_reports)) [
        | inl e' ↦ rw (e, e') (λ h. absurd (omega arith))
        | inr e' ↦
            rw (e, e')
              (attribute-open s (strip (get_str "" "tool_name" action)) (hint_of action) p
                none_named)
      ]
    ]

-- ===== src/Audit.antt =====
-- orchestration/langgraph/mission_auditor.py: the findings of an audit. Each check of a
-- mission is a child's: Presence, Counts, Numbers and Outputs; Report puts them together.
pub mod Presence
pub mod Counts
pub mod Numbers
pub mod Outputs
pub mod Report
mod Samples
use agentic_workflows.Base.{ℕ, String, Bool, true, false, Option, none, some, List, [], ◌∷◌, find}
use agentic_workflows.Base.Text.{join}
use agentic_workflows.Values.{str, arr, Items, nil, cons, put, to_str}
use agentic_workflows.Missions.{MissionReport}

pub data Level : Type 0 where
  pass warn fail : Level

pub record AuditFinding : Type 0 where
  pub mission_id : ℕ
  pub mission : String
  pub level : Level
  pub check : String
  pub detail : String

-- A finding of this check for the mission of a report.
abbrev pub finding : MissionReport → Level → String → List String → AuditFinding
finding r level check detail = record {
  mission_id = r.mission_id;
  mission = r.mission;
  level = level;
  check = check;
  detail = join "" detail;
}

abbrev pub is_pass : AuditFinding → Bool
is_pass f = elim f.level [ Level.pass ↦ true | Level.warn ↦ false | Level.fail ↦ false ]

abbrev pub is_warn : AuditFinding → Bool
is_warn f = elim f.level [ Level.pass ↦ false | Level.warn ↦ true | Level.fail ↦ false ]

abbrev pub is_fail : AuditFinding → Bool
is_fail f = elim f.level [ Level.pass ↦ false | Level.warn ↦ false | Level.fail ↦ true ]

-- The finding of a check that has at most one.
abbrev pub to_list {ℓ} : {A : Type ℓ} → Option A → List A
to_list none = []
to_list (some x) = x ∷ []

pub record AuditReport : Type 0 where
  pub run_id : String
  pub findings : List AuditFinding
  pub passed : ℕ
  pub warned : ℕ
  pub failed : ℕ

-- How a list of names prints.
unfoldable pub names_text : List String → String
unfolding to_str
names_text names = to_str (arr (items names))
  where
    items : List String → Items
    items [] = nil
    items (s ∷ ss) = cons (str s) (items ss)

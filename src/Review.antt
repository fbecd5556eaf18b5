-- ===== src/Review.antt =====
-- orchestration/langgraph/reviewer.py: which missions are run again. Of `WeightedReviewer`, the
-- mission ids and the counts; its score and threshold are floating-point numbers, which are not
-- modelled.
pub mod Laws
pub mod Samples
use Prim.Native.Nat.{compare, Ordering}
use Prim.Native.String.{◌++◌ as str_append}
use agentic_workflows.Base.{
  ℕ, zero, suc, ◌+◌, String, ap, Bool, false, not, ◌&&◌, ◌||◌, Option, none, some, List, [], ◌∷◌,
  ◌++◌, map, eqb, if◌then◌else◌, get_or, is_nil, find, any, contains, sorted, ◌==◌,
}
use agentic_workflows.Base.Int.{ℤ, pos, negsuc}
use agentic_workflows.Base.Text.{basename, empty, join, print_nat}
use agentic_workflows.Values.{int, str, nil, end, get, has}
use agentic_workflows.Missions.{MissionReport, completed, is_completed}

pub record Finding : Type 0 where
  pub level : String
  pub mission_id : Option ℤ

pub record ReviewDecision : Type 0 where
  pub action : String
  pub reasons : List String
  pub rerun_mission_ids : List ℕ
  pub changed_files : List String

infixr 65 ◌+++◌
abbrev ◌+++◌ : String → String → String
◌+++◌ = str_append

-- `x in ids`
unfoldable pub has_id : List ℕ → ℕ → Bool
has_id [] n = false
has_id (m ∷ ms) n = eqb n m || has_id ms n

insert_id : ℕ → List ℕ → List ℕ
insert_id n [] = n ∷ []
insert_id n (m ∷ ms) = elim (compare n m) [
  | Ordering.lt ↦ n ∷ m ∷ ms
  | Ordering.eq ↦ m ∷ ms
  | Ordering.gt ↦ m ∷ insert_id n ms
]

-- `sorted(set(ids))`
sorted_ids : List ℕ → List ℕ
unfolding insert_id
sorted_ids [] = []
sorted_ids (n ∷ ns) = insert_id n (sorted_ids ns)

-- isinstance(mission_id, int) and mission_id > 0
positive_id : Option ℤ → Option ℕ
positive_id none = none
positive_id (some (pos zero)) = none
positive_id (some (pos (suc n))) = some (suc n)
positive_id (some (negsuc n)) = none

mission_ids_for_level : String → List Finding → List ℕ
unfolding positive_id
mission_ids_for_level level [] = []
mission_ids_for_level level (f ∷ fs) =
    let rest = mission_ids_for_level level fs in
    if not (f.level == level)
    then rest
    else elim (positive_id f.mission_id) [ none ↦ rest | some id ↦ id ∷ rest ]

show_ids : List ℕ → String
show_ids ids = "[" +++ join ", " (map print_nat ids) +++ "]"

-- FailOnlyReviewer, from the ids of the `fail` findings on
fail_only_decision : List ℕ → List String → ReviewDecision
unfolding show_ids
fail_only_decision fail_ids changed_files =
    if is_nil fail_ids
    then record {
      action = "end";
      reasons = "no fail findings detected" ∷ [];
      rerun_mission_ids = [];
      changed_files = changed_files;
    }
    else record {
      action = "rerun";
      reasons = ("fail findings detected for mission ids " +++ show_ids fail_ids) ∷ [];
      rerun_mission_ids = fail_ids;
      changed_files = changed_files;
    }

unfoldable pub decide_fail_only : Option (List Finding) → List String → ReviewDecision
unfolding mission_ids_for_level sorted_ids fail_only_decision
decide_fail_only audit_report changed_files =
    fail_only_decision (sorted_ids (mission_ids_for_level "fail" (get_or [] audit_report)))
      changed_files

-- Whether WeightedReviewer adds the report's mission: an open sub-task, a required file that did not
-- change, or a status that is not `completed`.
unfoldable pub has_gap : List String → MissionReport → Bool
unfolding any contains is_completed
has_gap changed_files r =
    any (λ s. not s.satisfied) r.subtask_statuses
    || any (λ f. not (empty (basename f)) && not (contains changed_files (basename f)))
        r.required_files
    || not (is_completed r.status)

gap_ids : List String → List MissionReport → List ℕ
unfolding has_gap
gap_ids changed_files [] = []
gap_ids changed_files (r ∷ rs) =
    let rest = gap_ids changed_files rs in
    if eqb r.mission_id 0
    then rest
    else if has_gap changed_files r
    then r.mission_id ∷ rest
    else rest

-- WeightedReviewer's rerun_mission_ids
unfoldable pub weighted_rerun_ids :
    Option (List Finding) → List MissionReport → List String → List ℕ
unfolding mission_ids_for_level sorted_ids gap_ids
weighted_rerun_ids audit_report mission_reports changed_files =
    let findings = get_or [] audit_report in
    let fail_ids = sorted_ids (mission_ids_for_level "fail" findings) in
    if is_nil fail_ids
    then sorted_ids (mission_ids_for_level "warn" findings ++ gap_ids changed_files mission_reports)
    else fail_ids

-- ===== src/Review/Laws.antt =====
-- Which missions a review runs again.
use agentic_workflows.Base.{
  contains, all, ℕ, zero, suc, String, ◌≡◌, refl, ◌∙◌, Bool, false, not, ◌&&◌, ◌||◌, Option, none,
  some, List, [], ◌∷◌, ◌++◌, arith, ltb, eqb, if◌then◌else◌, get_or, is_nil, any, ◌==◌,
}
use agentic_workflows.Base.Int.{ℤ, pos, negsuc}
use agentic_workflows.Missions.{is_completed, MissionReport}
use agentic_workflows.Review.{
  basename, empty, Finding, has_id, insert_id, sorted_ids, positive_id, mission_ids_for_level,
  fail_only_decision, decide_fail_only, has_gap, gap_ids, weighted_rerun_ids,
}

-- A finding of the level names the mission.
abbrev pub names_mission : String → ℕ → Finding → Bool
names_mission level n f =
    f.level == level
    && elim f.mission_id [ none ↦ false | some z ↦ elim z [ pos m ↦ eqb n m | negsuc m ↦ false ] ]

-- A report without a gap: it is completed, with every sub-task satisfied and every required file that
-- has a name changed.
abbrev pub is_closed : List String → MissionReport → Bool
is_closed changed_files r =
    is_completed r.status
    && all (λ s. s.satisfied) r.subtask_statuses
    && all (λ f. empty (basename f) || contains changed_files (basename f)) r.required_files

any-not-all {ℓ} :
    {A : Type ℓ} (p q : A → Bool) (xs : List A)
    → ((x : A) → p x ≡ not (q x))
    → any p xs ≡ not (all q xs)
unfolding any all
any-not-all p q [] h = refl
any-not-all p q (x ∷ xs) h = ground (arith, h x, any-not-all p q xs h)

unchanged_lem :
    (changed_files : List String) (f : String)
    → (not (empty (basename f)) && not (contains changed_files (basename f)))
      ≡ not (empty (basename f) || contains changed_files (basename f))
unchanged_lem changed_files f = ground arith

has_gap-closed :
    (changed_files : List String) (r : MissionReport)
    → has_gap changed_files r ≡ not (is_closed changed_files r)
unfolding has_gap
has_gap-closed changed_files r = ground (
  arith,
  any-not-all (λ s. not s.satisfied) (λ s. s.satisfied) r.subtask_statuses (λ s. refl),
  any-not-all _ (λ f. empty (basename f) || contains changed_files (basename f)) r.required_files
      (unchanged_lem changed_files),
)

-- A report of the mission has a gap.
abbrev pub gap_of : List String → ℕ → MissionReport → Bool
gap_of changed_files n r = eqb n r.mission_id && not (is_closed changed_files r)

has_id-insert_id : (n z : ℕ) (ns : List ℕ) → has_id (insert_id n ns) z ≡ (eqb z n || has_id ns z)
unfolding has_id insert_id
has_id-insert_id n z [] = refl
has_id-insert_id n z (m ∷ ms) = ground (arith, has_id-insert_id n z ms)

has_id-sorted_ids : (ns : List ℕ) (z : ℕ) → has_id (sorted_ids ns) z ≡ has_id ns z
unfolding has_id sorted_ids
has_id-sorted_ids [] z = refl
has_id-sorted_ids (n ∷ ns) z =
    ground (arith, has_id-insert_id n z (sorted_ids ns), has_id-sorted_ids ns z)

has_id-append : (ms ns : List ℕ) (z : ℕ) → has_id (ms ++ ns) z ≡ (has_id ms z || has_id ns z)
unfolding has_id
has_id-append [] ns z = refl
has_id-append (m ∷ ms) ns z = ground (arith, has_id-append ms ns z)

has_id-level :
    (level : String) (fs : List Finding) (n : ℕ)
    → has_id (mission_ids_for_level level fs) n ≡ (ltb 0 n && any (names_mission level n) fs)
unfolding has_id mission_ids_for_level any positive_id
has_id-level level [] n = ground arith
has_id-level level (f ∷ fs) n = kept f.mission_id (has_id-level level fs n)
  where
    kept :
        (o : Option ℤ)
        → has_id (mission_ids_for_level level fs) n ≡ (ltb 0 n && any (names_mission level n) fs)
        → has_id
            (if not (f.level == level)
              then mission_ids_for_level level fs
              else elim (positive_id o) [
                | none ↦ mission_ids_for_level level fs
                | some id ↦ id ∷ mission_ids_for_level level fs
              ])
            n
          ≡ (ltb 0 n
              && ((f.level == level && elim o [
                | none ↦ false
                | some z ↦ elim z [ pos m ↦ eqb n m | negsuc m ↦ false ]
              ])
                  || any (names_mission level n) fs))
    kept none ih = ground (arith, ih)
    kept (some (pos zero)) ih = ground (arith, ih)
    kept (some (pos (suc m))) ih = ground (arith, ih)
    kept (some (negsuc m)) ih = ground (arith, ih)

has_id-gap_ids :
    (changed_files : List String) (rs : List MissionReport) (n : ℕ)
    → has_id (gap_ids changed_files rs) n ≡ (ltb 0 n && any (gap_of changed_files n) rs)
unfolding has_id gap_ids any
has_id-gap_ids changed_files [] n = ground arith
has_id-gap_ids changed_files (r ∷ rs) n =
    ground (arith, has_gap-closed changed_files r, has_id-gap_ids changed_files rs n)

-- FailOnlyReviewer runs a mission again exactly when a `fail` finding names it and its id is positive,
-- and its action is `rerun` exactly when there is such a mission.
pub fail_only_lem :
    (audit_report : Option (List Finding)) (changed_files : List String) (n : ℕ)
    → let d = decide_fail_only audit_report changed_files in
      (has_id d.rerun_mission_ids n
        ≡ (ltb 0 n && any (names_mission "fail" n) (get_or [] audit_report)))
      × ((d.action == "rerun") ≡ not (is_nil d.rerun_mission_ids))
unfolding decide_fail_only fail_only_decision has_id
fail_only_lem audit_report changed_files n =
    let fails = mission_ids_for_level "fail" (get_or [] audit_report) in
    by_ids (sorted_ids fails)
      (has_id-sorted_ids fails n ∙ has_id-level "fail" (get_or [] audit_report) n)
  where
    by_ids :
        (ids : List ℕ)
        → has_id ids n ≡ (ltb 0 n && any (names_mission "fail" n) (get_or [] audit_report))
        → let d = fail_only_decision ids changed_files in
          (has_id d.rerun_mission_ids n
            ≡ (ltb 0 n && any (names_mission "fail" n) (get_or [] audit_report)))
          × ((d.action == "rerun") ≡ not (is_nil d.rerun_mission_ids))
    by_ids [] h = (h, refl)
    by_ids (m ∷ ms) h = (h, refl)

joined : {a b : Bool} (c d e : Bool) → a ≡ (c && d) → b ≡ (c && e) → (a || b) ≡ (c && (d || e))
joined c d e h k = ground (arith, h, k)

-- The missions that WeightedReviewer lists are those of FailOnlyReviewer, where it has any. Else it
-- lists a mission exactly when its id is positive and a `warn` finding names it or a report of it has
-- a gap: it is not completed, a sub-task is not satisfied, or a required file that has a name did not
-- change.
pub weighted_lem :
    (audit_report : Option (List Finding)) (reports : List MissionReport)
    (changed_files : List String) (n : ℕ)
    → let ids = weighted_rerun_ids audit_report reports changed_files in
      let fails = (decide_fail_only audit_report changed_files).rerun_mission_ids in
      if is_nil fails
      then has_id ids n ≡ (
          ltb 0 n
          && (any (names_mission "warn" n) (get_or [] audit_report)
              || any (gap_of changed_files n) reports))
      else ids ≡ fails
unfolding weighted_rerun_ids decide_fail_only fail_only_decision
weighted_lem audit_report reports changed_files n =
    let findings = get_or [] audit_report in
    let warns = mission_ids_for_level "warn" findings in
    let gaps = gap_ids changed_files reports in
    by_ids (sorted_ids (mission_ids_for_level "fail" findings)) (
      has_id-sorted_ids (warns ++ gaps) n
      ∙ has_id-append warns gaps n
      ∙ joined (ltb 0 n) (any (names_mission "warn" n) findings)
          (any (gap_of changed_files n) reports) (has_id-level "warn" findings n)
          (has_id-gap_ids changed_files reports n))
  where
    by_ids :
        (fails : List ℕ)
        → has_id
            (sorted_ids (
              mission_ids_for_level "warn" (get_or [] audit_report)
              ++ gap_ids changed_files reports))
            n
          ≡ (ltb 0 n
              && (any (names_mission "warn" n) (get_or [] audit_report)
                  || any (gap_of changed_files n) reports))
        → let kept = (fail_only_decision fails changed_files).rerun_mission_ids in
          let ids =
            if is_nil fails
            then sorted_ids (
                mission_ids_for_level "warn" (get_or [] audit_report)
                ++ gap_ids changed_files reports)
            else fails in
          if is_nil kept
          then has_id ids n ≡ (
              ltb 0 n
              && (any (names_mission "warn" n) (get_or [] audit_report)
                  || any (gap_of changed_files n) reports))
          else ids ≡ kept
    by_ids [] h = h
    by_ids (m ∷ ms) h = refl

-- ===== src/Graph/Guards/Laws.antt =====
-- What the guards promise.
use agentic_workflows.Base.{
  ℕ, suc, ◌+◌, String, ◌≡◌, refl, ap, ◌∙◌, Bool, true, false, not, ◌&&◌, Option, none, some, List,
  [], ◌∷◌, arith, ltb, eqb, if◌then◌else◌, length, get_elem?, is_nil, select, find, all, any,
  count_if, eq_refl,
}
use agentic_workflows.Missions.{MissionReport, MissionStatus, RunState, is_completed}
use agentic_workflows.Graph.Checkpoints.{CheckpointStore, save, load_latest}
use agentic_workflows.Graph.Checkpoints.Laws.{IsOrdered, up_to_step, load_latest-save}
use agentic_workflows.Graph.Guards.{
  rerun_targets, status_of, is_target_done, rerun_targets_completed, stop_planning,
  enforce_rerun_completion_guard, is_finish_action, purge_queued_finish_actions, finish,
  route_after_plan,
}

-- A report of the id has this status.
abbrev HasStatus : ℕ → MissionStatus → List MissionReport → Type 0
HasStatus id s reports =
    (i : ℕ) × (r : MissionReport) × (get_elem? reports i ≡ some r)
    × (r.mission_id ≡ id)
    × (r.status ≡ s)

abbrev StatusFound : ℕ → Option MissionStatus → List MissionReport → Type 0
StatusFound id found reports = elim found [ none ↦ Unit {0} | some s ↦ HasStatus id s reports ]

status_of-found : (id : ℕ) (rs : List MissionReport) → StatusFound id (status_of id rs) rs
unfolding status_of
status_of-found id [] = tt
status_of-found id (r ∷ rs) = found (status_of id rs) (status_of-found id rs)
  where
    here :
        (b : Bool)
        → eqb r.mission_id id && ltb 0 r.mission_id ≡ b
        → StatusFound id (if b then some r.status else none) (r ∷ rs)
    here true e = (0, r, refl, ground (arith, e), refl)
    here false e = tt

    found :
        (o : Option MissionStatus)
        → StatusFound id o rs
        → StatusFound id
            (elim o [
              | some later ↦ some later
              | none ↦ if eqb r.mission_id id && ltb 0 r.mission_id then some r.status else none
            ])
            (r ∷ rs)
    found none h = here (eqb r.mission_id id && ltb 0 r.mission_id) refl
    found (some s) (i, q, at, same, is) = (suc i, q, at, same, is)

-- A report of the id that is completed.
abbrev HasDone : List MissionReport → ℕ → Type 0
HasDone reports id =
    (i : ℕ) × (r : MissionReport) × (get_elem? reports i ≡ some r)
    × (r.mission_id ≡ id)
    × (is_completed r.status ≡ true)

unfoldable pub AllDone : List MissionReport → List ℕ → Type 0
AllDone reports [] = Unit
AllDone reports (id ∷ ids) = HasDone reports id × AllDone reports ids

done_of_target :
    (reports : List MissionReport) (id : ℕ) → is_target_done reports id ≡ true → HasDone reports id
unfolding is_target_done
done_of_target reports id h = of_found (status_of id reports) (status_of-found id reports) h
  where
    of_found :
        (o : Option MissionStatus)
        → StatusFound id o reports
        → elim o [ none ↦ false | some s ↦ is_completed s ] ≡ true
        → HasDone reports id
    of_found none f e = absurd (ground (arith, e))
    of_found (some s) (i, r, at, same, is) e = (i, r, at, same, ap is_completed is ∙ e)

all_done :
    (reports : List MissionReport) (ids : List ℕ)
    → all (is_target_done reports) ids ≡ true
    → AllDone reports ids
unfolding all AllDone
all_done reports [] h = tt
all_done reports (id ∷ ids) h =
    (done_of_target reports id (ground (arith, h)), all_done reports ids (ground (arith, h)))

module _ {A : Type 0} (p : A → Bool) where
  any-select : (xs : List A) → any p (select (λ x. not (p x)) xs) ≡ false
  unfolding any select
  any-select [] = refl
  any-select (x ∷ xs) = ground (arith, any-select xs)

  count_if-select : (xs : List A) → count_if p xs + length (select (λ x. not (p x)) xs) ≡ length xs
  unfolding count_if select
  count_if-select [] = refl
  count_if-select (x ∷ xs) = ground (arith, count_if-select xs)

  head-select : (xs : List A) → get_elem? (select p xs) 0 ≡ find p xs
  unfolding select find
  head-select [] = refl
  head-select (x ∷ xs) = ground (arith, head-select xs)

-- A purge leaves no finish in the queue; what it counts and what it leaves are together as many as
-- were queued; and the next action is the first queued one that is no finish, if there is one.
purge_lem :
    (s : RunState)
    → let purged = purge_queued_finish_actions s in
      (any is_finish_action purged.1.pending_action_queue ≡ false)
      × (purged.0 + length purged.1.pending_action_queue ≡ length s.pending_action_queue)
      × (get_elem? purged.1.pending_action_queue 0
          ≡ find (λ a. not (is_finish_action a)) s.pending_action_queue)
unfolding purge_queued_finish_actions
purge_lem s = (
  any-select is_finish_action s.pending_action_queue,
  count_if-select is_finish_action s.pending_action_queue,
  head-select (λ a. not (is_finish_action a)) s.pending_action_queue,
)

module _ (dumps : RunState → String) (loads : String → RunState) (now : String) (s : RunState)
    (store : CheckpointStore) where
  abbrev IsStopped : RunState → CheckpointStore → Type 0
  IsStopped s' store' =
      AllDone s.mission_reports (rerun_targets s.rerun_target_ids)
      × (is_nil s'.pending_action_queue ≡ true)
      × (route_after_plan s' ≡ finish)
      × (s'.mission_reports ≡ s.mission_reports)
      × (load_latest dumps loads now s.run_id store' ≡ (
          if up_to_step s.step s.run_id store
          then some (loads (dumps s'))
          else load_latest dumps loads now s.run_id store))

  stopped :
      rerun_targets_completed s ≡ true
      → IsOrdered store
      → IsStopped (stop_planning s) (
          save dumps loads now s.run_id s.step "plan_rerun_targets_completed"
            (stop_planning s)
            store)
  unfolding stop_planning route_after_plan rerun_targets_completed
  stopped h o = (
    all_done s.mission_reports (rerun_targets s.rerun_target_ids) (ground (arith, h)),
    refl,
    refl,
    refl,
    ground (
      arith,
      (load_latest-save dumps loads now s.run_id s.run_id s.step "plan_rerun_targets_completed"
          (stop_planning s) store o).0,
      eq_refl s.run_id,
    ),
  )

  unfoldable pub IsGuarded : Bool × RunState × CheckpointStore → Type 0
  IsGuarded (true, s', store') = IsStopped s' store'
  IsGuarded (false, s', store') = (s' ≡ s) × (store' ≡ store)

  -- Where the rerun guard does not stop the planning it changes nothing. Where it does, every target
  -- of the rerun has a completed report, the queue is empty, the reports are as they were, the graph
  -- goes on to `finish`, and the state is what its run loads, unless a later step was saved before. The rows
  -- of the store have their ids in order.
  pub guard_lem :
      IsOrdered store → IsGuarded (enforce_rerun_completion_guard dumps loads now s store)
  unfolding enforce_rerun_completion_guard IsGuarded
  guard_lem o = by_test (rerun_targets_completed s) refl
    where
      by_test :
          (b : Bool)
          → rerun_targets_completed s ≡ b
          → IsGuarded (
              if not b then (false, s, store) else (
                true,
                stop_planning s,
                save dumps loads now s.run_id s.step "plan_rerun_targets_completed"
                    (stop_planning s)
                    store,
              ))
      by_test true h = stopped h o
      by_test false h = (refl, refl)

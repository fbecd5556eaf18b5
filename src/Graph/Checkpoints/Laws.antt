-- ===== src/Graph/Checkpoints/Laws.antt =====
-- What is loaded after a save.
use agentic_workflows.Base.{
  ℕ, suc, ◌<◌, String, ◌≡◌, refl, ap, ◌∙◌, Bool, true, false, ◌&&◌, Option, none, some, List, [],
  ◌∷◌, ◌++◌, arith, ltb, leb, if◌then◌else◌, all, ◌==◌,
}
use agentic_workflows.Graph.Checkpoints.{
  Checkpoint, CheckpointStore, of_run, later, latest, save, state_of, load_latest,
}

-- Whether a checkpoint stands at no earlier step than the latest one.
abbrev reaches : Checkpoint → Option Checkpoint → Bool
reaches c found = elim found [ none ↦ true | some d ↦ leb d.step c.step ]

-- The latest of some checkpoints and a newer one.
latest-append :
    (p : Checkpoint → Bool) (cs : List Checkpoint) (c : Checkpoint)
    → all (λ d. ltb d.id c.id) cs ≡ true
    → latest p (cs ++ c ∷ []) ≡ (if p c && reaches c (latest p cs) then some c else latest p cs)
unfolding all latest later
latest-append p [] c h = ground arith
latest-append p (d ∷ cs) c h = ground (arith, latest-append p cs c)

-- The ids of the rows are below the next one.
pub record IsOrdered (s : CheckpointStore) : Type 0 where
  pub older : all (λ c. ltb c.id s.next_checkpoint) s.checkpoints ≡ true

-- Whether a run's checkpoints are all of this step or of earlier ones.
abbrev pub up_to_step : ℕ → String → CheckpointStore → Bool
up_to_step step run_id s = elim (latest (of_run run_id) s.checkpoints) [
  | none ↦ true
  | some d ↦ leb d.step step
]

all-older :
    (n : ℕ) (cs : List Checkpoint) (c : Checkpoint)
    → all (λ d. ltb d.id n) cs ≡ true
    → c.id < suc n
    → all (λ d. ltb d.id (suc n)) (cs ++ c ∷ []) ≡ true
unfolding all
all-older n [] c h k = ground (arith, k)
all-older n (d ∷ cs) c h k = ground (arith, all-older n cs c, h, k)

module _ {State : Type 0} (dumps : State → String) (loads : String → State) (now : String) where
  -- A save gives the row the highest id.
  save-IsOrdered :
      (run_id : String) (step : ℕ) (node_name : String) (state : State) (s : CheckpointStore)
      → IsOrdered s
      → IsOrdered (save dumps loads now run_id step node_name state s)
  unfolding save
  save-IsOrdered run_id step node_name state s h = record {
    older = all-older s.next_checkpoint s.checkpoints _ h.older (omega arith);
  }

  state_of-if :
      (b : Bool) (c : Checkpoint) (found : Option Checkpoint)
      → state_of dumps loads now (if b then some c else found)
        ≡ (if b then some (loads c.state_json) else state_of dumps loads now found)
  unfolding state_of
  state_of-if true c found = refl
  state_of-if false c found = refl

  -- After a save, its run loads the saved state, as JSON text and back, unless a checkpoint of a later
  -- step of that run is there; that one, and what any other run loads, stays as it was. And the rows
  -- keep their ids in order.
  pub load_latest-save :
      (run_id j : String) (step : ℕ) (node_name : String) (state : State) (s : CheckpointStore)
      → IsOrdered s
      → (load_latest dumps loads now j (save dumps loads now run_id step node_name state s) ≡ (
          if run_id == j && up_to_step step j s
          then some (loads (dumps state))
          else load_latest dumps loads now j s))
        × IsOrdered (save dumps loads now run_id step node_name state s)
  unfolding save load_latest state_of
  load_latest-save run_id j step node_name state s h =
      let saved : Checkpoint = record {
        id = s.next_checkpoint;
        run_id = run_id;
        step = step;
        node_name = node_name;
        state_json = dumps state;
        created_at = now;
      } in
      (
        ap (state_of dumps loads now) (latest-append (of_run j) s.checkpoints saved h.older)
            ∙ state_of-if (run_id == j && up_to_step step j s) saved
                (latest (of_run j) s.checkpoints),
        save-IsOrdered run_id step node_name state s h,
      )

-- ===== src/Graph/Checkpoints.antt =====
-- orchestration/langgraph/checkpoint_store.py: the table of checkpoints, as its rows in the order of
-- their ids. `json.dumps`, `json.loads` and the clock are parameters.
pub mod Laws
use agentic_workflows.Base.{
  ℕ, suc, ◌+◌, String, ap, Bool, ◌&&◌, ◌||◌, Option, none, some, List, [], ◌∷◌, ◌++◌, map, ltb, eqb,
  if◌then◌else◌, last?, select, ◌==◌,
}
use agentic_workflows.Values.{int}

pub record Checkpoint : Type 0 where
  pub id : ℕ
  pub run_id : String
  pub step : ℕ
  pub node_name : String
  pub state_json : String
  pub created_at : String

pub record CheckpointStore : Type 0 where
  pub checkpoints : List Checkpoint
  pub next_checkpoint : ℕ

abbrev pub no_checkpoints : CheckpointStore
no_checkpoints = record { checkpoints = []; next_checkpoint = 1 }

-- WHERE run_id = ?
abbrev pub of_run : String → Checkpoint → Bool
of_run run_id c = c.run_id == run_id

-- ORDER BY step DESC, id DESC LIMIT 1
unfoldable pub later : Checkpoint → Option Checkpoint → Checkpoint
later c none = c
later c (some d) = if ltb c.step d.step || (eqb c.step d.step && ltb c.id d.id) then d else c

unfoldable pub latest : (Checkpoint → Bool) → List Checkpoint → Option Checkpoint
unfolding later
latest p [] = none
latest p (c ∷ cs) = let rest = latest p cs in if p c then some (later c rest) else rest

pub record CheckpointInfo : Type 0 where
  pub step : ℕ
  pub node_name : String
  pub created_at : String

info_of : Checkpoint → CheckpointInfo
info_of c = record { step = c.step; node_name = c.node_name; created_at = c.created_at }

unfoldable pub list_checkpoints : String → CheckpointStore → List CheckpointInfo
unfolding select info_of
list_checkpoints run_id store = map info_of (select (of_run run_id) store.checkpoints)

module _ {State : Type 0} (dumps : State → String) (loads : String → State) (now : String) where
  unfoldable pub save : String → ℕ → String → State → CheckpointStore → CheckpointStore
  save run_id step node_name state store = record {
    checkpoints =
        store.checkpoints
        ++ record {
          id = store.next_checkpoint;
          run_id = run_id;
          step = step;
          node_name = node_name;
          state_json = dumps state;
          created_at = now;
        }
          ∷ [];
    next_checkpoint = suc store.next_checkpoint;
  }

  state_of : Option Checkpoint → Option State
  state_of none = none
  state_of (some c) = some (loads c.state_json)

  unfoldable pub load_latest : String → CheckpointStore → Option State
  unfolding latest state_of
  load_latest run_id store = state_of (latest (of_run run_id) store.checkpoints)

  unfoldable pub load_latest_run : CheckpointStore → Option State
  unfolding state_of
  load_latest_run store = state_of (last? store.checkpoints)

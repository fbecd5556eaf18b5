-- ===== src/Context.antt =====
-- orchestration/langgraph/context_manager.py: the contexts of a run's missions and what a summary of
-- one says. The contexts stand under their mission's id, in the order in which they were put.
pub mod Artifacts
pub mod Window
pub mod Completion
pub mod Injection
pub mod Cache
mod Samples
use agentic_workflows.Base.{
  ℕ, ◌+◌, ◌-◌, String, ◌≡◌, refl, Option, none, some, List, [], ◌∷◌, ◌++◌, arith, leb, eqb,
  if◌then◌else◌, is_nil, ◌==◌,
}
use agentic_workflows.Base.Text.{join, print_nat}
use agentic_workflows.Values.{int, nil, Fields, get, put}
use agentic_workflows.Missions.{AgentMessage}

-- dict[str, str], in the order of insertion
abbrev pub Texts : Type 0
Texts = List (String × String)

-- d[k] = v
unfoldable pub put_text : String → String → Texts → Texts
put_text k v [] = (k, v) ∷ []
put_text k v ((j, w) ∷ fs) =
    let rest = put_text k v fs in if j == k then (k, v) ∷ fs else (j, w) ∷ rest

-- d.update(e)
unfoldable pub update_texts : Texts → Texts → Texts
update_texts d [] = d
update_texts d ((k, v) ∷ e) = update_texts (put_text k v d) e

pub record ArtifactRecord : Type 0 where
  pub key : String
  pub value : String
  pub source_tool : String
  pub source_mission_id : ℕ

pub record SubMissionContext : Type 0 where
  pub sub_mission_id : String
  pub goal : String
  pub status : String
  pub tools_used : List String
  pub key_results : Texts

pub record MissionContext : Type 0 where
  pub mission_id : ℕ
  pub goal : String
  pub status : String
  pub tools_used : List String
  pub key_results : Texts
  pub artifacts : List ArtifactRecord
  pub sub_missions : List (String × SubMissionContext)
  pub summary : String
  pub step_range : Option (ℕ × ℕ)

unfoldable pub concat : List String → String
concat parts = join "" parts

result_parts : Texts → List String
unfolding concat
result_parts [] = []
result_parts ((k, v) ∷ fs) = concat (k ∷ ": " ∷ v ∷ []) ∷ result_parts fs

unfoldable pub artifact_texts : List ArtifactRecord → List String
unfolding concat
artifact_texts [] = []
artifact_texts (a ∷ artifacts) = concat (a.key ∷ "=" ∷ a.value ∷ []) ∷ artifact_texts artifacts

unfoldable pub build_summary : MissionContext → String
unfolding concat result_parts artifact_texts
build_summary ctx = join " | " (
    concat ("Mission " ∷ print_nat ctx.mission_id ∷ ": " ∷ ctx.goal ∷ [])
      ∷ (if is_nil ctx.tools_used
          then []
          else concat ("Tools: " ∷ join " -> " ctx.tools_used ∷ []) ∷ [])
    ++ result_parts ctx.key_results
    ++ (if is_nil ctx.artifacts
        then []
        else concat ("Artifacts: " ∷ join ", " (artifact_texts ctx.artifacts) ∷ []) ∷ []))

-- What the context manager reads and writes of a run's state: `pipeline_trace` stands in its
-- `policy_flags`, and the contexts stand under their id.
pub record ContextState : Type 0 where
  pub run_id : String
  pub step : ℕ
  pub current_mission_id : ℕ
  pub messages : List AgentMessage
  pub missions : List String
  pub mission_contexts : List (ℕ × MissionContext)
  pub pipeline_trace : List Fields

unfoldable pub get_context : ℕ → List (ℕ × MissionContext) → Option MissionContext
get_context id [] = none
get_context id ((k, ctx) ∷ contexts) =
    let rest = get_context id contexts in if eqb k id then some ctx else rest

unfoldable pub put_context :
    ℕ → MissionContext → List (ℕ × MissionContext) → List (ℕ × MissionContext)
put_context id ctx [] = (id, ctx) ∷ []
put_context id ctx ((k, other) ∷ contexts) =
    let rest = put_context id ctx contexts in
    if eqb k id then (id, ctx) ∷ contexts else (k, other) ∷ rest

-- What a write leaves to be read.
pub get_context-put :
    (id j : ℕ) (ctx : MissionContext) (contexts : List (ℕ × MissionContext))
    → get_context j (put_context id ctx contexts)
      ≡ (if eqb id j then some ctx else get_context j contexts)
unfolding get_context put_context
get_context-put id j ctx [] = refl
get_context-put id j ctx ((k, other) ∷ contexts) = ground (arith, get_context-put id j ctx contexts)

insert_by_id : ℕ × MissionContext → List (ℕ × MissionContext) → List (ℕ × MissionContext)
insert_by_id entry [] = entry ∷ []
insert_by_id (k, ctx) ((j, other) ∷ contexts) =
    let rest = insert_by_id (k, ctx) contexts in
    if leb k j then (k, ctx) ∷ (j, other) ∷ contexts else (j, other) ∷ rest

-- sorted(mission_contexts, key=int)
unfoldable pub by_id : List (ℕ × MissionContext) → List (ℕ × MissionContext)
unfolding insert_by_id
by_id [] = []
by_id (entry ∷ contexts) = insert_by_id entry (by_id contexts)

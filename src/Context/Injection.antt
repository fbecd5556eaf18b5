-- ===== src/Context/Injection.antt =====
-- orchestration/langgraph/context_manager.py: what the planner is told of the completed missions and
-- of similar missions of earlier runs. The embedding provider and the mission context store are
-- parameters, absent in a deployment without them; a query that fails or takes too long has no hits.
pub mod Laws
use agentic_workflows.Base.{
  ℕ, ◌+◌, ◌-◌, String, ap, Bool, not, ◌&&◌, ◌||◌, Option, none, some, List, [], ◌∷◌, ◌++◌, map, leb,
  eqb, if◌then◌else◌, get_or, is_nil, all, contains, sorted, ◌==◌,
}
use agentic_workflows.Base.Text.{empty, size, join, prefix}
use agentic_workflows.Values.{str, nil, get, put}
use agentic_workflows.Context.{
  ArtifactRecord, MissionContext, concat, build_summary, artifact_texts, ContextState, get_context,
  by_id,
}
use agentic_workflows.Context.Cache.{lookup_entry, cache_put}

summaries_of : List (ℕ × MissionContext) → List String
unfolding build_summary
summaries_of [] = []
summaries_of ((k, ctx) ∷ contexts) =
    let rest = summaries_of contexts in
    if ctx.status == "completed"
    then (if empty ctx.summary then build_summary ctx else ctx.summary) ∷ rest
    else rest

completed_artifacts : List (ℕ × MissionContext) → List ArtifactRecord
completed_artifacts [] = []
completed_artifacts ((k, ctx) ∷ contexts) =
    let rest = completed_artifacts contexts in
    if ctx.status == "completed" then ctx.artifacts ++ rest else rest

base_text : List String → List ArtifactRecord → String
unfolding concat artifact_texts
base_text [] artifacts = ""
base_text (summary ∷ summaries) artifacts = join ". " (
    concat ("[Orchestrator] Prior missions: " ∷ join "; " (summary ∷ summaries) ∷ [])
    ∷ (if is_nil artifacts
        then []
        else concat ("Available artifacts: " ∷ join ", " (artifact_texts artifacts) ∷ []) ∷ []))

unfoldable pub base_result : ContextState → String
unfolding summaries_of completed_artifacts base_text by_id
base_result s =
    let contexts = by_id s.mission_contexts in
    base_text (summaries_of contexts) (completed_artifacts contexts)

abbrev pub context_cap : ℕ
context_cap = 1500

first_goal : List (ℕ × MissionContext) → String
first_goal [] = ""
first_goal ((k, ctx) ∷ contexts) =
    let rest = first_goal contexts in if empty ctx.goal then rest else ctx.goal

fallback_goal : List String → List (ℕ × MissionContext) → String
unfolding first_goal
fallback_goal [] contexts = first_goal contexts
fallback_goal (mission ∷ missions) contexts = mission

unfoldable pub get_current_goal_text : ContextState → String
unfolding get_context fallback_goal
get_current_goal_text s = elim (get_context s.current_mission_id s.mission_contexts) [
  | none ↦ fallback_goal s.missions s.mission_contexts
  | some ctx ↦ if empty ctx.goal then fallback_goal s.missions s.mission_contexts else ctx.goal
]

pub record HitSubtask : Type 0 where
  pub satisfied : Bool
  pub missing_tools : List String

pub record Hit : Type 0 where
  pub goal : String
  pub summary : String
  pub status : String
  pub used_tools : List String
  pub subtask_statuses : List HitSubtask

missing_of : List HitSubtask → List String
missing_of [] = []
missing_of (sub ∷ subs) =
    let rest = missing_of subs in if sub.satisfied then rest else sub.missing_tools ++ rest

remaining_part : Hit → String
unfolding missing_of concat sorted
remaining_part hit =
    let remaining_tools = sorted (missing_of hit.subtask_statuses) in
    if (hit.status == "partial") && not (is_nil remaining_tools)
    then concat (" | Remaining: " ∷ join ", " remaining_tools ∷ [])
    else ""

cross_run_line : Hit → String
unfolding concat remaining_part
cross_run_line hit = concat (
    "[Cross-run] Similar: \""
    ∷ hit.goal
    ∷ "\""
    ∷ (if is_nil hit.used_tools then "" else concat (" | Tools: " ∷ join ", " hit.used_tools ∷ []))
    ∷ (if empty hit.status then "" else concat (" | Status: " ∷ hit.status ∷ []))
    ∷ " | "
    ∷ hit.summary
    ∷ remaining_part hit
    ∷ [])

-- The base text with the lines of earlier runs behind it, as far as there is room.
unfoldable pub combined : String → List String → String
unfolding concat
combined base lines =
    if leb context_cap (size base)
    then prefix context_cap base
    else prefix context_cap
        (concat (base ∷ (if empty base then "" else "\n") ∷ join "\n" lines ∷ []))

cache_key_of : ContextState → String
unfolding get_current_goal_text concat
cache_key_of s = concat (s.run_id ∷ ":" ∷ get_current_goal_text s ∷ [])

pub record Caches (Embedding : Type 0) : Type 0 where
  pub cascade_cache : List (String × List Hit)
  pub embed_cache : List (String × Embedding)
  pub injected_cross_run_keys : List String

module _ {Embedding : Type 0} (embed_sync : Option (String → Option Embedding))
    (query_cascade : Option (String → Option Embedding → Option (List Hit))) where
  -- The caches once the goal's embedding is there; none when the provider fails.
  with_embedding : String → String → Caches Embedding → Option (Caches Embedding)
  unfolding lookup_entry cache_put
  with_embedding goal key caches = elim embed_sync [
    | none ↦ some caches
    | some embed ↦ elim (lookup_entry key caches.embed_cache) [
      | some e ↦ some caches
      | none ↦ elim (embed goal) [
        | none ↦ none
        | some e ↦ some record {
          cascade_cache = caches.cascade_cache;
          embed_cache = cache_put key e caches.embed_cache;
          injected_cross_run_keys = caches.injected_cross_run_keys;
        }
      ]
    ]
  ]

  embedding_of : String → Caches Embedding → Option Embedding
  unfolding lookup_entry
  embedding_of key caches = elim embed_sync [
    | none ↦ none
    | some embed ↦ lookup_entry key caches.embed_cache
  ]

  -- The caches once the goal's hits are there.
  with_hits :
      (String → Option Embedding → Option (List Hit))
      → String
      → String
      → Caches Embedding
      → Caches Embedding
  unfolding lookup_entry cache_put embedding_of
  with_hits query goal key caches = elim (lookup_entry key caches.cascade_cache) [
    | some hits ↦ caches
    | none ↦ record {
      cascade_cache =
          cache_put key (get_or [] (query goal (embedding_of key caches))) caches.cascade_cache;
      embed_cache = caches.embed_cache;
      injected_cross_run_keys = caches.injected_cross_run_keys;
    }
  ]

  -- What is injected when these are the lines of earlier runs, once for each run and goal.
  inject_lines : String → String → List String → Caches Embedding → String × Caches Embedding
  unfolding combined contains
  inject_lines base key [] caches = (prefix context_cap base, caches)
  inject_lines base key (line ∷ lines) caches =
      if contains caches.injected_cross_run_keys key then (prefix context_cap base, caches) else (
        combined base (line ∷ lines),
        record {
          cascade_cache = caches.cascade_cache;
          embed_cache = caches.embed_cache;
          injected_cross_run_keys = key ∷ caches.injected_cross_run_keys;
        },
      )

  inject_hits :
      (String → Option Embedding → Option (List Hit))
      → String
      → String
      → String
      → Option (Caches Embedding)
      → Caches Embedding
      → String × Caches Embedding
  unfolding with_hits inject_lines lookup_entry cross_run_line
  inject_hits query base goal key none before = (prefix context_cap base, before)
  inject_hits query base goal key (some caches) before =
      let filled = with_hits query goal key caches in
      inject_lines base key (map cross_run_line (get_or [] (lookup_entry key filled.cascade_cache)))
        filled

  inject_from :
      Option (String → Option Embedding → Option (List Hit))
      → ContextState
      → Caches Embedding
      → String × Caches Embedding
  unfolding base_result get_current_goal_text cache_key_of with_embedding inject_hits
  inject_from none s caches = (prefix context_cap (base_result s), caches)
  inject_from (some query) s caches =
      let goal = get_current_goal_text s in
      if eqb s.step 0 || empty goal
      then (prefix context_cap (base_result s), caches)
      else inject_hits query (base_result s) goal (cache_key_of s)
          (with_embedding goal (cache_key_of s) caches) caches

  unfoldable pub build_planner_context_injection :
      ContextState → Caches Embedding → String × Caches Embedding
  unfolding inject_from
  build_planner_context_injection s caches = inject_from query_cascade s caches

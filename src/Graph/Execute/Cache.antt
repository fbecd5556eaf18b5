-- ===== src/Graph/Execute/Cache.antt =====
-- Of orchestration/langgraph/graph.py, the inputs of writes that later runs may reuse:
-- `_cache_write_file_inputs` and `_maybe_complete_next_write_from_cache`.
pub mod Laws
use agentic_workflows.Base.{
  ◌+◌, ℕ, ◌-◌, String, Bool, true, false, not, ◌&&◌, ◌||◌, Option, none, some, List, [], ◌∷◌, ◌++◌,
  if◌then◌else◌, length, get_elem?, get_or, is_nil, ◌==◌, contains, difference, sorted,
}
use agentic_workflows.Base.Int.{pos, index?}
use agentic_workflows.Base.Text.{strip, lower, empty, basename, contains_text, join, print_nat}
use agentic_workflows.Values.{
  Value, str, arr, obj, Items, nil, cons, Fields, end, field, get, put, get_str, to_str,
}
use agentic_workflows.Extract.{extract_write_path_from_mission}
use agentic_workflows.Missions.{MissionReport, RunState, basenames}
use agentic_workflows.Missions.Requirements.{infer_requirements_from_text}
use agentic_workflows.Missions.Events.{next_incomplete_mission_index, record_mission_tool_event}
use agentic_workflows.Missions.Progress.{next_incomplete_mission}
use agentic_workflows.Missions.Status.{helper_tools}
use agentic_workflows.Memo.Keys.{write_cache_candidates}
use agentic_workflows.Memo.Store.{Slot, LookupResult, put_memo, get_latest}
use agentic_workflows.Validate.{validate_tool_result_for_active_mission}
use agentic_workflows.Graph.Execute.{
  MemoEvent, Session, Step, Env, with_run, say, count_flag, remember, log_call, progress_hint,
  result_message, call_tool,
}

abbrev pub shared_slot : String → Slot
shared_slot key = record { run_id = "shared"; namespace = "cache"; key = key }

abbrev pub inputs : String → String → Value
inputs path content = obj (field "path" (str path) (field "content" (str content) end))

-- The content that a lookup found, if it is a text that is not empty.
unfoldable pub cached_content : LookupResult → Option String
cached_content lookup = content_of lookup.value
  where
    text_of : Option Value → Option String
    text_of (some (str s)) = if empty s then none else some s
    text_of o = none

    content_of : Option Value → Option String
    content_of (some (obj payload)) = text_of (get "content" payload)
    content_of o = none

-- The first report whose mission is the text.
unfoldable pub index_of : String → List MissionReport → Option ℕ
index_of mission [] = none
index_of mission (r ∷ rs) = elim (strip r.mission == mission) [
  | true ↦ some 0
  | false ↦ elim (index_of mission rs) [ none ↦ none | some i ↦ some (1 + i) ]
]

-- The report that the next write is for.
unfoldable pub write_target : String → RunState → ℕ
write_target mission run =
    let reports = run.mission_reports in
    let next = get_or (length reports - 1) (index? (next_incomplete_mission_index run)) in
    elim (get_elem? reports next) [
      | none ↦ 0
      | some r ↦ if strip r.mission == mission then next else get_or next (index_of mission reports)
    ]

-- The tools that a mission requires, by its report or else by its text.
unfoldable pub required_by : String → Option MissionReport → List String
required_by mission none = (infer_requirements_from_text mission).tools
required_by mission (some r) =
    if is_nil r.required_tools && is_nil (basenames r.required_files)
    then (infer_requirements_from_text mission).tools
    else r.required_tools

-- Whether a mission needs nothing but a write.
unfoldable pub is_plain_write : List String → Bool
is_plain_write tools = is_nil (difference (difference tools helper_tools) ("write_file" ∷ []))

unfoldable pub attempted_of : Option Value → List String
attempted_of (some (arr items)) = texts items
  where
    texts : Items → List String
    texts nil = []
    texts (cons v vs) = to_str v ∷ texts vs
attempted_of o = []

unfoldable pub path_items : List String → Items
path_items [] = nil
path_items (s ∷ ss) = cons (str s) (path_items ss)

module _ {W : Type 0} (env : Env W) where
  unfoldable pub event_of : String → String → String → Session W → MemoEvent
  event_of key source hash s = record {
    key = key;
    namespace = "cache";
    source_tool = source;
    step = s.run.step;
    value_hash = hash;
    created_at = env.now;
  }

  -- One input is put in the memo store, for every run.
  unfoldable pub cache_input : String → Value → Session W → Session W
  cache_input key value s =
      let (memos, result) =
        put_memo env.dumps env.loads env.sha256 env.now (shared_slot key) value "write_file_cache"
          s.run.step "" s.memos in
      remember (event_of key "write_file_cache" result.value_hash s) (record s { memos = memos })

  unfoldable pub cache_inputs : List String → Value → Session W → Session W
  cache_inputs [] value s = s
  cache_inputs (key ∷ keys) value s = cache_inputs keys value (cache_input key value s)

  unfoldable pub cache_write_file_inputs : Fields → Session W → Session W
  cache_write_file_inputs args s =
      let path = strip (get_str "" "path" args) in
      let content = get_str "" "content" args in
      if empty path || empty content
      then s
      else cache_inputs (write_cache_candidates path) (inputs path content) s

  -- The attempt is not made again.
  unfoldable pub with_attempt : String → Session W → Session W
  with_attempt attempt s = record s {
    run = record s.run {
      policy_flags =
          put "cache_reuse_attempted"
            (arr (
              path_items (
                sorted
                  (attempted_of (get "cache_reuse_attempted" s.run.policy_flags) ++ attempt ∷ []))))
            s.run.policy_flags;
    };
  }

  -- The records of a write that was made from the cache.
  unfoldable pub reused : String → LookupResult → ℕ → Fields → Fields → Session W → Session W
  reused key lookup target args result s =
      let counted = count_flag "cache_reuse_hits" s in
      let active =
        with_run
          (record counted.run { active_mission_index = pos target; active_mission_id = 1 + target })
          counted in
      let logged = log_call "write_file" args result active in
      let run =
        record_mission_tool_event logged.run "write_file" result (some (pos target)) (some args) in
      remember (event_of key "cache_reuse_hit" (hash_of lookup.value_hash) s) (
        with_run
          (say
            (result_message (length logged.run.tool_history) "write_file" (env.dumps (obj result))
              (progress_hint run))
            run)
          logged)
    where
      hash_of : Option String → String
      hash_of none = "n/a"
      hash_of (some hash) = if empty hash then "n/a" else hash

  -- The candidates are tried in turn: a content that is found is written, and the write checked.
  unfoldable pub try_keys :
      ℕ → String → String → (Bool → Session W → Step W) → List String → Session W → Step W
  try_keys target path attempt next [] s =
      next false (count_flag "cache_reuse_misses" (with_attempt attempt s))
  try_keys target path attempt next (key ∷ keys) s =
      let lookup = get_latest env.dumps env.loads env.sha256 env.now key "cache" s.memos in
      elim (cached_content lookup) [
        | none ↦ try_keys target path attempt next keys s
        | some content ↦
            let args = field "path" (str path) (field "content" (str content) end) in
            call_tool env "write_file" args
              (λ result after.
                elim (validate_tool_result_for_active_mission env.pattern_error after.run
                  "write_file" args result (some (pos target))) [
                    | some problem ↦ try_keys target path attempt next keys after
                    | none ↦
                        next true
                          (with_attempt attempt (reused key lookup target args result after))
                  ])
              s
      ]

  -- Whether a write was made for the next mission, and what goes on with the answer.
  unfoldable pub maybe_complete_next_write_from_cache :
      (Bool → Session W → Step W) → Session W → Step W
  maybe_complete_next_write_from_cache next s =
      let mission = strip (next_incomplete_mission s.run) in
      let path = extract_write_path_from_mission mission in
      let target = write_target mission s.run in
      let attempt = join ":" (print_nat target ∷ basename path ∷ []) in
      if empty mission || not (contains_text (lower mission) "write") || empty path
      then next false s
      else if not (is_plain_write (required_by mission (get_elem? s.run.mission_reports target)))
      then next false s
      else if contains (attempted_of (get "cache_reuse_attempted" s.run.policy_flags)) attempt
      then next false s
      else try_keys target path attempt next (write_cache_candidates path) s

-- ===== src/Graph/Execute/Lookup.antt =====
-- Of orchestration/langgraph/graph.py, the lookup in the memo store before a deterministic write:
-- `_memo_lookup_candidates_for_action`, `_record_retrieve_memo_trace` and `_auto_lookup_before_write`.
use agentic_workflows.Base.{
  some, false, Bool, String, true, none, List, [], ◌∷◌, if◌then◌else◌, length, ◌==◌, not, ◌&&◌,
  ◌||◌,
}
use agentic_workflows.Base.Text.{strip, empty, basename}
use agentic_workflows.Values.{str, obj, Fields, end, field, get, get_str, truthy}
use agentic_workflows.Memo.Policy.{suggested_memo_key}
use agentic_workflows.Memo.Store.{hash_json}
use agentic_workflows.Missions.Events.{record_mission_tool_event}
use agentic_workflows.Graph.Execute.{
  Session, Step, Env, with_run, say, count_flag, remember, log_call, progress_hint, result_message,
  call_tool,
}

-- bool(tool_result.get("found", False))
unfoldable pub is_found : Fields → Bool
is_found result = elim (get "found" result) [ none ↦ false | some v ↦ truthy v ]

module _ {W : Type 0} (env : Env W) where
  unfoldable pub key_for : String → String
  key_for path =
      suggested_memo_key (hash_json env.dumps env.loads env.sha256 env.now) "write_file"
        (field "path" (str path) end) end

  -- The keys under which a write may be in the memo store.
  unfoldable pub memo_lookup_candidates : String → Fields → List String
  memo_lookup_candidates tool args =
      let path = strip (get_str "" "path" args) in
      let name = strip (basename path) in
      if not (tool == "write_file") || empty path
      then []
      else key_for path ∷ (if not (empty name) && not (name == path) then key_for name ∷ [] else [])

  unfoldable pub record_retrieve_memo_trace : Fields → Session W → Session W
  record_retrieve_memo_trace result s =
      let hash = get_str "" "value_hash" result in
      remember
        (record {
          key = get_str "" "key" result;
          namespace = get_str "run" "namespace" result;
          source_tool = if is_found result then "retrieve_memo_hit" else "retrieve_memo_miss";
          step = s.run.step;
          value_hash = if empty hash then "n/a" else hash;
          created_at = env.now;
        })
        (count_flag (if is_found result then "memo_retrieve_hits" else "memo_retrieve_misses") s)

  -- A lookup in the records of the run; `hint` is the progress before the lookups.
  unfoldable pub looked_up : String → Fields → Fields → Session W → Session W
  looked_up hint args result s =
      let logged = log_call "retrieve_memo" args result (record_retrieve_memo_trace result s) in
      with_run
        (say
          (result_message (length logged.run.tool_history) "retrieve_memo" (env.dumps (obj result))
            hint)
          (record_mission_tool_event logged.run "retrieve_memo" result none none))
        logged

  -- The lookups of the keys up to the first hit, which `hit` goes on with.
  unfoldable pub lookup_keys :
      String
      → (Fields → Session W → Step W)
      → (Session W → Step W)
      → List String
      → Session W
      → Step W
  lookup_keys hint hit miss [] s = miss s
  lookup_keys hint hit miss (key ∷ keys) s =
      let args = field "key" (str key) (field "run_id" (str s.run.run_id) end) in
      call_tool env "retrieve_memo" args
        (λ result after.
          let next = looked_up hint args result after in
          elim (is_found result) [
            | true ↦ hit result next
            | false ↦ lookup_keys hint hit miss keys next
          ])
        s

  unfoldable pub auto_lookup_before_write :
      List String → (Fields → Session W → Step W) → (Session W → Step W) → Session W → Step W
  auto_lookup_before_write keys hit miss s = lookup_keys (progress_hint s.run) hit miss keys s

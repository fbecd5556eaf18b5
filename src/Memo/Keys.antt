-- ===== src/Memo/Keys.antt =====
-- orchestration/langgraph/memo_manager.py: the keys of reusable writes, and what a memo hit does to
-- the mission that waits for it.
pub mod Laws
pub mod Samples
use Prim.Native.String.{◌++◌ as str_append}
use agentic_workflows.Base.{
  ℕ, ◌+◌, String, ap, Bool, true, not, ◌&&◌, none, some, List, [], ◌∷◌, ◌++◌, if◌then◌else◌,
  get_elem?, set, is_nil, any, contains, ◌==◌,
}
use agentic_workflows.Base.Int.{pos, index?}
use agentic_workflows.Base.Text.{strip, basename, empty, startswith, after_first}
use agentic_workflows.Values.{
  str, obj, nil, Fields, end, field, get, put, has, to_str, get_str, get_dict,
}
use agentic_workflows.Missions.{ToolRecord, MissionReport, RunState}
use agentic_workflows.Missions.Status.{refresh_mission_status}
use agentic_workflows.Missions.Events.{next_incomplete_mission_index, add_written}

cache_key_for_path : String → String
cache_key_for_path path = str_append "write_file_input:" path

unfoldable pub write_cache_candidates : String → List String
unfolding cache_key_for_path
write_cache_candidates path =
    let name = strip (basename path) in
    if empty (strip path)
    then []
    else cache_key_for_path path
      ∷ (if not (empty name) && not (name == path) then cache_key_for_path name ∷ [] else [])

abbrev is_lookup_of : List String → ToolRecord → Bool
is_lookup_of keys event =
    event.tool == "retrieve_memo" && contains keys (get_str "" "key" event.args)

unfoldable pub has_attempted_memo_lookup : RunState → List String → Bool
unfolding any
has_attempted_memo_lookup state candidate_keys =
    if is_nil candidate_keys then true else any (is_lookup_of candidate_keys) state.tool_history

-- The path of the pending write, else the one that the memo's key names.
unfoldable pub hit_path : RunState → Fields → String
hit_path state memo_hit =
    let pending : String = elim state.pending_action [
      | none ↦ ""
      | some action ↦
          if get_str "" "tool_name" action == "write_file"
          then strip (get_str "" "path" (get_dict "args" action))
          else ""
    ] in
    let key = strip (get_str "" "key" memo_hit) in
    if not (empty pending)
    then pending
    else if startswith key "write_file:"
    then strip (after_first ":" key)
    else ""

synthetic_result : String → Fields
synthetic_result path =
    field "result" (str "memo_hit_reused") (
      field "source" (str "retrieve_memo")
        (if empty path then end else field "path" (str path) end))

unfoldable pub reuse_report : String → Fields → MissionReport → MissionReport
unfolding synthetic_result add_written
reuse_report path memo_hit r = record r {
  used_tools = r.used_tools ++ "write_file" ∷ [];
  tool_results =
      r.tool_results ++ record { tool = "write_file"; result = synthetic_result path } ∷ [];
  result = to_str (obj memo_hit);
  written_files = if empty path then r.written_files else add_written path r.written_files;
}

unfoldable pub reuse_at : RunState → Fields → ℕ → RunState
reuse_at state memo_hit i = elim (get_elem? state.mission_reports i) [
  | none ↦ state
  | some r ↦
      refresh_mission_status
        (record state {
          active_mission_index = pos i;
          active_mission_id = i + 1;
          mission_reports =
              set state.mission_reports i (reuse_report (hit_path state memo_hit) memo_hit r);
        })
        (pos i)
]

unfoldable pub mark_next_mission_complete_from_memo_hit : RunState → Fields → RunState
unfolding reuse_at hit_path
mark_next_mission_complete_from_memo_hit state memo_hit =
    elim (index? (next_incomplete_mission_index state)) [
      | none ↦ state
      | some i ↦ reuse_at state memo_hit i
    ]

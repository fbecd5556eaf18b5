-- ===== src/Graph/Execute/Records.antt =====
-- Of orchestration/langgraph/graph.py, what `_execute_action` keeps of a call and its result: the cursor
-- of a chunked read, the checks, the history, the mission, the transcript and the context.
use agentic_workflows.Base.{
  ℕ, String, Bool, false, ◌||◌, Option, none, some, if◌then◌else◌, length, ltb, contains, map,
  get_elem?, get_or, ◌==◌,
}
use agentic_workflows.Base.Int.{ℤ, pos, negsuc, index?}
use agentic_workflows.Base.Text.{strip, lower, size, prefix, contains_text, print_nat}
use agentic_workflows.Values.{
  bool, int, str, arr, obj, Items, nil, cons, Fields, end, field, get, has, truthy, get_str,
}
use agentic_workflows.Missions.{MissionReport, RunState}
use agentic_workflows.Missions.Events.{record_mission_tool_event}
use agentic_workflows.Storage.Cursors.{Cursors, cursor_key, upsert_cursor, pop_cursor}
use agentic_workflows.Graph.Finish.{get_count}
use agentic_workflows.Graph.Execute.{
  ◌+++◌, Session, Env, with_run, say, count_retry, emit_trace, log_call, progress_hint,
  result_message,
}
use agentic_workflows.Graph.Execute.Contexts.{complete_missions, store_in_context}

abbrev pub large_result_threshold : ℕ
large_result_threshold = 800

-- The index of the mission, where it is one.
abbrev pub index_arg : ℤ → Option ℤ
index_arg (pos n) = some (pos n)
index_arg (negsuc n) = none

unfoldable pub keys_of : Fields → Items
keys_of end = nil
keys_of (field k v fs) = cons (str k) (keys_of fs)

unfoldable pub chunk_key : Fields → String
chunk_key args = get_str (get_str "" "file_path" args) "path" args

-- Where the next chunk of a file starts, for as long as there is one.
unfoldable pub tracked : RunState → Fields → Fields → Cursors → Cursors
tracked run args result cursors =
    let mission = print_nat run.active_mission_id in
    let more = elim (get "has_more" result) as (λ o. Bool) [ none ↦ false | some v ↦ truthy v ] in
    if more
    then upsert_cursor run.run_id mission "read_file_chunk" (chunk_key args)
        (get_or (int (pos 0)) (get "next_offset" result))
        (get_or (int (pos 0)) (get "total_lines" result)) cursors
    else pop_cursor (cursor_key run.run_id mission "read_file_chunk" (chunk_key args)) cursors

-- What the validator is said to have checked.
unfoldable pub check_name : Option MissionReport → String
check_name none = "none"
check_name (some r) =
    let named = elim r.expected_fibonacci_count as (λ o. Bool) [
      | none ↦ false
      | some n ↦ ltb 0 n
    ] in
    if named || contains_text (lower r.mission) "fibonacci"
    then "fibonacci"
    else if contains (map (λ check. lower (strip check)) r.contract_checks)
        "pattern_report_consistency"
    then "pattern_report"
    else "none"

unfoldable pub report_of : ℤ → RunState → Option MissionReport
report_of mission_index run =
    elim (index? (get_or run.active_mission_index (index_arg mission_index))) [
      | none ↦ none
      | some i ↦ get_elem? run.mission_reports i
    ]

unfoldable pub failed_result : String → Fields
failed_result problem =
    field "error" (str "content_validation_failed") (field "details" (str problem) end)

module _ {W : Type 0} (env : Env W) where
  unfoldable pub track_cursor : String → Fields → Fields → Session W → Session W
  track_cursor tool args result s =
      if tool == "read_file_chunk"
      then record s {
        cursors = elim s.cursors [
          | none ↦ none
          | some cursors ↦ some (tracked s.run args result cursors)
        ];
      }
      else s

  -- The result is not what the mission asks for.
  unfoldable pub validation_failed : String → String → Session W → Session W
  validation_failed tool problem s =
      let counted = count_retry "content_validation" s in
      emit_trace "validator_fail"
        (field "tool" (str tool) (
          field "reason" (str (prefix 120 problem)) (
            field "retry_count"
              (int (pos (get_count "content_validation" counted.run.retry_counts))) end)))
        counted

  unfoldable pub validator_pass : String → ℤ → Session W → Session W
  validator_pass tool mission_index s =
      emit_trace "validator_pass"
        (field "tool" (str tool) (
          field "check"
            (str
              (if tool == "write_file" then check_name (report_of mission_index s.run) else "none"))
            end))
        s

  unfoldable pub message_for : ℕ → String → Fields → String → String
  message_for call_number tool result hint =
      let json = env.dumps (obj result) in
      result_message call_number tool
        (if ltb large_result_threshold (size json)
          then "[tool_result: "
            +++ tool
            +++ ", "
            +++ print_nat (size json)
            +++ " chars, stored in context]"
          else json)
        hint

  -- A call with its result in the records: the history, the mission, the transcript and the context.
  unfoldable pub recorded : String → Fields → Fields → Option String → ℤ → Session W → Session W
  recorded tool args result problem mission_index s =
      let logged = log_call tool args result s in
      let evented =
        with_run
          (record_mission_tool_event logged.run tool result (index_arg mission_index) (some args))
          logged in
      let traced =
        emit_trace "tool_exec"
          (field "tool" (str tool) (
            field "mission_id" (int (pos evented.run.active_mission_id)) (
              field "result_keys" (arr (keys_of result))
                (field "has_error" (bool (has "error" result)) end))))
          evented in
      let passed : Session W = elim problem [
        | none ↦ validator_pass tool mission_index traced
        | some p ↦ traced
      ] in
      let completed = complete_missions s.run.mission_reports passed.run.mission_reports passed in
      let hint = elim problem as (λ o. String) [
        | none ↦ progress_hint completed.run
        | some p ↦
            "Previous tool output failed deterministic content validation. Fix and rerun this task. "
            +++ p
      ] in
      store_in_context env.dumps large_result_threshold tool result args (
        with_run (say (message_for (length logged.run.tool_history) tool result hint) completed.run)
          completed)

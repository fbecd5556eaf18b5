-- ===== src/Storage/Runs.antt =====
-- storage/sqlite.py: `save_run` and `update_run` over the table. `json.dumps`, the length in bytes, the
-- configured bound on it and the clock are parameters.
use agentic_workflows.Base.{
  ℕ, String, Bool, true, false, none, some, List, ltb, if◌then◌else◌, get_or, contains,
}
use agentic_workflows.Base.Int.{pos}
use agentic_workflows.Base.Text.{prefix}
use agentic_workflows.Values.{
  Value, null, bool, int, str, arr, obj, Items, nil, cons, Fields, end, field, get, put, to_str,
  get_str,
}
use agentic_workflows.Storage.Dicts.{items_of, dict_of}
use agentic_workflows.Storage.{
  ok, type_error, SqlResult, raised, RunRow, json_columns, field_to_column, insert_run_row,
  change_rows,
}

-- The columns of a new row: those of these names that are given, as they are.
unfoldable pub given : String → Value → Fields → Value
unfolding get
given name default fields = get_or default (get name fields)

module _ (max_result_json_bytes : ℕ) (dumps : Value → String) (byte_length : String → ℕ)
    (now : String) where
  unfoldable pub to_json : Value → Value
  to_json null = null
  to_json v = str (dumps v)

  truncated_tool : Value → Value
  unfolding get get_str prefix
  truncated_tool (obj t) = obj (
      field "tool" (get_or (str "") (get "tool" t)) (
        field "args_summary" (str (prefix 200 (get_str "" "args" t)))
          (field "result_truncated" (bool true) end)))
  truncated_tool t = obj (
      field "tool" (str (to_str t))
        (field "args_summary" (str "") (field "result_truncated" (bool true) end)))

  truncated_tools : Items → Items
  unfolding truncated_tool
  truncated_tools nil = nil
  truncated_tools (cons t tools) = cons (truncated_tool t) (truncated_tools tools)

  -- The dict with its tool history cut, when that can be iterated.
  truncated_dict : Fields → SqlResult Value
  unfolding get put items_of truncated_tools
  truncated_dict result = elim (items_of (get_or (arr nil) (get "tools_used" result))) [
    | none ↦ raised type_error
    | some tools ↦ ok (obj (put "tools_used" (arr (truncated_tools tools)) result))
  ]

  truncated_result : Value → SqlResult Value
  unfolding dict_of truncated_dict
  truncated_result v = elim (dict_of v) [ raised e ↦ raised e | ok result ↦ truncated_dict result ]

  is_oversized : Value → Bool
  is_oversized null = false
  is_oversized v = ltb max_result_json_bytes (byte_length (dumps v))

  -- The result that is stored.
  unfoldable pub bounded_result : Value → SqlResult Value
  unfolding is_oversized truncated_result
  bounded_result v = let cut = truncated_result v in if is_oversized v then cut else ok v

  unfoldable pub new_columns : String → Value → Fields → Fields
  unfolding given to_json
  new_columns status result fields = field "status" (str status) (
      field "user_input" (given "user_input" null fields) (
        field "prior_context_json" (to_json (given "prior_context" null fields)) (
          field "client_ip" (given "client_ip" null fields) (
            field "request_headers_json" (to_json (given "request_headers" null fields)) (
              field "result_json" (to_json result) (
                field "created_at" (str now) (
                  field "completed_at" null (
                    field "missions_completed" (given "missions_completed" (int (pos 0)) fields) (
                      field "tools_used_json" (to_json (given "tools_used" null fields))
                        end)))))))))

  unfoldable pub save_run : String → String → Fields → List RunRow → SqlResult (List RunRow)
  unfolding bounded_result given new_columns insert_run_row
  save_run run_id status fields rows = elim (bounded_result (given "result" null fields)) [
    | raised e ↦ raised e
    | ok result ↦
        insert_run_row record { run_id = run_id; columns = new_columns status result fields } rows
  ]

  -- The values of the SET clauses.
  unfoldable pub set_clauses : Fields → Fields
  unfolding field_to_column contains to_json
  set_clauses end = end
  set_clauses (field key val fields) =
      let col = field_to_column key in
      field col (if contains json_columns col then to_json val else val) (set_clauses fields)

  unfoldable pub update_run : String → Fields → List RunRow → SqlResult (List RunRow)
  unfolding set_clauses change_rows
  update_run run_id fields rows = change_rows run_id (set_clauses fields) rows

-- ===== src/Context/Artifacts.antt =====
-- orchestration/langgraph/context_manager.py: the artifacts and the key fields that are taken from a
-- tool's result. `json.dumps` is a parameter.
use agentic_workflows.Base.{ℕ, String, Option, none, some, List, [], ◌∷◌, ◌++◌, if◌then◌else◌, ◌==◌}
use agentic_workflows.Base.Text.{prefix}
use agentic_workflows.Values.{Value, null, str, obj, Fields, get, has, truthy, to_str, get_str}
use agentic_workflows.Context.{ArtifactRecord, Texts}

artifact : String → String → String → ℕ → ArtifactRecord
artifact tool key value mission_id = record {
  key = key;
  value = value;
  source_tool = tool;
  source_mission_id = mission_id;
}

-- args.get("path", "") is truthy
extract_write_file : Fields → ℕ → List ArtifactRecord
unfolding artifact
extract_write_file args mission_id = elim (get "path" args) [
  | none ↦ []
  | some v ↦ if truthy v then artifact "write_file" "file_path" (to_str v) mission_id ∷ [] else []
]

-- result.get("sorted", result.get("result"))
sorted_value : Fields → Option Value
sorted_value result = elim (get "sorted" result) [
  | none ↦ not_null (get "result" result)
  | some v ↦ not_null (some v)
]
  where
    not_null : Option Value → Option Value
    not_null (some null) = none
    not_null o = o

-- The fields of these names that are there, as texts.
present_fields : List String → Fields → Texts
present_fields [] result = []
present_fields (name ∷ names) result =
    let rest = present_fields names result in
    elim (get name result) [ none ↦ rest | some v ↦ (name, to_str v) ∷ rest ]

module _ (dumps : Value → String) where
  extract_data_analysis : Fields → ℕ → List ArtifactRecord
  unfolding artifact
  extract_data_analysis result mission_id =
      elim (get "mean" result) [
        | none ↦ []
        | some v ↦ artifact "data_analysis" "mean" (to_str v) mission_id ∷ []
      ]
      ++ elim (get "outliers" result) [
        | none ↦ []
        | some v ↦ artifact "data_analysis" "outliers" (dumps v) mission_id ∷ []
      ]

  text_or_json : Value → String
  text_or_json (str s) = s
  text_or_json v = dumps v

  extract_sort_array : Fields → ℕ → List ArtifactRecord
  unfolding artifact sorted_value text_or_json
  extract_sort_array result mission_id = elim (sorted_value result) [
    | none ↦ []
    | some v ↦ artifact "sort_array" "sorted_result" (text_or_json v) mission_id ∷ []
  ]

  unfoldable pub extract_artifacts : String → Fields → Fields → ℕ → List ArtifactRecord
  unfolding extract_write_file extract_data_analysis extract_sort_array artifact
  extract_artifacts tool result args mission_id =
      if has "error" result
      then []
      else if tool == "write_file"
      then extract_write_file args mission_id
      else if tool == "data_analysis"
      then extract_data_analysis result mission_id
      else if tool == "sort_array"
      then extract_sort_array result mission_id
      else artifact tool "result" (prefix 200 (dumps (obj result))) mission_id ∷ []

  unfoldable pub extract_summary_from_result : String → Fields → Texts
  unfolding present_fields sorted_value
  extract_summary_from_result tool result =
      if tool == "write_file"
      then ("outcome", get_str "" "result" result) ∷ []
      else if tool == "data_analysis"
      then present_fields ("mean" ∷ "median" ∷ "outliers" ∷ "non_outliers" ∷ []) result
      else if tool == "sort_array"
      then elim (sorted_value result) [ none ↦ [] | some v ↦ ("sorted", to_str v) ∷ [] ]
      else ("result", prefix 200 (dumps (obj result))) ∷ []

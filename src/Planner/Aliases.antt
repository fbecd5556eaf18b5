-- ===== src/Planner/Aliases.antt =====
-- `normalize_tool_args` of orchestration/langgraph/fallback_planner.py.
pub mod Laws
use agentic_workflows.Base.{
  String, Bool, true, false, not, ◌&&◌, Option, none, some, List, [], ◌∷◌, if◌then◌else◌, all, any,
  contains,
}
use agentic_workflows.Values.{Value, int, str, arr, Fields, get, put, has, remove, is_str, is_list}

-- What the value under the alias has to be.
pub data Kind : Type 0 where
  any_kind list_kind str_kind : Kind

of_kind : Kind → Option Value → Bool
unfolding is_list is_str
of_kind any_kind none = false
of_kind any_kind (some v) = true
of_kind list_kind v = is_list v
of_kind str_kind v = is_str v

pub record Rename : Type 0 where
  pub key : String
  pub alias : String
  pub kind : Kind

-- if key not in normalized and isinstance(normalized.get(alias), kind)
fires : Rename → Fields → Bool
unfolding has get of_kind
fires r d = not (has r.key d) && of_kind r.kind (get r.alias d)

-- normalized[key] = normalized.pop(alias), where the alias holds the value
move : Rename → Option Value → Fields → Fields
unfolding put remove
move r none d = d
move r (some v) d = put r.key v (remove r.alias d)

rename : Rename → Fields → Fields
unfolding fires move
rename r d = if fires r d then move r (get r.alias d) d else d

rename_all : List Rename → Fields → Fields
unfolding rename
rename_all [] d = d
rename_all (r ∷ rs) d = rename_all rs (rename r d)

abbrev list_as : String → String → Rename
list_as key alias = record { key = key; alias = alias; kind = list_kind }

abbrev str_as : String → String → Rename
str_as key alias = record { key = key; alias = alias; kind = str_kind }

abbrev any_as : String → String → Rename
any_as key alias = record { key = key; alias = alias; kind = any_kind }

-- The aliases of the arguments, in the order that they are tried, by the tools that have them.
abbrev pub renames : List (List String × List Rename)
renames =
    ("sort_array" ∷ [], list_as "items" "array" ∷ list_as "items" "values" ∷ [])
    ∷ ("repeat_message" ∷ [], str_as "message" "text" ∷ [])
    ∷ ("string_ops" ∷ [], str_as "operation" "op" ∷ [])
    ∷ (
      "write_file" ∷ [],
      str_as "path" "file_path"
          ∷ str_as "path" "filename"
          ∷ str_as "content" "text"
          ∷ str_as "content" "data"
          ∷ [],
    )
    ∷ ("memoize" ∷ [], any_as "value" "data" ∷ [])
    ∷ ("text_analysis" ∷ [], str_as "operation" "op" ∷ [])
    ∷ ("data_analysis" ∷ [], list_as "numbers" "data" ∷ list_as "numbers" "values" ∷ [])
    ∷ ("regex_matcher" ∷ [], str_as "pattern" "regex" ∷ [])
    ∷ ("outline_code" ∷ [], str_as "path" "file_path" ∷ [])
    ∷ (
      "list_directory" ∷ "search_content" ∷ "search_files" ∷ [],
      str_as "path" "directory" ∷ str_as "pattern" "glob" ∷ str_as "pattern" "query" ∷ [],
    )
    ∷ ("compare_texts" ∷ [], str_as "text1" "left" ∷ str_as "text2" "right" ∷ [])
    ∷ (
      "file_manager" ∷ [],
      str_as "source" "src"
          ∷ str_as "destination" "dst"
          ∷ str_as "destination" "dest"
          ∷ str_as "operation" "op"
          ∷ [],
    )
    ∷ (
      "format_converter" ∷ [],
      str_as "from_format" "input_format" ∷ str_as "to_format" "output_format" ∷ [],
    )
    ∷ (
      "encode_decode" ∷ "classify_intent" ∷ "validate_data" ∷ "retrieve_run_context" ∷ [],
      str_as "operation" "op" ∷ [],
    )
    ∷ []

-- The branch of the tool: the first whose names have it.
renames_for : List (List String × List Rename) → String → List Rename
unfolding contains
renames_for [] tool_name = []
renames_for ((names, rules) ∷ table) tool_name =
    let rest = renames_for table tool_name in if contains names tool_name then rules else rest

unfoldable pub normalize_tool_args : String → Fields → Fields
unfolding renames_for rename_all
normalize_tool_args tool_name args = rename_all (renames_for renames tool_name) args

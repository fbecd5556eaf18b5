-- ===== src/Memo/Policy.antt =====
-- orchestration/langgraph/policy.py: `MemoizationPolicy`. `hash_json` is a parameter.
use agentic_workflows.Base.{
  ℕ, String, Bool, true, false, not, ◌&&◌, none, some, ltb, leb, if◌then◌else◌, ◌==◌,
}
use agentic_workflows.Base.Text.{strip, lower, empty, size, contains_text, count_char, prefix}
use agentic_workflows.Values.{Value, obj, Fields, end, field, get, to_str, get_str}
use Prim.Native.String.{◌++◌ as str_append}

abbrev pub max_policy_retries : ℕ
max_policy_retries = 2

-- Whether the result itself says that something was written.
reports_write : Fields → Bool
reports_write result = elim (get "result" result) [
  | none ↦ false
  | some v ↦ contains_text (lower (to_str v)) "wrote"
]

unfoldable pub requires_memoization : String → Fields → Fields → Bool
unfolding reports_write
requires_memoization tool_name args result =
    let path = lower (get_str "" "path" args) in
    let content = get_str "" "content" args in
    if not (tool_name == "write_file")
    then false
    else if contains_text path "fib"
    then true
    else if leb 400 (size content)
    then true
    else if ltb 20 (count_char "," content)
    then true
    else if reports_write result
    then ltb 0 (size content) && leb 200 (size content)
    else false

unfoldable pub suggested_memo_key : (Value → String) → String → Fields → Fields → String
suggested_memo_key hash_json tool_name args result =
    let path = strip (get_str "" "path" args) in
    if tool_name == "write_file" && not (empty path)
    then str_append "write_file:" path
    else str_append tool_name (
        str_append ":"
          (prefix 12 (hash_json (obj (field "args" (obj args) (field "result" (obj result) end))))))

-- ===== src/Storage/Cursors.antt =====
-- storage/mission_context_store.py: the cursors of chunked reads, in the dict that the store keeps when
-- it has no pool of connections.
use agentic_workflows.Base.{
  String, Option, none, some, List, [], ◌∷◌, if◌then◌else◌, ◌==◌, select, map,
}
use agentic_workflows.Base.Text.{join}
use agentic_workflows.Values.{Value, str, Fields, end, field, get, get_str}

-- _cursors: the entries under their key, in the order of insertion
abbrev pub Cursors : Type 0
Cursors = List (String × Fields)

unfoldable pub cursor_key : String → String → String → String → String
unfolding join
cursor_key run_id mission_id tool_name key = join ":" (run_id ∷ mission_id ∷ tool_name ∷ key ∷ [])

unfoldable pub put_cursor : String → Fields → Cursors → Cursors
put_cursor k entry [] = (k, entry) ∷ []
put_cursor k entry ((j, other) ∷ cursors) =
    let rest = put_cursor k entry cursors in
    if j == k then (k, entry) ∷ cursors else (j, other) ∷ rest

-- _cursors.pop(k, None)
unfoldable pub pop_cursor : String → Cursors → Cursors
pop_cursor k [] = []
pop_cursor k ((j, entry) ∷ cursors) =
    let rest = pop_cursor k cursors in if j == k then rest else (j, entry) ∷ rest

unfoldable pub cursor_at : String → Cursors → Option Fields
cursor_at k [] = none
cursor_at k ((j, entry) ∷ cursors) =
    let rest = cursor_at k cursors in if j == k then some entry else rest

unfoldable pub upsert_cursor : String → String → String → String → Value → Value → Cursors → Cursors
unfolding put_cursor cursor_key
upsert_cursor run_id mission_id tool_name key cursor total cursors =
    put_cursor (cursor_key run_id mission_id tool_name key)
      (field "run_id" (str run_id) (
        field "mission_id" (str mission_id) (
          field "tool_name" (str tool_name)
            (field "key" (str key) (field "next_offset" cursor (field "total" total end))))))
      cursors

unfoldable pub get_cursor : String → String → String → String → Cursors → Option Value
unfolding cursor_at cursor_key get
get_cursor run_id mission_id tool_name key cursors =
    elim (cursor_at (cursor_key run_id mission_id tool_name key) cursors) [
      | none ↦ none
      | some entry ↦ get "next_offset" entry
    ]

unfoldable pub get_active_cursors : String → Cursors → List Fields
unfolding select get_str
get_active_cursors run_id cursors =
    map (λ entry. entry.1) (select (λ entry. get_str "" "run_id" entry.1 == run_id) cursors)

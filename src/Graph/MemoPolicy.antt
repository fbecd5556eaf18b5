-- ===== src/Graph/MemoPolicy.antt =====
-- `_enforce_memo_policy` of orchestration/langgraph/graph.py: the node that asks for a memoize call
-- after a heavy write. `hash_json` is the hash of the suggested keys.
pub mod Laws
use Prim.Native.String.{◌++◌ as str_append}
use agentic_workflows.Base.{◌+◌, min, String, ap, true, ◌||◌, [], ◌∷◌, ◌++◌, if◌then◌else◌, ◌==◌}
use agentic_workflows.Base.Text.{empty}
use agentic_workflows.Values.{Value, bool, int, str, end, get, put, has, get_str, get_dict}
use agentic_workflows.Missions.{RunState}
use agentic_workflows.Memo.Policy.{requires_memoization, suggested_memo_key}
use agentic_workflows.Graph.Checkpoints.{CheckpointStore, save}

infixr 65 ◌+++◌
abbrev ◌+++◌ : String → String → String
◌+++◌ = str_append

-- The state in which a memoize call with the key is waited for.
demand_memo : String → String → RunState → RunState
unfolding put
demand_memo tool key state = record state {
  policy_flags =
      put "memo_required_reason" (str ("heavy deterministic result from " +++ tool))
        (put "memo_required_key" (str key) (put "memo_required" (bool true) state.policy_flags));
  messages =
      state.messages
      ++ record {
        role = "system";
        content =
            "Policy check: memoize required for " +++ tool
            +++ ". Next action must be memoize with key='" +++ key
            +++ "', value as the relevant output, and run_id='" +++ state.run_id +++ "'.";
      }
        ∷ [];
}

after_tool : (Value → String) → String → RunState → RunState
unfolding requires_memoization suggested_memo_key demand_memo get_dict
after_tool hash_json tool state =
    let args = get_dict "last_tool_args" state.policy_flags in
    let result = get_dict "last_tool_result" state.policy_flags in
    if requires_memoization tool args result
    then demand_memo tool (suggested_memo_key hash_json tool args result) state
    else state

unfoldable pub enforce_memo_policy :
    (Value → String)
    → (RunState → String)
    → (String → RunState)
    → String
    → RunState
    → CheckpointStore
    → RunState × CheckpointStore
unfolding after_tool save get_str
enforce_memo_policy hash_json dumps loads now state store =
    let tool = get_str "" "last_tool_name" state.policy_flags in
    let next = after_tool hash_json tool state in
    if empty tool || tool == "memoize" || tool == "retrieve_memo"
    then (state, store)
    else (next, save dumps loads now next.run_id next.step "policy" next store)

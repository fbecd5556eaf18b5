-- ===== src/Graph/MemoPolicy/Laws.antt =====
-- The policy's demand, and the fallback that meets it.
use Prim.Native.String.{◌++◌ as str_append}
use Prim.Native.Char.{Char}
use Prim.Native.String.append
use agentic_workflows.Base.{
  String, ◌≡◌, refl, ap, ◌∙◌, Bool, true, false, not, ◌||◌, none, some, arith, if◌then◌else◌, ◌==◌,
  eq_iff,
}
use agentic_workflows.Base.Text.{lstrip, rstrip, is_space, strip, empty, prefix}
use agentic_workflows.Values.{
  Value, bool, str, obj, Fields, end, field, get, put, truthy, to_str, get_str, get_dict,
}
use agentic_workflows.Values.{get-put}
use agentic_workflows.Missions.{RunState}
use agentic_workflows.Memo.Policy.{requires_memoization, suggested_memo_key}
use agentic_workflows.Graph.Checkpoints.{CheckpointStore}
use agentic_workflows.Graph.MemoPolicy.{demand_memo, after_tool, enforce_memo_policy}
use agentic_workflows.Planner.Fallback.{
  Fallback, acts, ◌or_else◌, memo_required, memo_key, memo_call, memo_action, planned_action,
  deterministic_fallback_action,
}

-- A proposal to call memoize under the key.
abbrev pub IsMemoize : String → Fallback → Type 0
IsMemoize key f =
    (a : Fields) × (f ≡ acts a)
    × (get_str "" "tool_name" a ≡ "memoize")
    × (get_str "" "key" (get_dict "args" a) ≡ key)

module _ (tool key : String) (s : RunState) where
  abbrev flags : Fields
  flags = (demand_memo tool key s).policy_flags

  -- What a demand leaves in the flags.
  get-flags :
      (get "memo_required" flags ≡ some (bool true))
      × (get "memo_required_key" flags ≡ some (str key))
  unfolding demand_memo
  get-flags =
      let required = put "memo_required" (bool true) s.policy_flags in
      let keyed = put "memo_required_key" (str key) required in
      let reason = str (str_append "heavy deterministic result from " tool) in
      (
        get-put "memo_required_reason" "memo_required" reason keyed
            ∙ get-put "memo_required_key" "memo_required" (str key) required
            ∙ get-put "memo_required" "memo_required" (bool true) s.policy_flags,
        get-put "memo_required_reason" "memo_required_key" reason keyed
            ∙ get-put "memo_required_key" "memo_required_key" (str key) required,
      )

  required : memo_required flags ≡ true
  unfolding memo_required truthy
  required = ap (λ v. elim v [ none ↦ false | some v ↦ truthy v ]) get-flags.0

  key_of_flags : memo_key flags ≡ strip key
  unfolding memo_key get_str to_str
  key_of_flags = ap (λ v. strip (elim v [ none ↦ "" | some v ↦ to_str v ])) get-flags.1

  memo_action-demand :
      empty (strip key) ≡ false → IsMemoize (strip key) (memo_action (demand_memo tool key s))
  unfolding memo_action memo_call get_str get_dict to_str
  memo_action-demand h = (
    memo_call (demand_memo tool key s) (strip key),
    ground (arith, required, key_of_flags, h),
    refl,
    refl,
  )

append_cons :
    (c : Char) (s t : String) → str_append (String.◌∷◌ c s) t ≡ String.◌∷◌ c (str_append s t)
append_cons c s t = λ i. append.cons c s t i

-- The key of a write is not blank.
key_not_blank :
    (hash_json : Value → String) (args result : Fields)
    → empty (strip (suggested_memo_key hash_json "write_file" args result)) ≡ false
unfolding suggested_memo_key strip lstrip rstrip is_space
key_not_blank hash_json args result = by_path (not (empty (strip (get_str "" "path" args))))
  where
    by_path :
        (b : Bool)
        → empty (
            strip (
              if b
              then str_append "write_file:" (strip (get_str "" "path" args))
              else str_append "write_file" (
                  str_append ":" (
                    prefix 12 (
                      hash_json
                        (obj (field "args" (obj args) (field "result" (obj result) end))))))))
          ≡ false
    by_path true =
        ap (λ k. empty (strip k)) (append_cons "w" "rite_file:" (strip (get_str "" "path" args)))
    by_path false =
        ap (λ k. empty (strip k))
          (append_cons "w" "rite_file" (
            str_append ":" (
              prefix 12
                (hash_json (obj (field "args" (obj args) (field "result" (obj result) end)))))))

requires_write :
    (tool : String) (args result : Fields)
    → requires_memoization tool args result ≡ true
    → tool ≡ "write_file"
unfolding requires_memoization
requires_write tool args result h = (eq_iff tool "write_file").0 (ground (arith, h))

module _ (hash_json : Value → String) (dumps : RunState → String) (loads : String → RunState)
    (now : String) (s : RunState) (store : CheckpointStore) where
  abbrev last_tool : String
  last_tool = get_str "" "last_tool_name" s.policy_flags

  abbrev last_args : Fields
  last_args = get_dict "last_tool_args" s.policy_flags

  abbrev last_result : Fields
  last_result = get_dict "last_tool_result" s.policy_flags

  abbrev suggested : String
  suggested = suggested_memo_key hash_json last_tool last_args last_result

  enforce-demand :
      requires_memoization last_tool last_args last_result ≡ true
      → (enforce_memo_policy hash_json dumps loads now s store).0
        ≡ demand_memo last_tool suggested s
  unfolding enforce_memo_policy after_tool
  enforce-demand h =
      let e = requires_write last_tool last_args last_result h in
      let f : empty last_tool || last_tool == "memoize" || last_tool == "retrieve_memo" ≡ false =
        ap (λ t. empty t || t == "memoize" || t == "retrieve_memo") e in
      ground (arith, f, h)

  enforce-same :
      requires_memoization last_tool last_args last_result ≡ false
      → (enforce_memo_policy hash_json dumps loads now s store).0 ≡ s
  unfolding enforce_memo_policy after_tool
  enforce-same h = ground (arith, h)

  -- After a tool whose result must be memoized, the node leaves a state in which the fallback proposes
  -- to memoize it under the suggested key, whatever else is open; after any other it leaves the state
  -- as it was.
  pub policy_node_lem :
      (dumps_args : Fields → String)
      → let s' = (enforce_memo_policy hash_json dumps loads now s store).0 in
        if requires_memoization last_tool last_args last_result
        then IsMemoize (strip suggested) (deterministic_fallback_action dumps_args s')
        else (s' ≡ s)
  unfolding deterministic_fallback_action
  policy_node_lem dumps_args = by_test (requires_memoization last_tool last_args last_result) refl
    where
      demanded :
          requires_memoization last_tool last_args last_result ≡ true
          → IsMemoize (strip suggested) (
              deterministic_fallback_action dumps_args
                (enforce_memo_policy hash_json dumps loads now s store).0)
      demanded h =
          let e = requires_write last_tool last_args last_result h in
          let blank : empty (strip suggested) ≡ false =
            ap (λ t. empty (strip (suggested_memo_key hash_json t last_args last_result))) e
            ∙ key_not_blank hash_json last_args last_result in
          let (a, proposed, tool, key) = memo_action-demand last_tool suggested s blank in
          (
            a,
            ap (deterministic_fallback_action dumps_args) (enforce-demand h)
                ∙ ap (λ f. f or_else planned_action dumps_args (demand_memo last_tool suggested s))
                    proposed,
            tool,
            key,
          )

      by_test :
          (b : Bool)
          → requires_memoization last_tool last_args last_result ≡ b
          → let s' = (enforce_memo_policy hash_json dumps loads now s store).0 in
            if b
            then IsMemoize (strip suggested) (deterministic_fallback_action dumps_args s')
            else (s' ≡ s)
      by_test true h = demanded h
      by_test false h = enforce-same h

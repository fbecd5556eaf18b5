-- ===== src/Graph/Execute/Gate/Laws.antt =====
-- What the guards let pass, and what they leave when they stop a call.
use agentic_workflows.Base.{
  ltb, eq_iff, String, ◌≡◌, refl, ◌⊎◌, inl, Bool, true, false, not, ◌&&◌, arith, if◌then◌else◌,
  contains, ◌==◌,
}
use agentic_workflows.Graph.Finish.{get_count}
use agentic_workflows.Memo.Policy.{max_policy_retries}
use agentic_workflows.Graph.Execute.{
  progress_hint, done, empty, with_run, count_retry, checkpoint, say, Session, Step, raised, Env,
}
use agentic_workflows.Values.{get_str, Fields}
use agentic_workflows.Routing.Directives.{is_tool_allowed_for_specialist}
use agentic_workflows.Graph.Execute.Frame.{core-mark_next, core-if, core, core-start_mission}
use agentic_workflows.Graph.Execute.Lookup.{auto_lookup_before_write}
use agentic_workflows.Graph.Execute.Gate.{
  policy_text, must_look_up, get_dict, normalize_tool_args, scope_violation, call_args,
  mission_index_of, unknown_tool, policy_retry, memo_lookup_candidates, start_mission,
  all_missions_completed, next_incomplete_mission, stopped, lookup_hit, refused, duplicate,
  action_tool, specialist_for, is_cursor_resume, signature_of, check_duplicate, check_policy,
  check_lookup, check_scope,
}
use agentic_workflows.Memo.Keys.{mark_next_mission_complete_from_memo_hit}
use agentic_workflows.Planner.Fallback.{memo_required}
use agentic_workflows.Graph.Execute.Gate.Traces.{
  if_rule, Looked, Raises, lookup_keys_rule, Stopped, Stopped-if, Looked-core, no_lookup,
}

fresh_or_resumed :
    (resumed seen : Bool) → (not resumed && seen) ≡ false → (resumed ≡ true) ⊎ (seen ≡ false)
fresh_or_resumed resumed seen e = ground arith

module _ {W : Type 0} where
  module _ (env : Env W) where
    -- A call that every guard lets pass, and the state in which it is made.
    abbrev pub Passed : Session W → Fields → String → Fields → Session W → Type 0
    Passed s action tool args t =
        Looked s t
        × (tool ≡ action_tool action)
        × (is_tool_allowed_for_specialist (specialist_for s.active_specialist) tool ≡ true)
        × (contains env.tools tool ≡ true)
        × ((memo_required t.run.policy_flags ≡ false) ⊎ (tool ≡ "memoize"))
        × ((is_cursor_resume action tool ≡ true)
            ⊎ (contains t.run.seen_tool_signatures (signature_of env tool args) ≡ false))

    refused-Stopped :
        (s t : Session W) (node text : String) → Looked s t → Stopped s (refused env node text t)
    unfolding refused stopped checkpoint say
    refused-Stopped s t node text l = (l, refl)

    duplicate-Stopped :
        (s t : Session W) (tool : String) → Looked s t → Stopped s (duplicate env tool t)
    unfolding duplicate stopped refused checkpoint say count_retry get_str
    duplicate-Stopped s t tool l =
        Stopped-if s (empty (next_incomplete_mission t.run) && all_missions_completed t.run) _ _
          (l, refl) (Stopped-if s _ _ _ (l, refl) (l, refl))

    scope_violation-Stopped :
        (s : Session W) (specialist tool : String)
        → Stopped s (scope_violation env specialist tool s)
    unfolding scope_violation
    scope_violation-Stopped s specialist tool =
        refused-Stopped s s "execute_scope_violation" _ (no_lookup s)

    lookup_hit-Stopped :
        (s t : Session W) (tool : String) (hit : Fields)
        → Looked s t
        → Stopped s (lookup_hit env tool hit t)
    unfolding lookup_hit
    lookup_hit-Stopped s t tool hit l =
        refused-Stopped s
          (if tool == "write_file"
            then with_run (mark_next_mission_complete_from_memo_hit t.run hit) t
            else t)
          "execute_lookup_hit_skip" _
          (Looked-core s t
            (if tool == "write_file"
              then with_run (mark_next_mission_complete_from_memo_hit t.run hit) t
              else t)
            (core-if (tool == "write_file")
              (with_run (mark_next_mission_complete_from_memo_hit t.run hit) t) t (core t.run)
              (core-mark_next t.run hit) refl)
            l)

    module _ (s : Session W) (action : Fields) (next : String → Fields → Session W → Step W)
        (P : Step W → Type 0) (on_raise : (e : String) → Raises env e → P (raised e))
        (on_stop : (t : Session W) → Stopped s t → P (done t))
        (on_go : (tool : String) (args : Fields) (t : Session W)
          → Passed s action tool args t
          → P (next tool args t)) where
      check_duplicate_rule :
          (args : Fields) (t : Session W)
          → Looked s t
          → is_tool_allowed_for_specialist (specialist_for s.active_specialist) (action_tool action)
            ≡ true
          → contains env.tools (action_tool action) ≡ true
          → (memo_required t.run.policy_flags ≡ false) ⊎ (action_tool action ≡ "memoize")
          → P (check_duplicate env next action (action_tool action) args t)
      unfolding check_duplicate
      check_duplicate_rule args t l allowed known free =
          let tool = action_tool action in
          let resumed = is_cursor_resume action tool in
          let seen = contains t.run.seen_tool_signatures (signature_of env tool args) in
          if_rule P (not resumed && seen) (done (duplicate env tool t)) (next tool args t)
            (λ e. on_stop (duplicate env tool t) (duplicate-Stopped s t tool l))
            (λ e.
              on_go tool args t (l, refl, allowed, known, free, fresh_or_resumed resumed seen e))

      policy_retry_rule : (t : Session W) → Looked s t → P (policy_retry env t)
      unfolding policy_retry count_retry
      policy_retry_rule t l =
          let counted = count_retry "memo_policy" t in
          let left = refused env "execute_policy_retry" (policy_text env t) counted in
          if_rule P (ltb max_policy_retries (get_count "memo_policy" counted.run.retry_counts))
            (raised "MemoizationPolicyViolation") (done left)
            (λ e. on_raise "MemoizationPolicyViolation" (inl refl))
            (λ e.
              on_stop left (refused-Stopped s counted "execute_policy_retry" (policy_text env t) l))

      check_policy_rule :
          (args : Fields) (t : Session W)
          → Looked s t
          → is_tool_allowed_for_specialist (specialist_for s.active_specialist) (action_tool action)
            ≡ true
          → P (check_policy env next action (action_tool action) args t)
      unfolding check_policy unknown_tool refused
      check_policy_rule args t l allowed =
          let tool = action_tool action in
          let waits = memo_required t.run.policy_flags && not (tool == "memoize") in
          if_rule P waits (policy_retry env t)
            (if not (contains env.tools tool)
              then done (unknown_tool env tool t)
              else check_duplicate env next action tool (call_args tool args t.run) t)
            (λ e. policy_retry_rule t l)
            (λ e.
              if_rule P (not (contains env.tools tool)) (done (unknown_tool env tool t))
                (check_duplicate env next action tool (call_args tool args t.run) t)
                (λ f.
                  on_stop (unknown_tool env tool t)
                    (refused-Stopped s t "execute_unknown_tool" _ l))
                (λ f.
                  check_duplicate_rule (call_args tool args t.run) t l allowed (ground arith)
                    (ground (arith, eq_iff tool "memoize"))))

      check_lookup_rule :
          (args : Fields) (t : Session W)
          → Looked s t
          → is_tool_allowed_for_specialist (specialist_for s.active_specialist) (action_tool action)
            ≡ true
          → P (check_lookup env next action (action_tool action) args t)
      unfolding check_lookup auto_lookup_before_write
      check_lookup_rule args t l allowed =
          let tool = action_tool action in
          let keys = memo_lookup_candidates env tool args in
          if_rule P (must_look_up tool keys t.run)
            (auto_lookup_before_write env keys (λ hit after. done (lookup_hit env tool hit after))
              (check_policy env next action tool args) t)
            (check_policy env next action tool args t)
            (λ e.
              lookup_keys_rule env P on_raise s (progress_hint t.run)
                (λ hit after. done (lookup_hit env tool hit after))
                (check_policy env next action tool args)
                (λ hit after looked. on_stop _ (lookup_hit-Stopped s after tool hit looked))
                (λ after looked. check_policy_rule args after looked allowed) keys t l)
            (λ e. check_policy_rule args t l allowed)

      -- However the guards end: with a raise, a state that a guard left, or a call that passed.
      pub check_scope_rule : P (check_scope env next action s)
      unfolding check_scope
      check_scope_rule =
          let tool = action_tool action in
          let specialist = specialist_for s.active_specialist in
          let started = start_mission (mission_index_of action s.run) s in
          if_rule P (not (is_tool_allowed_for_specialist specialist tool))
            (done (scope_violation env specialist tool s))
            (check_lookup env next action tool (normalize_tool_args tool (get_dict "args" action))
              started)
            (λ e.
              on_stop (scope_violation env specialist tool s)
                (scope_violation-Stopped s specialist tool))
            (λ e.
              check_lookup_rule (normalize_tool_args tool (get_dict "args" action)) started
                (Looked-core s s started (core-start_mission (mission_index_of action s.run) s)
                  (no_lookup s))
                (ground arith))

-- ===== src/Graph/Execute/Action/Ends.antt =====
-- What a call leaves in the records of a run: the entry in the history, the signatures and what is
-- pending.
use agentic_workflows.Base.{
  suc, String, ◌≡◌, refl, ap, ◌∙◌, Bool, true, ◌&&◌, Option, none, some, List, [], ◌∷◌, ◌++◌,
  if◌then◌else◌, length, ltb, ◌==◌,
}
use agentic_workflows.Base.Int.{ℤ}
use agentic_workflows.Values.{Fields, get_str}
use agentic_workflows.Missions.{ToolRecord}
use agentic_workflows.Graph.Execute.{
  count_retry, count_flag, get_count, checkpoint, with_pending, remember, emit_trace, say, done,
  Session, Step, raised, Env, log_call, call_tool,
}
use agentic_workflows.Graph.Execute.Lookup.{record_retrieve_memo_trace}
use agentic_workflows.Graph.Execute.Cache.{cache_write_file_inputs}
use agentic_workflows.Graph.Execute.Frame.{
  core, core-if, core-record_mission_tool_event, core-complete_missions, core-store_in_context,
  core-cache_write,
}
use agentic_workflows.Graph.Execute.Gate.{signature_of}
use agentic_workflows.Graph.Execute.Gate.Traces.{has_no_call, if_rule, call_tool_rule, Raises}
use agentic_workflows.Graph.Execute.Action.{
  validate_tool_result_for_active_mission, validation_fail_text, auto_args, requires_memoization,
  finish_action, hash_json, max_content_validation_retries, suggested_memo_key, end_refused,
  end_call, memoized, with_last, auto_memoized, judged_result, see, call_seen,
}
use agentic_workflows.Graph.Execute.Records.{
  index_arg, track_cursor, validation_failed, validator_pass, recorded, failed_result,
}

module _ {W : Type 0} (env : Env W) where
  abbrev pub entry_of : Session W → String → Fields → Fields → ToolRecord
  entry_of s tool args result = record {
    call = suc (length s.run.tool_history);
    tool = tool;
    args = args;
    result = result;
  }

  core-passed :
      (problem : Option String) (tool : String) (z : ℤ) (s : Session W)
      → core
          (elim problem as (λ o. Session W) [ none ↦ validator_pass env tool z s | some p ↦ s ]).run
        ≡ core s.run
  unfolding validator_pass emit_trace
  core-passed none tool z s = refl
  core-passed (some p) tool z s = refl

  core-recorded :
      (tool : String) (args result : Fields) (problem : Option String) (z : ℤ) (s : Session W)
      → core (recorded env tool args result problem z s).run ≡ (
        s.run.tool_history ++ entry_of s tool args result ∷ [],
        s.run.seen_tool_signatures,
        s.run.pending_action,
      )
  unfolding recorded log_call say emit_trace
  core-recorded tool args result problem z s =
      let logged = log_call tool args result s in
      let kept = core-record_mission_tool_event logged.run tool result (index_arg z) (some args) in
      core-store_in_context env.dumps 800 tool result args _
      ∙ core-complete_missions s.run.mission_reports _ _
      ∙ core-passed problem tool z _
      ∙ kept

  -- A node's end with this history and these signatures, and no call pending.
  abbrev pub Ended : List ToolRecord → List String → Step W → Type 0
  Ended h seen (raised e) = Raises env e
  Ended h seen (done t) =
      (t.run.tool_history ≡ h)
      × (t.run.seen_tool_signatures ≡ seen)
      × (has_no_call t.run.pending_action ≡ true)

  Ended-core :
      (h : List ToolRecord) (seen : List String) (p : Option Fields) (t : Session W)
      → core t.run ≡ (h, seen, p)
      → has_no_call p ≡ true
      → Ended h seen (done t)
  Ended-core h seen p t e q = (ap (λ c. c.0) e, ap (λ c. c.1) e, ap (λ c. has_no_call c.2) e ∙ q)

  end_refused-Ended :
      (problem : String) (s : Session W)
      → Ended s.run.tool_history s.run.seen_tool_signatures (done (end_refused env problem s))
  unfolding end_refused with_last checkpoint get_str
  end_refused-Ended problem s = (
    refl,
    refl,
    if_rule (λ (p : Option Fields). has_no_call p ≡ true)
        (ltb max_content_validation_retries (get_count "content_validation" s.run.retry_counts))
        (some (finish_action (validation_fail_text env problem))) none (λ e. refl) (λ e. refl),
  )

  core-memoized :
      (tool : String) (args result : Fields) (s : Session W)
      → core (memoized env tool args result s).run ≡ core s.run
  unfolding memoized remember
  core-memoized tool args result s = core-if _ _ s (core s.run) refl refl

  core-auto_memoized :
      (key : String) (result : Fields) (s : Session W)
      → core (auto_memoized env key result s).run ≡ core s.run
  unfolding auto_memoized remember
  core-auto_memoized key result s = core-if _ _ s (core s.run) refl refl

  core-cached :
      (b : Bool) (args : Fields) (s : Session W)
      → core (if b then cache_write_file_inputs env args s else s).run ≡ core s.run
  core-cached b args s = core-if b _ s (core s.run) (core-cache_write env args s) refl

  core-call_end :
      (b : Bool) (tool : String) (args result : Fields) (s : Session W)
      → core
          (with_pending none (
            with_last env tool args result (
              memoized env tool args result
                (if b then cache_write_file_inputs env args s else s)))).run
        ≡ (s.run.tool_history, s.run.seen_tool_signatures, none)
  unfolding with_last
  core-call_end b tool args result s =
      let cached = if b then cache_write_file_inputs env args s else s in
      ap (λ c. (c.0, c.1, none)) (core-memoized tool args result cached ∙ core-cached b args s)

  end_call-Ended :
      (tool : String) (args result : Fields) (s : Session W)
      → Ended s.run.tool_history s.run.seen_tool_signatures (end_call env tool args result s)
  unfolding end_call checkpoint
  end_call-Ended tool args result s =
      let b = tool == "write_file" in
      let ended = with_pending none (
        with_last env tool args result
          (memoized env tool args result (if b then cache_write_file_inputs env args s else s))) in
      let h = s.run.tool_history in
      let seen = s.run.seen_tool_signatures in
      let key =
        suggested_memo_key (hash_json env.dumps env.loads env.sha256 env.now) tool args result in
      if_rule (Ended h seen) (b && requires_memoization tool args result)
        (call_tool env "memoize" (auto_args env key result ended)
          (λ answer after. done (checkpoint env "execute" (auto_memoized env key answer after)))
          ended)
        (done (checkpoint env "execute" ended))
        (λ e.
          call_tool_rule env (Ended h seen) (λ problem why. why) "memoize"
            (auto_args env key result ended)
            (λ answer after. done (checkpoint env "execute" (auto_memoized env key answer after)))
            ended
            (λ answer memos world.
              Ended-core h seen none
                (auto_memoized env key answer (record ended { memos = memos; world = world }))
                (core-auto_memoized key answer (record ended { memos = memos; world = world })
                  ∙ core-call_end b tool args result s)
                refl))
        (λ e. Ended-core h seen none ended (core-call_end b tool args result s) refl)

  -- A node's end after a call of the tool with the arguments: the call is the last in the history.
  abbrev pub Logged : Session W → String → Fields → Step W → Type 0
  Logged s tool args (raised e) = Raises env e
  Logged s tool args (done t) =
      (result : Fields) × Ended (s.run.tool_history ++ entry_of s tool args result ∷ [])
        s.run.seen_tool_signatures (done t)

  Logged-Ended :
      (s : Session W) (tool : String) (args result : Fields) (step : Step W)
      → Ended
          (s.run.tool_history ++ entry_of s tool args result ∷ [])
          s.run.seen_tool_signatures
          step
      → Logged s tool args step
  Logged-Ended s tool args result (raised e) h = h
  Logged-Ended s tool args result (done t) h = (result, h)

  end_by_equal :
      {h k : List ToolRecord} {seen known : List String} (step : Step W)
      → h ≡ k
      → seen ≡ known
      → Ended h seen step
      → Ended k known step
  end_by_equal (raised e) p q x = x
  end_by_equal (done t) p q (a, b, c) = (a ∙ p, b ∙ q, c)

  -- The end of a call that is recorded in a state with the core of `s`.
  recorded-Logged :
      (z : ℤ) (tool : String) (args result : Fields) (problem : Option String) (u s : Session W)
      (step : Step W)
      → core u.run ≡ core s.run
      → Ended
          (recorded env tool args result problem z u).run.tool_history
          (recorded env tool args result problem z u).run.seen_tool_signatures
          step
      → Logged s tool args step
  recorded-Logged z tool args result problem u s step e x = Logged-Ended s tool args result step (
      end_by_equal step
        (ap (λ c. c.0) (core-recorded tool args result problem z u)
          ∙ ap
              (λ c.
                c.0
                ++ record { call = suc (length c.0); tool = tool; args = args; result = result }
                  ∷ [])
              e)
        (ap (λ c. c.1) (core-recorded tool args result problem z u) ∙ ap (λ c. c.1) e) x)

  core-tracked :
      (tool : String) (args result : Fields) (s : Session W)
      → core
          (if tool == "retrieve_memo"
            then record_retrieve_memo_trace env result (track_cursor env tool args result s)
            else track_cursor env tool args result s).run
        ≡ core s.run
  unfolding track_cursor record_retrieve_memo_trace count_flag remember
  core-tracked tool args result s =
      let tracked = track_cursor env tool args result s in
      let kept : core tracked.run ≡ core s.run =
        core-if (tool == "read_file_chunk") _ s (core s.run) refl refl in
      core-if (tool == "retrieve_memo") (record_retrieve_memo_trace env result tracked) tracked
        (core s.run) kept kept

  judged_result-Logged :
      (z : ℤ) (tool : String) (args result : Fields) (s : Session W)
      → Logged s tool args (judged_result env z tool args result s)
  unfolding judged_result validation_failed count_retry emit_trace
  judged_result-Logged z tool args result s =
      let tracked = track_cursor env tool args result s in
      let traced : Session W =
        if tool == "retrieve_memo"
        then record_retrieve_memo_trace env result tracked
        else tracked in
      let kept : core traced.run ≡ core s.run = core-tracked tool args result s in
      elim (validate_tool_result_for_active_mission env.pattern_error traced.run tool args result
          (index_arg z))
        as (λ o. Logged s tool args (elim o as (λ x. Step W) [
          | none ↦ end_call env tool args result (recorded env tool args result none z traced)
          | some problem ↦ done (
              end_refused env problem (
                recorded env tool args (failed_result problem) (some problem) z
                  (validation_failed env tool problem traced)))
        ])) [
          | none ↦
              recorded-Logged z tool args result none traced s _ kept
                (end_call-Ended tool args result (recorded env tool args result none z traced))
          | some problem ↦
              recorded-Logged z tool args (failed_result problem) (some problem)
                (validation_failed env tool problem traced) s
                (done (
                  end_refused env problem (
                    recorded env tool args (failed_result problem) (some problem) z
                      (validation_failed env tool problem traced))))
                kept
                (end_refused-Ended problem (
                  recorded env tool args (failed_result problem) (some problem) z
                    (validation_failed env tool problem traced)))
        ]

  pub call_seen-Logged :
      (z : ℤ) (tool : String) (args : Fields) (s : Session W)
      → Logged (see env (signature_of env tool args) s) tool args (call_seen env z tool args s)
  unfolding call_seen
  call_seen-Logged z tool args s =
      call_tool_rule env (Logged (see env (signature_of env tool args) s) tool args)
        (λ problem why. why) tool args (judged_result env z tool args)
        (see env (signature_of env tool args) s)
        (λ result memos world.
          judged_result-Logged z tool args result
            (record (see env (signature_of env tool args) s) { memos = memos; world = world }))

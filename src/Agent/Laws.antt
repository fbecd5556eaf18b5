-- ===== src/Agent/Laws.antt =====
-- What a run of the loop keeps: calls are made once, and only fatal errors leave it.
use agentic_workflows.Base.{
  contains-eq-false_of_subset, subset-append_one, subset-append_right, ℕ, zero, suc, ◌+◌, ◌≤◌,
  String, ◌≡◌, refl, ap, inl, inr, true, false, Option, List, [], ◌∷◌, ◌++◌, map, arith, length,
  IsDistinct, append-IsDistinct, length-append, all, contains, subset, Bool-cases,
}
use agentic_workflows.Base.Text.{strip}
use agentic_workflows.Values.{Value, Fields}
use agentic_workflows.Missions.{AgentMessage}
use agentic_workflows.Agent.{
  Error, Result, ok, err, Action, tool_action, finish_action, Tool, UsedTool, Run, Outcome,
  finished, raised, Next, again, stop, is_retryable, signature, register_tool_call, handle_tool,
  on_error, record_result, after_call, act, heard, round, run_loop, run, add_message,
}

module _ (llm : List AgentMessage → Result String) (tools : String → Option Tool)
    (loads : String → Option Value) (dumps : Value → String) (sha256 : String → String)
    (error_text : Error → String) where
  abbrev pub sig_of : String → Fields → String
  sig_of = signature llm tools loads dumps sha256 error_text

  abbrev pub sig : UsedTool → String
  sig u = signature llm tools loads dumps sha256 error_text u.tool u.args

  abbrev pub sigs : List UsedTool → List String
  sigs = map sig

  -- The calls recorded are numbered by their count, have distinct signatures, and are among those seen.
  record IsSound (r : Run) : Type 0 where
    counted : r.tool_call_count ≡ length r.tools_used
    distinct : IsDistinct (sigs r.tools_used)
    seen : subset (sigs r.tools_used) r.seen_tool_calls ≡ true

  -- What holds of a round's result: n bounds the calls recorded so far.
  abbrev IsGood : ℕ → Next → Type 0
  IsGood n (again r) = IsSound r × (length r.tools_used ≤ n)
  IsGood n (stop (finished answer used)) = IsDistinct (sigs used) × (length used ≤ n)
  IsGood n (stop (raised e)) = is_retryable e ≡ false

  on_error-IsGood :
      (n : ℕ) (e : Error) (r : Run)
      → IsSound r
      → length r.tools_used ≤ n
      → IsGood n (on_error llm tools loads dumps sha256 error_text e r)
  unfolding on_error
  on_error-IsGood n e r s b = elim (Bool-cases (is_retryable e)) [
    | inl h ↦
        rw (h, on_error) (record { counted = s.counted; distinct = s.distinct; seen = s.seen }, b)
    | inr h ↦ rw (h, on_error) h
  ]

  map-append_one : (us : List UsedTool) (u : UsedTool) → sigs (us ++ u ∷ []) ≡ sigs us ++ sig u ∷ []
  map-append_one [] u = refl
  map-append_one (v ∷ us) u = ap (◌∷◌ (sig v)) (map-append_one us u)

  record_result-IsSound :
      (tool : String) (args result : Fields) (r : Run)
      → IsSound r
      → contains r.seen_tool_calls (sig_of tool args) ≡ false
      → IsSound (
          record_result llm tools loads dumps sha256 error_text tool args result
            (record r { seen_tool_calls = r.seen_tool_calls ++ sig_of tool args ∷ [] }))
  unfolding record_result
  record_result-IsSound tool args result r s fresh = record {
    counted = rw length-append (omega (arith, s.counted));
    distinct = rw map-append_one (
        append-IsDistinct (sigs r.tools_used) (sig_of tool args) s.distinct (
          contains-eq-false_of_subset (sigs r.tools_used) r.seen_tool_calls (sig_of tool args)
            s.seen fresh));
    seen =
        rw map-append_one
          (subset-append_one (sigs r.tools_used) r.seen_tool_calls (sig_of tool args) s.seen);
  }

  length-record_result :
      (tool : String) (args result : Fields) (r : Run)
      → length (record_result llm tools loads dumps sha256 error_text tool args result r).tools_used
        ≡ suc (length r.tools_used)
  unfolding record_result
  length-record_result tool args result r = rw length-append (omega arith)

  -- A message more changes nothing of what is kept.
  add_message-IsSound :
      (role content : String) (r : Run) → IsSound r → IsSound (add_message role content r)
  unfolding add_message
  add_message-IsSound role content r s = record {
    counted = s.counted;
    distinct = s.distinct;
    seen = s.seen;
  }

  -- A signature more in the set of those seen.
  seen_more-IsSound :
      (r : Run) (z : String)
      → IsSound r
      → IsSound (record r { seen_tool_calls = r.seen_tool_calls ++ z ∷ [] })
  seen_more-IsSound r z s = record {
    counted = s.counted;
    distinct = s.distinct;
    seen = subset-append_right (sigs r.tools_used) r.seen_tool_calls z s.seen;
  }

  after_call-IsGood :
      (n : ℕ) (tool : String) (args : Fields) (r : Run) (result : Result Fields)
      → IsSound r
      → length r.tools_used ≤ n
      → contains r.seen_tool_calls (sig_of tool args) ≡ false
      → IsGood (suc n) (
          after_call llm tools loads dumps sha256 error_text tool args
            (record r { seen_tool_calls = r.seen_tool_calls ++ sig_of tool args ∷ [] })
            result)
  unfolding after_call
  after_call-IsGood n tool args r (ok result) s b fresh =
      (record_result-IsSound tool args result r s fresh, rw length-record_result (omega arith))
  after_call-IsGood n tool args r (err e) s b fresh =
      on_error-IsGood (suc n) e
        (record r { seen_tool_calls = r.seen_tool_calls ++ sig_of tool args ∷ [] })
        (seen_more-IsSound r (sig_of tool args) s) (omega arith)

  act-IsGood :
      (n : ℕ) (r : Run) (a : Result Action)
      → IsSound r
      → length r.tools_used ≤ n
      → IsGood (suc n) (act llm tools loads dumps sha256 error_text r a)
  unfolding act register_tool_call
  act-IsGood n r (err e) s b = on_error-IsGood (suc n) e r s (omega arith)
  act-IsGood n r (ok (finish_action answer)) s b = (s.distinct, omega arith)
  act-IsGood n r (ok (tool_action tool args)) s b =
      elim (Bool-cases (contains r.seen_tool_calls (sig_of tool args))) [
        | inl old ↦
            rw (old, act, register_tool_call) (add_message-IsSound "system" _ r s, omega arith)
        | inr new ↦
            rw (new, act, register_tool_call)
              (after_call-IsGood n tool args r
                (handle_tool llm tools loads dumps sha256 error_text tool args) s b new)
      ]

  heard-IsGood :
      (n : ℕ) (r : Run) (a : Result String)
      → IsSound r
      → length r.tools_used ≤ n
      → IsGood (suc n) (heard llm tools loads dumps sha256 error_text r a)
  unfolding heard
  heard-IsGood n r (err e) s b = on_error-IsGood (suc n) e r s (omega arith)
  heard-IsGood n r (ok output) s b =
      act-IsGood n (add_message "assistant" (strip output) r) _
        (add_message-IsSound "assistant" (strip output) r s) b

  round-IsGood :
      (n step : ℕ) (r : Run)
      → IsSound r
      → length r.tools_used ≤ n
      → IsGood (suc n) (round llm tools loads dumps sha256 error_text step r)
  unfolding round
  round-IsGood n step r s b =
      heard-IsGood n (record r { step = step }) (llm r.messages)
        (record { counted = s.counted; distinct = s.distinct; seen = s.seen }) b

  -- What holds of the loop's outcome: n bounds the calls.
  abbrev pub IsGoodEnd : ℕ → Outcome → Type 0
  IsGoodEnd n (finished answer used) = IsDistinct (sigs used) × (length used ≤ n)
  IsGoodEnd n (raised e) = is_retryable e ≡ false

  end_of_stop : (n m : ℕ) (o : Outcome) → n ≤ m → IsGood n (stop o) → IsGoodEnd m o
  end_of_stop n m (finished answer used) h g = (g.0, omega arith)
  end_of_stop n m (raised e) h g = g

  run_loop-IsGoodEnd :
      (left step n : ℕ) (r : Run)
      → IsSound r
      → length r.tools_used ≤ n
      → IsGoodEnd (n + left) (run_loop llm tools loads dumps sha256 error_text left step r)
  unfolding run_loop is_retryable
  run_loop-IsGoodEnd zero step n r s b = refl
  run_loop-IsGoodEnd (suc left) step n r s b =
      go (round llm tools loads dumps sha256 error_text step r) (round-IsGood n step r s b)
        (run_loop-IsGoodEnd left (suc step) (suc n))
    where
      go :
          (x : Next)
          → IsGood (suc n) x
          → ((q : Run)
              → IsSound q
              → length q.tools_used ≤ suc n
              → IsGoodEnd
                  (suc n + left)
                  (run_loop llm tools loads dumps sha256 error_text left (suc step) q))
          → IsGoodEnd (n + suc left) (elim x as (λ y. Outcome) [
            | stop o ↦ o
            | again q ↦ run_loop llm tools loads dumps sha256 error_text left (suc step) q
          ])
      go (stop o) g ih = end_of_stop (suc n) (n + suc left) o (omega arith) g
      go (again q) g ih = let e : n + suc left ≡ suc n + left = omega arith in rw e (ih q g.0 g.1)

  -- A run of the loop ends: with an answer, and then no two calls of tools had one signature and at
  -- most 20 were made; or by an error, and then by one that may not be retried.
  pub run-IsGoodEnd :
      (system_prompt user_input : String)
      → IsGoodEnd 20 (run llm tools loads dumps sha256 error_text system_prompt user_input)
  unfolding run
  run-IsGoodEnd system_prompt user_input =
      run_loop-IsGoodEnd 20 0 0 _
        (record { counted = refl; distinct = tt; seen = unfold subset all in refl }) (omega arith)

-- ===== src/Graph/Finish/Laws.antt =====
-- A finish that comes too early does not end the run, until it came too often: then it does.
use mathlib.Core.Path.{subst}
use agentic_workflows.Base.{
  lt→ltb, ℕ, suc, ◌+◌, ◌≤◌, String, ◌≡◌, refl, ◌∙◌, Bool, true, false, arith, ltb, if◌then◌else◌,
  eq_refl,
}
use agentic_workflows.Base.Int.{pos}
use agentic_workflows.Values.{get-put, int, Fields, end, field, put}
use agentic_workflows.Missions.{RunState}
use agentic_workflows.Planner.Fallback.{
  Fallback, acts, nothing, index_error, deterministic_fallback_action,
}
use agentic_workflows.Graph.Checkpoints.{CheckpointStore}
use agentic_workflows.Graph.Guards.{Node, route_of, route_after_plan}
use agentic_workflows.Graph.Finish.{
  get_count, count_rejection, asks_finish, Step, returned, raised, recover_with, saved, recover,
  reject_finish_and_recover,
}

abbrev pub is_finish_node : Node → Bool
is_finish_node Node.finish = true
is_finish_node node = false

-- How often a finish was rejected.
abbrev pub rejections_of : RunState → ℕ
rejections_of state = get_count "finish_rejected" state.retry_counts

route_of-finish :
    (action : Fields) → asks_finish action ≡ false → is_finish_node (route_of action) ≡ false
unfolding asks_finish route_of
route_of-finish action h = ground (arith, h)

route_after_plan-acts :
    (action : Fields) (state : RunState)
    → asks_finish action ≡ false
    → is_finish_node (route_after_plan (recover_with action state)) ≡ false
unfolding route_after_plan recover_with
route_after_plan-acts end state h = refl
route_after_plan-acts (field k v fs) state h = route_of-finish (field k v fs) h

get_count-put : (key : String) (n : ℕ) (fs : Fields) → get_count key (put key (int (pos n)) fs) ≡ n
unfolding get_count
get_count-put key n fs = ground (arith, get-put key key (int (pos n)) fs, eq_refl key)

count-rejections :
    (rejected : Fields) (state : RunState)
    → rejections_of (count_rejection rejected state) ≡ suc (rejections_of state)
unfolding count_rejection
count-rejections rejected state =
    get_count-put "finish_rejected" (suc (rejections_of state)) state.retry_counts

-- Whether a step finishes next, and the count of rejections that it leaves, unless it raises.
abbrev Ends : Bool → ℕ → Step → Type 0
Ends b n raised = Unit
Ends b n (returned u store) = (is_finish_node (route_after_plan u) ≡ b) × (rejections_of u ≡ n)

if-Ends :
    (t b : Bool) (n : ℕ) (x y : Step)
    → Ends b n x
    → (t ≡ false → Ends b n y)
    → Ends b n (if t then x else y)
if-Ends true b n x y h k = h
if-Ends false b n x y h k = k refl

test-Ends :
    (t : Bool) (n : ℕ) (x y : Step) → Ends true n x → Ends false n y → Ends t n (if t then x else y)
test-Ends true n x y h k = h
test-Ends false n x y h k = k

finish_of_test : (node : Node) → is_finish_node node ≡ true → node ≡ Node.finish
finish_of_test Node.plan h = absurd (ground (arith, h))
finish_of_test Node.execute h = absurd (ground (arith, h))
finish_of_test Node.clarify h = absurd (ground (arith, h))
finish_of_test Node.finish h = refl

module _ (args_json : Fields → String) (dumps : RunState → String) (loads : String → RunState)
    (now : String) (max_finish_rejections : ℕ) where
  recover-Ends :
      (f : Fallback) (source : String) (state : RunState) (store : CheckpointStore)
      → Ends false
          (rejections_of state)
          (recover args_json dumps loads now max_finish_rejections f source state store)
  unfolding recover saved route_after_plan
  recover-Ends index_error source state store = tt
  recover-Ends nothing source state store = (refl, refl)
  recover-Ends (acts action) source state store =
      if-Ends (asks_finish action) false (rejections_of state) _ _ (refl, refl)
        (λ e. (route_after_plan-acts action state e, refl))

  reject-Ends :
      (rejected : Fields) (source : String) (state : RunState) (store : CheckpointStore)
      → Ends (ltb max_finish_rejections (suc (rejections_of state))) (suc (rejections_of state)) (
          reject_finish_and_recover args_json dumps loads now max_finish_rejections rejected source
            state store)
  unfolding reject_finish_and_recover route_after_plan
  reject-Ends rejected source state store =
      let counted = count_rejection rejected state in
      subst
        (λ n. Ends (ltb max_finish_rejections n) n (
          reject_finish_and_recover args_json dumps loads now max_finish_rejections rejected source
            state store))
        (count-rejections rejected state)
        (test-Ends (ltb max_finish_rejections (rejections_of counted)) (rejections_of counted) _ _
          (refl, refl)
          (recover-Ends (deterministic_fallback_action args_json counted) source counted store))

  -- A rejected finish is counted, and it ends the run exactly when more were rejected than the bound
  -- allows: the graph goes from the planner to the last node then, and else back to the planner or on
  -- to a tool.
  pub reject-route :
      (rejected : Fields) (source : String) (state after : RunState) (store saves : CheckpointStore)
      → reject_finish_and_recover args_json dumps loads now max_finish_rejections rejected source
          state store
        ≡ returned after saves
      → (is_finish_node (route_after_plan after)
          ≡ ltb max_finish_rejections (suc (rejections_of state)))
        × (rejections_of after ≡ suc (rejections_of state))
  reject-route rejected source state after store saves e =
      subst
        (Ends (ltb max_finish_rejections (suc (rejections_of state))) (suc (rejections_of state))) e
        (reject-Ends rejected source state store)

  -- A run from one state to another in which a finish is rejected n times, and in which the other steps
  -- leave the count of rejections as it is.
  pub data Rejections (s : RunState) : ℕ → RunState → Type 0 where
    start : Rejections s 0 s
    reject :
        {n : ℕ} {t u : RunState} (rejected : Fields) (source : String)
        (store saves : CheckpointStore)
        → Rejections s n t
        → reject_finish_and_recover args_json dumps loads now max_finish_rejections rejected source
            t store
          ≡ returned u saves
        → Rejections s (suc n) u
    other :
        {n : ℕ} {t u : RunState}
        → Rejections s n t
        → rejections_of u ≡ rejections_of t
        → Rejections s n u

  count-Rejections :
      {s : RunState} {n : ℕ} {t : RunState}
      → Rejections s n t
      → rejections_of t ≡ n + rejections_of s
  count-Rejections start = omega arith
  count-Rejections {s = s} (reject {n = n} {t = t} {u = u} rejected source store saves r e) =
      omega (arith, count-Rejections r, (reject-route rejected source t u store saves e).1)
  count-Rejections (other r e) = e ∙ count-Rejections r

  -- A planner that keeps asking to finish too early cannot keep the run going: whatever happens between
  -- the rejections, as long as the count of them is not reset, the one after as many as are allowed
  -- sends the graph to its last node.
  pub Rejections-finish :
      (n : ℕ) (s t after : RunState) (rejected : Fields) (source : String)
      (store saves : CheckpointStore)
      → Rejections s n t
      → max_finish_rejections ≤ n
      → reject_finish_and_recover args_json dumps loads now max_finish_rejections rejected source t
          store
        ≡ returned after saves
      → route_after_plan after ≡ Node.finish
  Rejections-finish n s t after rejected source store saves r h e =
      finish_of_test (route_after_plan after) (
        (reject-route rejected source t after store saves e).0
        ∙ lt→ltb max_finish_rejections (suc (rejections_of t))
            (omega (arith, h, count-Rejections r)))

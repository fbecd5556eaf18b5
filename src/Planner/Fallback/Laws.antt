-- ===== src/Planner/Fallback/Laws.antt =====
-- What the fallback may propose.
use mathlib.Core.Path.{subst}
use agentic_workflows.Base.{
  ℕ, String, ◌≡◌, refl, sym, ap, ◌∙◌, Bool, true, false, ◌&&◌, ◌||◌, Option, none, some, List, [],
  ◌∷◌, if◌then◌else◌, contains, ◌==◌,
}
use agentic_workflows.Base.Text.{strip, empty}
use agentic_workflows.Values.{Fields, get_str}
use agentic_workflows.Missions.{RunState}
use agentic_workflows.Extract.{extract_write_path_from_mission}
use agentic_workflows.Missions.Progress.{
  Missing, all_missions_completed, next_incomplete_mission, next_incomplete_mission_requirements,
}
use agentic_workflows.Planner.Fallback.{
  Fallback, acts, nothing, index_error, ◌or_else◌, tool_action, memo_action, finish, Candidate,
  numbers_candidate, planned_action, report_at, asks_fibonacci_file, fibonacci_count,
  fibonacci_path, early_candidates, last_candidate, choose, choose_first, is_duplicate_tool_action,
  action_signature, write_numbers, fibonacci_write, mission_action, deterministic_fallback_action,
}

-- Whether the action is a call of a tool that was made before.
abbrev pub is_seen : (Fields → String) → RunState → Fields → Bool
is_seen dumps state action =
    get_str "" "action" action == "tool"
    && contains state.seen_tool_signatures (action_signature dumps action)

-- An action is a new call of a tool.
IsNewCall : (Fields → String) → RunState → Fallback → Type 0
IsNewCall dumps state (acts a) = (get_str "" "action" a ≡ "tool") × (is_seen dumps state a ≡ false)
IsNewCall dumps state nothing = Unit
IsNewCall dumps state index_error = Unit

unfoldable pub IsNew : (Fields → String) → RunState → Fallback → Type 0
IsNew dumps state (acts a) = is_seen dumps state a ≡ false
IsNew dumps state nothing = Unit
IsNew dumps state index_error = Unit

unfoldable pub is_finish : Fallback → Bool
unfolding get_str
is_finish (acts a) = get_str "" "action" a == "finish"
is_finish nothing = false
is_finish index_error = false

module _ (dumps : Fields → String) (state : RunState) where
  or_else-IsNewCall :
      (f k : Fallback)
      → IsNewCall dumps state f
      → IsNewCall dumps state k
      → IsNewCall dumps state (f or_else k)
  unfolding IsNewCall
  or_else-IsNewCall (acts a) k h j = h
  or_else-IsNewCall nothing k h j = j
  or_else-IsNewCall index_error k h j = tt

  choose-IsNewCall : (c : Candidate) → IsNewCall dumps state (choose dumps state c)
  unfolding choose is_duplicate_tool_action IsNewCall get_str
  choose-IsNewCall c = chosen c.test (is_seen dumps state (tool_action c.tool_name c.args)) refl
    where
      chosen :
          (test seen : Bool)
          → is_seen dumps state (tool_action c.tool_name c.args) ≡ seen
          → IsNewCall dumps state (
              if test
              then (if seen then nothing else acts (tool_action c.tool_name c.args))
              else nothing)
      chosen true true e = tt
      chosen true false e = (refl, e)
      chosen false seen e = tt

  choose_first-IsNewCall :
      (cs : List Candidate) → IsNewCall dumps state (choose_first dumps state cs)
  unfolding choose_first IsNewCall
  choose_first-IsNewCall [] = tt
  choose_first-IsNewCall (c ∷ cs) =
      or_else-IsNewCall (choose dumps state c) (choose_first dumps state cs) (choose-IsNewCall c)
        (choose_first-IsNewCall cs)

  write_numbers-IsNewCall :
      (count : ℕ) (path : Option String)
      → IsNewCall dumps state (write_numbers dumps state count path)
  unfolding write_numbers IsNewCall
  write_numbers-IsNewCall count none = tt
  write_numbers-IsNewCall count (some path) = choose-IsNewCall (numbers_candidate count path)

  fibonacci_write-IsNewCall :
      (m : Missing) (text : String) → IsNewCall dumps state (fibonacci_write dumps state m text)
  unfolding fibonacci_write IsNewCall
  fibonacci_write-IsNewCall m text =
      let report = report_at state m.mission_index in
      if-IsNewCall (asks_fibonacci_file m text) _ (
        write_numbers-IsNewCall (fibonacci_count report text)
          (fibonacci_path report (extract_write_path_from_mission text)))
    where
      if-IsNewCall :
          (b : Bool) (f : Fallback)
          → IsNewCall dumps state f
          → IsNewCall dumps state (if b then f else nothing)
      if-IsNewCall true f h = h
      if-IsNewCall false f h = tt

  mission_action-IsNewCall :
      (m : Missing) (text : String) → IsNewCall dumps state (mission_action dumps state m text)
  unfolding mission_action
  mission_action-IsNewCall m text =
      or_else-IsNewCall (choose_first dumps state (early_candidates m text))
        (fibonacci_write dumps state m text or_else choose dumps state (last_candidate text))
        (choose_first-IsNewCall (early_candidates m text))
        (or_else-IsNewCall (fibonacci_write dumps state m text)
          (choose dumps state (last_candidate text)) (fibonacci_write-IsNewCall m text)
          (choose-IsNewCall (last_candidate text)))

  not_finish_of_new : (f : Fallback) → IsNewCall dumps state f → is_finish f ≡ false
  unfolding is_finish IsNewCall
  not_finish_of_new (acts a) (h, k) = ap (λ s. s == "finish") h
  not_finish_of_new nothing h = refl
  not_finish_of_new index_error h = refl

  IsNew-of_call : (f : Fallback) → IsNewCall dumps state f → IsNew dumps state f
  unfolding IsNew IsNewCall
  IsNew-of_call (acts a) (h, k) = k
  IsNew-of_call nothing h = tt
  IsNew-of_call index_error h = tt

  branches-IsNew :
      (a b : Bool) (f g : Fallback)
      → IsNew dumps state f
      → IsNew dumps state g
      → IsNew dumps state (if a then f else if b then f else g)
  branches-IsNew true b f g h k = h
  branches-IsNew false true f g h k = h
  branches-IsNew false false f g h k = k

  branches-finish :
      (a b : Bool) (f g : Fallback)
      → is_finish f ≡ true
      → is_finish g ≡ false
      → is_finish (if a then f else if b then f else g) ≡ (a || b)
  branches-finish true b f g h k = h
  branches-finish false true f g h k = h
  branches-finish false false f g h k = k

  abbrev open_mission : String
  open_mission = strip (next_incomplete_mission state)

  abbrev from_mission : Fallback
  from_mission =
      mission_action dumps state (next_incomplete_mission_requirements state) open_mission

  from_mission-IsNewCall : IsNewCall dumps state from_mission
  from_mission-IsNewCall =
      mission_action-IsNewCall (next_incomplete_mission_requirements state) open_mission

  planned-IsNew : IsNew dumps state (planned_action dumps state)
  unfolding planned_action finish IsNew get_str
  planned-IsNew =
      branches-IsNew (all_missions_completed state) (empty open_mission) (finish state) from_mission
        refl (IsNew-of_call from_mission from_mission-IsNewCall)

  planned-finish :
      is_finish (planned_action dumps state)
      ≡ (all_missions_completed state || empty (strip (next_incomplete_mission state)))
  unfolding planned_action finish is_finish get_str
  planned-finish =
      branches-finish (all_missions_completed state) (empty open_mission) (finish state)
        from_mission refl (not_finish_of_new from_mission from_mission-IsNewCall)

  -- Unless the policy waits for a memoize call, the fallback never proposes a tool call that was made
  -- before.
  pub fallback-IsNew :
      memo_action state ≡ nothing → IsNew dumps state (deterministic_fallback_action dumps state)
  unfolding deterministic_fallback_action
  fallback-IsNew h =
      subst (λ f. IsNew dumps state (f or_else planned_action dumps state)) (sym h) planned-IsNew

  -- Unless the policy waits for a memoize call, the fallback proposes to finish exactly when all
  -- missions are completed or the next open one has no text.
  pub fallback-finish :
      memo_action state ≡ nothing
      → is_finish (deterministic_fallback_action dumps state)
        ≡ (all_missions_completed state || empty (strip (next_incomplete_mission state)))
  unfolding deterministic_fallback_action is_finish finish
  fallback-finish h = ap (λ f. is_finish (f or_else planned_action dumps state)) h ∙ planned-finish

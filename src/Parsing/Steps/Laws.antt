-- ===== src/Parsing/Steps/Laws.antt =====
-- What the limit on steps makes of a plan.
use mathlib.Core.Path.{subst}
use agentic_workflows.Base.{
  ◌++◌, leb, ◌-◌, Option, none, some, inl, inr, Bool-cases, sym, ℕ, zero, suc, ◌≤◌, ◌<◌, min,
  String, ◌≡◌, refl, ap, ◌∙◌, true, false, List, [], ◌∷◌, map, arith, if◌then◌else◌, get_or, length,
  take, is_nil, IsDistinct, last?, select, count_if, contains,
}
use agentic_workflows.Base.Text.{join}
use agentic_workflows.Missions.{MissionStep, StructuredPlan}
use agentic_workflows.Parsing.Steps.{
  merge_excess, add_missing, merged_tools, is_top_level, is_sub_step, top_ids, skip, limited_steps,
  enforce_step_limit, steps_to_flat_missions, flat_from,
}
use agentic_workflows.Parsing.Steps.Rebuild.{
  moved, sub_rebuilt, top_rebuilt, top_within_limit, all-contains_self, disjoint-take,
  length-select,
}

length-top_ids : (steps : List MissionStep) → length (top_ids steps) ≡ count_if is_top_level steps
unfolding top_ids count_if
length-top_ids [] = refl
length-top_ids (s ∷ steps) = ground (arith, length-top_ids steps)

length-flat_from :
    (all_steps steps : List MissionStep)
    → length (flat_from all_steps steps) ≡ count_if is_top_level steps
unfolding flat_from count_if
length-flat_from all_steps [] = refl
length-flat_from all_steps (s ∷ steps) = ground (arith, length-flat_from all_steps steps)

-- Of each top-level step there is one mission, when there are any.
length-flat :
    (steps : List MissionStep)
    → 0 < count_if is_top_level steps
    → length (steps_to_flat_missions steps) ≡ count_if is_top_level steps
unfolding steps_to_flat_missions
length-flat steps h = by_flat (flat_from steps steps) (length-flat_from steps steps)
  where
    by_flat :
        (flat : List String)
        → length flat ≡ count_if is_top_level steps
        → length (if is_nil flat then map (λ s. s.description) steps else flat)
          ≡ count_if is_top_level steps
    by_flat [] e = absurd (omega (arith, h, e))
    by_flat (m ∷ flat) e = e

-- The suggested tools of the steps, in their order.
abbrev pub tools_of : List MissionStep → List String
tools_of [] = []
tools_of (s ∷ steps) = s.suggested_tools ++ tools_of steps

-- A step with what others say and suggest.
abbrev pub with_excess : List MissionStep → MissionStep → MissionStep
with_excess excess s = record s {
  description = join " | " (s.description ∷ map (λ (x : MissionStep). x.description) excess);
  suggested_tools = add_missing s.suggested_tools (tools_of excess);
}

add_missing-append :
    (names xs ys : List String)
    → add_missing names (xs ++ ys) ≡ add_missing (add_missing names xs) ys
unfolding add_missing
add_missing-append names [] ys = refl
add_missing-append names (x ∷ xs) ys =
    ground (arith, add_missing-append (names ++ x ∷ []) xs ys, add_missing-append names xs ys)

merged_tools-eq :
    (tools : List String) (steps : List MissionStep)
    → merged_tools tools steps ≡ add_missing tools (tools_of steps)
unfolding merged_tools add_missing
merged_tools-eq tools [] = refl
merged_tools-eq tools (s ∷ steps) =
    merged_tools-eq (add_missing tools s.suggested_tools) steps
    ∙ sym (add_missing-append tools s.suggested_tools (tools_of steps))

merge_excess-eq :
    (excess : List MissionStep) (s : MissionStep) → merge_excess excess s ≡ with_excess excess s
unfolding merge_excess
merge_excess-eq excess s =
    ap
      (λ tools. record s {
        description = join " | " (s.description ∷ map (λ (x : MissionStep). x.description) excess);
        suggested_tools = tools;
      })
      (merged_tools-eq s.suggested_tools excess)

map_eq {ℓ} : {A : Type ℓ} (f g : A → A) (xs : List A) → ((x : A) → f x ≡ g x) → map f xs ≡ map g xs
map_eq f g [] h = refl
map_eq f g (x ∷ xs) h = ap (λ y. y ∷ map f xs) (h x) ∙ ap (λ l. g x ∷ l) (map_eq f g xs h)

skip_past {ℓ} : {A : Type ℓ} (n : ℕ) (xs : List A) → length xs ≤ n → skip n xs ≡ []
unfolding skip
skip_past zero [] h = refl
skip_past zero (x ∷ xs) h = absurd (omega (arith, h))
skip_past (suc n) [] h = refl
skip_past (suc n) (x ∷ xs) h = skip_past n xs (omega (arith, h))

moved_none : (last_id : String) (s : MissionStep) → moved [] last_id s ≡ s
unfolding contains
moved_none last_id s = by_parent s.parent_id refl
  where
    by_parent : (o : Option String) → s.parent_id ≡ o → moved [] last_id s ≡ s
    by_parent none e = rw e refl
    by_parent (some p) e = rw e refl

map-moved_none : (last_id : String) (xs : List MissionStep) → map (moved [] last_id) xs ≡ xs
map-moved_none last_id [] = refl
map-moved_none last_id (x ∷ xs) =
    ap (λ y. y ∷ map (moved [] last_id) xs) (moved_none last_id x)
    ∙ ap (λ l. x ∷ l) (map-moved_none last_id xs)

-- What a limit makes of the steps: every sub-step is there, in its place among them and as it was but
-- for the parent, which is the last kept step where the parent is not kept; and of the top-level steps
-- those within the limit, the last of them with the texts and suggested tools of the others.
abbrev pub IsLimited : ℕ → List MissionStep → List MissionStep → Type 0
IsLimited max_steps steps limited =
    let tops = select is_top_level steps in
    (select is_sub_step limited
      ≡ map
          (moved (skip max_steps (top_ids steps))
            (get_or "" (last? (take max_steps (top_ids steps)))))
          (select is_sub_step steps))
    × (select is_top_level limited ≡ (
        if leb (length tops) max_steps
        then tops
        else take (max_steps - 1) tops
          ++ map (with_excess (skip max_steps tops)) (take 1 (skip (max_steps - 1) tops))))

under-IsLimited :
    (max_steps : ℕ) (steps : List MissionStep)
    → leb (length (select is_top_level steps)) max_steps ≡ true
    → IsLimited max_steps steps steps
under-IsLimited max_steps steps h =
    let few : length (top_ids steps) ≤ max_steps =
      ground (arith, h, length-top_ids steps, length-select is_top_level steps) in
    (
      sym (
          ap
            (λ ids.
              map (moved ids (get_or "" (last? (take max_steps (top_ids steps)))))
                (select is_sub_step steps))
            (skip_past max_steps (top_ids steps) few)
          ∙ map-moved_none _ (select is_sub_step steps)),
      rw h refl,
    )

over-IsLimited :
    (r : ℕ) (steps : List MissionStep)
    → IsDistinct (top_ids steps)
    → leb (length (select is_top_level steps)) (suc r) ≡ false
    → IsLimited (suc r) steps (limited_steps (suc r) steps)
unfolding limited_steps
over-IsLimited r steps d h =
    let ids = top_ids steps in
    let kept_ids = take (suc r) ids in
    let excess = skip (suc r) (select is_top_level steps) in
    let last_id = get_or "" (last? kept_ids) in
    let one_less : suc r - 1 ≡ r = omega arith in
    (
      sub_rebuilt (suc r) kept_ids (skip (suc r) ids) excess last_id 0 steps,
      rw h (
          top_rebuilt (suc r) kept_ids (skip (suc r) ids) excess last_id r 0 steps (omega arith)
            (all-contains_self kept_ids) (disjoint-take (suc r) ids d)
          ∙ rw one_less (
              ap (λ l. take r (select is_top_level steps) ++ l)
                (map_eq (merge_excess excess) (with_excess excess)
                  (take 1 (skip r (select is_top_level steps))) (merge_excess-eq excess)))),
    )

limited_steps-count :
    (max_steps : ℕ) (steps : List MissionStep)
    → IsDistinct (top_ids steps)
    → count_if is_top_level (limited_steps max_steps steps)
      ≡ min max_steps (count_if is_top_level steps)
unfolding limited_steps
limited_steps-count max_steps steps d =
    let ids = top_ids steps in
    let kept_ids = take max_steps ids in
    let excess = skip max_steps (select is_top_level steps) in
    top_within_limit max_steps kept_ids (skip max_steps ids) excess (get_or "" (last? kept_ids))
      max_steps 0 steps (omega arith) (all-contains_self kept_ids) (disjoint-take max_steps ids d)
    ∙ ap (min max_steps) (length-top_ids steps)

enforce_few :
    (max_steps : ℕ) (plan : StructuredPlan)
    → leb (length (select is_top_level plan.steps)) max_steps ≡ true
    → enforce_step_limit max_steps plan ≡ plan
unfolding enforce_step_limit
enforce_few max_steps plan few = ground (arith, few)

enforce_many :
    (r : ℕ) (plan : StructuredPlan)
    → leb (length (select is_top_level plan.steps)) (suc r) ≡ false
    → (enforce_step_limit (suc r) plan).steps ≡ limited_steps (suc r) plan.steps
unfolding enforce_step_limit
enforce_many r plan many = ground (arith, many)

enforce-IsLimited :
    (max_steps : ℕ) (plan : StructuredPlan)
    → 0 < max_steps
    → IsDistinct (top_ids plan.steps)
    → IsLimited max_steps plan.steps (enforce_step_limit max_steps plan).steps
unfolding enforce_step_limit
enforce-IsLimited zero plan h d = absurd (omega (arith, h))
enforce-IsLimited (suc r) plan h d =
    elim (Bool-cases (leb (length (select is_top_level plan.steps)) (suc r))) [
      | inl few ↦
          subst (λ (q : StructuredPlan). IsLimited (suc r) plan.steps q.steps)
            (sym (enforce_few (suc r) plan few)) (under-IsLimited (suc r) plan.steps few)
      | inr many ↦
          subst (λ (steps : List MissionStep). IsLimited (suc r) plan.steps steps)
            (sym (enforce_many r plan many)) (over-IsLimited r plan.steps d many)
    ]

-- Of a plan whose top-level steps have different ids, at least one, and whose missions are those of its
-- steps, limiting keeps every sub-step, as it was but for a parent that is not kept, in whose place the
-- last kept step stands. Of the top-level steps it keeps those within the limit, unchanged but for the
-- last one when there are more, which takes the texts and suggested tools of the others; and there are
-- as many missions as top-level steps that are kept.
pub enforce_step_limit_lem :
    (max_steps : ℕ) (plan : StructuredPlan)
    → 0 < max_steps
    → IsDistinct (top_ids plan.steps)
    → 0 < count_if is_top_level plan.steps
    → plan.flat_missions ≡ steps_to_flat_missions plan.steps
    → let limited = enforce_step_limit max_steps plan in
      IsLimited max_steps plan.steps limited.steps
      × (count_if is_top_level limited.steps ≡ min max_steps (count_if is_top_level plan.steps))
      × (length limited.flat_missions ≡ min max_steps (count_if is_top_level plan.steps))
unfolding enforce_step_limit
enforce_step_limit_lem max_steps plan h d some_step planned = (
  enforce-IsLimited max_steps plan h d,
  ground
      (arith, h, limited_steps-count max_steps plan.steps d, length-select is_top_level plan.steps),
  ground (
    arith,
    h,
    some_step,
    planned,
    limited_steps-count max_steps plan.steps d,
    length-select is_top_level plan.steps,
    length-flat plan.steps some_step,
    length-flat (limited_steps max_steps plan.steps),
  ),
)

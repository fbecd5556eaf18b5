-- ===== src/Parsing/Steps/Rebuild.antt =====
-- Which steps the rebuilding of a plan keeps, and as what.
use mathlib.Core.Path.{subst}
use agentic_workflows.Base.{
  ◌++◌, Option, none, some, inl, inr, Bool-cases, Option-cases, sym, eqb, ℕ, zero, suc, ◌+◌, ◌≤◌,
  ◌<◌, min, String, ◌≡◌, refl, ap, ◌∙◌, Bool, true, false, not, List, [], ◌∷◌, map, arith,
  if◌then◌else◌, length, take, IsDistinct, select, all, count_if, contains, eq_iff, eq_refl,
}
use agentic_workflows.Missions.{MissionStep}
use agentic_workflows.Parsing.Steps.{
  merge_excess, is_top_level, is_sub_step, top_ids, skip, rebuild,
}

-- A sub-step whose parent is not kept hangs below the last step that is.
abbrev pub moved : List String → String → MissionStep → MissionStep
moved excess_ids last_id s = elim s.parent_id [
  | none ↦ s
  | some p ↦ if contains excess_ids p then record s { parent_id = some last_id } else s
]

-- None of the second names is among the first.
abbrev pub disjoint : List String → List String → Bool
disjoint xs ys = all (λ y. not (contains xs y)) ys

all-weaken :
    (xs ys : List String) (x : String)
    → contains ys x ≡ false
    → disjoint xs ys ≡ true
    → disjoint (x ∷ xs) ys ≡ true
unfolding all contains
all-weaken xs [] x h k = refl
all-weaken xs (y ∷ ys) x h k = ground (arith, h, k, eq_iff x y, eq_iff y x, all-weaken xs ys x)

disjoint_nil : (ys : List String) → disjoint [] ys ≡ true
unfolding all contains
disjoint_nil [] = refl
disjoint_nil (y ∷ ys) = disjoint_nil ys

contains-skip :
    (n : ℕ) (xs : List String) (x : String) → contains xs x ≡ false → contains (skip n xs) x ≡ false
unfolding contains skip
contains-skip zero xs x h = h
contains-skip (suc n) [] x h = h
contains-skip (suc n) (y ∷ xs) x h = contains-skip n xs x (ground (arith, h))

-- The first names of a list without repetitions are not among the later ones.
pub disjoint-take :
    (n : ℕ) (xs : List String) → IsDistinct xs → disjoint (take n xs) (skip n xs) ≡ true
unfolding skip all
disjoint-take zero xs d = disjoint_nil xs
disjoint-take (suc n) [] d = refl
disjoint-take (suc n) (x ∷ xs) d =
    all-weaken (take n xs) (skip n xs) x (contains-skip n xs x d.0) (disjoint-take n xs d.1)

all-contains_cons :
    (xs ys : List String) (x : String)
    → all (contains xs) ys ≡ true
    → all (contains (x ∷ xs)) ys ≡ true
unfolding all contains
all-contains_cons xs [] x h = refl
all-contains_cons xs (y ∷ ys) x h = ground (arith, h, all-contains_cons xs ys x)

pub all-contains_self : (xs : List String) → all (contains xs) xs ≡ true
unfolding all contains
all-contains_self [] = refl
all-contains_self (x ∷ xs) =
    ground (arith, eq_refl x, all-contains_cons xs xs x (all-contains_self xs))

pub length-select {ℓ} :
    {A : Type ℓ} (p : A → Bool) (xs : List A) → length (select p xs) ≡ count_if p xs
unfolding select count_if
length-select p [] = refl
length-select p (x ∷ xs) = ground (arith, length-select p xs)

module _ (max_steps : ℕ) (kept_ids excess_ids : List String) (excess : List MissionStep)
    (last_id : String) where
  abbrev pub rebuilt : ℕ → List MissionStep → List MissionStep
  rebuilt k steps = rebuild max_steps kept_ids excess_ids excess last_id k steps

  -- Behind the limit no top-level step is kept.
  top_past_limit :
      (k : ℕ) (steps : List MissionStep)
      → max_steps ≤ k
      → disjoint kept_ids (top_ids steps) ≡ true
      → count_if is_top_level (rebuilt k steps) ≡ 0
  unfolding rebuild top_ids all count_if
  top_past_limit k [] h d = refl
  top_past_limit k (s ∷ steps) h d =
      ground
        (arith, h, d, top_past_limit (suc k) steps (omega (arith, h)), top_past_limit k steps h)

  -- With r top-level steps to keep, so many are kept, or all that there are.
  pub top_within_limit :
      (r k : ℕ) (steps : List MissionStep)
      → max_steps ≡ k + r
      → all (contains kept_ids) (take r (top_ids steps)) ≡ true
      → disjoint kept_ids (skip r (top_ids steps)) ≡ true
      → count_if is_top_level (rebuilt k steps) ≡ min r (length (top_ids steps))
  unfolding rebuild top_ids all count_if skip
  top_within_limit zero k steps e a d = top_past_limit k steps (omega (arith, e)) d ∙ omega arith
  top_within_limit (suc r) k [] e a d = omega arith
  top_within_limit (suc r) k (s ∷ steps) e a d = ground (
    arith,
    e,
    a,
    d,
    top_within_limit r (suc k) steps (omega (arith, e)),
    top_within_limit (suc r) k steps e,
  )

  pub sub_rebuilt :
      (k : ℕ) (steps : List MissionStep)
      → select is_sub_step (rebuilt k steps)
        ≡ map (moved excess_ids last_id) (select is_sub_step steps)
  unfolding rebuild select
  sub_rebuilt k [] = refl
  sub_rebuilt k (s ∷ steps) =
      by_parent s.parent_id refl (sub_rebuilt (suc k) steps) (sub_rebuilt k steps)
    where
      by_parent :
          (o : Option String)
          → s.parent_id ≡ o
          → select is_sub_step (rebuilt (suc k) steps)
            ≡ map (moved excess_ids last_id) (select is_sub_step steps)
          → select is_sub_step (rebuilt k steps)
            ≡ map (moved excess_ids last_id) (select is_sub_step steps)
          → select is_sub_step (rebuilt k (s ∷ steps))
            ≡ map (moved excess_ids last_id) (select is_sub_step (s ∷ steps))
      by_parent none e h g = ground (arith, e, h)
      by_parent (some p) e h g = elim (Bool-cases (contains excess_ids p)) [
        | inl gone ↦ rw (e, gone) (ap (λ l. record s { parent_id = some last_id } ∷ l) g)
        | inr kept ↦ rw (e, kept) (rw e (ap (λ l. record s { parent_id = some p } ∷ l) g))
      ]

  tops_top :
      (s : MissionStep) (steps : List MissionStep)
      → s.parent_id ≡ none
      → select is_top_level (s ∷ steps) ≡ s ∷ select is_top_level steps
  unfolding select
  tops_top s steps e = rw e refl

  tops_sub :
      (s : MissionStep) (steps : List MissionStep) (p : String)
      → s.parent_id ≡ some p
      → select is_top_level (s ∷ steps) ≡ select is_top_level steps
  unfolding select
  tops_sub s steps p e = rw e refl

  rebuilt_sub :
      (k : ℕ) (s : MissionStep) (steps : List MissionStep) (p : String)
      → s.parent_id ≡ some p
      → select is_top_level (rebuilt k (s ∷ steps)) ≡ select is_top_level (rebuilt k steps)
  unfolding rebuild select
  rebuilt_sub k s steps p e = elim (Bool-cases (contains excess_ids p)) [
    | inl gone ↦ rw (e, gone) refl
    | inr kept ↦ rw (e, kept) (rw e refl)
  ]

  rebuilt_last :
      (k : ℕ) (s : MissionStep) (steps : List MissionStep)
      → s.parent_id ≡ none
      → max_steps ≡ suc k
      → select is_top_level (rebuilt k (s ∷ steps))
        ≡ merge_excess excess s ∷ select is_top_level (rebuilt (suc k) steps)
  unfolding rebuild select merge_excess
  rebuilt_last k s steps e h =
      let last : eqb (suc k) max_steps ≡ true = ground (arith, h) in rw (e, last) (rw e refl)

  rebuilt_kept :
      (k : ℕ) (s : MissionStep) (steps : List MissionStep)
      → s.parent_id ≡ none
      → suc k < max_steps
      → contains kept_ids s.id ≡ true
      → select is_top_level (rebuilt k (s ∷ steps))
        ≡ s ∷ select is_top_level (rebuilt (suc k) steps)
  unfolding rebuild select
  rebuilt_kept k s steps e h c =
      let more : eqb (suc k) max_steps ≡ false = ground (arith, h) in rw (e, more, c) (rw e refl)

  ids_top :
      (s : MissionStep) (steps : List MissionStep)
      → s.parent_id ≡ none
      → top_ids (s ∷ steps) ≡ s.id ∷ top_ids steps
  unfolding top_ids
  ids_top s steps e = rw e refl

  ids_sub :
      (s : MissionStep) (steps : List MissionStep) (p : String)
      → s.parent_id ≡ some p
      → top_ids (s ∷ steps) ≡ top_ids steps
  unfolding top_ids
  ids_sub s steps p e = rw e refl

  none_past_limit :
      (k : ℕ) (steps : List MissionStep)
      → max_steps ≤ k
      → disjoint kept_ids (top_ids steps) ≡ true
      → select is_top_level (rebuilt k steps) ≡ []
  none_past_limit k steps h d =
      by_length (select is_top_level (rebuilt k steps))
        (length-select is_top_level (rebuilt k steps) ∙ top_past_limit k steps h d)
    where
      by_length : (xs : List MissionStep) → length xs ≡ 0 → xs ≡ []
      by_length [] e = refl
      by_length (x ∷ xs) e = absurd (omega (arith, e))

  -- The first r of these, and the next one with what the excess steps say.
  abbrev pub cut_at : ℕ → List MissionStep → List MissionStep
  cut_at r tops = take r tops ++ map (merge_excess excess) (take 1 (skip r tops))

  pub top_rebuilt :
      (r k : ℕ) (steps : List MissionStep)
      → max_steps ≡ suc k + r
      → all (contains kept_ids) (take (suc r) (top_ids steps)) ≡ true
      → disjoint kept_ids (skip (suc r) (top_ids steps)) ≡ true
      → select is_top_level (rebuilt k steps) ≡ cut_at r (select is_top_level steps)
  unfolding rebuild select skip all
  top_rebuilt zero k [] e a d = refl
  top_rebuilt (suc r) k [] e a d = refl
  top_rebuilt zero k (s ∷ steps) e a d = elim (Option-cases s.parent_id) [
    | inl f ↦
        rebuilt_last k s steps f (omega (arith, e))
        ∙ ap (λ l. merge_excess excess s ∷ l)
            (none_past_limit (suc k) steps (omega (arith, e))
              (subst (λ ids. disjoint kept_ids (skip 1 ids) ≡ true) (ids_top s steps f) d))
        ∙ sym (ap (cut_at 0) (tops_top s steps f))
    | inr (p, f) ↦
        rebuilt_sub k s steps p f
        ∙ top_rebuilt zero k steps e
            (subst (λ ids. all (contains kept_ids) (take 1 ids) ≡ true) (ids_sub s steps p f) a)
            (subst (λ ids. disjoint kept_ids (skip 1 ids) ≡ true) (ids_sub s steps p f) d)
        ∙ sym (ap (cut_at 0) (tops_sub s steps p f))
  ]
  top_rebuilt (suc r) k (s ∷ steps) e a d = elim (Option-cases s.parent_id) [
    | inl f ↦
        let kept : all (contains kept_ids) (s.id ∷ take (suc r) (top_ids steps)) ≡ true =
          subst (λ ids. all (contains kept_ids) (take (suc (suc r)) ids) ≡ true) (ids_top s steps f)
            a in
        rebuilt_kept k s steps f (omega (arith, e)) (ground (arith, kept))
        ∙ ap (λ l. s ∷ l)
            (top_rebuilt r (suc k) steps (omega (arith, e)) (ground (arith, kept)) (
              subst (λ ids. disjoint kept_ids (skip (suc (suc r)) ids) ≡ true) (ids_top s steps f)
                d))
        ∙ sym (ap (cut_at (suc r)) (tops_top s steps f))
    | inr (p, f) ↦
        rebuilt_sub k s steps p f
        ∙ top_rebuilt (suc r) k steps e
            (subst (λ ids. all (contains kept_ids) (take (suc (suc r)) ids) ≡ true)
              (ids_sub s steps p f) a)
            (subst (λ ids. disjoint kept_ids (skip (suc (suc r)) ids) ≡ true) (ids_sub s steps p f)
              d)
        ∙ sym (ap (cut_at (suc r)) (tops_sub s steps p f))
  ]

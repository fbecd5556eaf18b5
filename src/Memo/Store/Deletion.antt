-- ===== src/Memo/Store/Deletion.antt =====
-- What a deletion takes.
use agentic_workflows.Base.{
  String, ◌≡◌, refl, ap, ◌∙◌, Bool, not, ◌&&◌, ◌||◌, Option, none, some, List, [], ◌∷◌, arith,
  if◌then◌else◌, select, count_if, ◌==◌,
}
use agentic_workflows.Base.Text.{empty}
use agentic_workflows.Memo.Store.{Slot, slot_eq, Row, MemoStore, row_at, doomed, delete}
use agentic_workflows.Memo.Store.Laws.{slot_eq_iff, IsUnique, IsValid, row_at_sound}

-- The row that a key has is the only one that a deletion by the key can take.
row_at-select :
    (j k : Slot) (h : Option String) (rs : List Row)
    → IsUnique rs
    → row_at j (select (λ r. not (doomed k h r)) rs)
      ≡ elim (row_at j rs) [ none ↦ none | some r ↦ if doomed k h r then none else some r ]
unfolding row_at select
row_at-select j k h [] u = refl
row_at-select j k h (r ∷ rs) u = ground (arith, row_at-select j k h rs u.1, slot_eq_iff r.slot j)

count-doomed :
    (k : Slot) (h : Option String) (rs : List Row)
    → IsUnique rs
    → count_if (doomed k h) rs
      ≡ elim (row_at k rs) [ none ↦ 0 | some r ↦ if doomed k h r then 1 else 0 ]
unfolding row_at count_if doomed
count-doomed k none [] u = refl
count-doomed k (some h) [] u = refl
count-doomed k none (r ∷ rs) u = ground (arith, count-doomed k none rs u.1, slot_eq_iff r.slot k)
count-doomed k (some h) (r ∷ rs) u =
    ground (arith, count-doomed k (some h) rs u.1, slot_eq_iff r.slot k)

-- Whether a deletion takes what a key has: the key is the one named, and the hash fits if one is given.
abbrev pub taken : Slot → Option String → Slot → Row → Bool
taken k none j r = slot_eq j k
taken k (some h) j r = slot_eq j k && (empty h || r.value_hash == h)

doomed-eq-taken :
    (j k : Slot) (h : Option String) (r : Row) → r.slot ≡ j → doomed k h r ≡ taken k h j r
unfolding doomed
doomed-eq-taken j k none r e = rw e
doomed-eq-taken j k (some h) r e = ap (λ s. slot_eq s k && (empty h || r.value_hash == h)) e

-- A deletion takes the row of its key, if there is one and the hash that is given fits (an empty hash
-- fits any); it leaves every other key, and returns the number of rows that it took, 1 or 0.
delete_lem :
    (j k : Slot) (h : Option String) (s : MemoStore)
    → IsValid s
    → (row_at j (delete k h s).0.rows
        ≡ elim (row_at j s.rows) [ none ↦ none | some r ↦ if taken k h j r then none else some r ])
      × ((delete k h s).1
          ≡ elim (row_at k s.rows) [ none ↦ 0 | some r ↦ if taken k h k r then 1 else 0 ])
unfolding delete
delete_lem j k h s valid = (
  row_at-select j k h s.rows valid.unique
      ∙ in_cases (λ b r. if b then none else some r) none j (row_at j s.rows) refl,
  count-doomed k h s.rows valid.unique
      ∙ in_cases (λ b r. if b then 1 else 0) 0 k (row_at k s.rows) refl,
)
  where
    in_cases :
        {A : Type 0} (f : Bool → Row → A) (a : A) (i : Slot) (o : Option Row)
        → row_at i s.rows ≡ o
        → elim o as (λ x. A) [ none ↦ a | some r ↦ f (doomed k h r) r ]
          ≡ elim o as (λ x. A) [ none ↦ a | some r ↦ f (taken k h i r) r ]
    in_cases f a i none e = refl
    in_cases f a i (some r) e =
        ap (λ b. f b r) (doomed-eq-taken i k h r (row_at_sound i s.rows r e))

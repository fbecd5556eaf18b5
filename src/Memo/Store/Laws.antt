-- ===== src/Memo/Store/Laws.antt =====
-- The store as a map from its keys, and what the newest entry is.
use agentic_workflows.Base.{
  ℕ, suc, ◌<◌, String, ◌≡◌, refl, ap, ◌∙◌, ◌↔◌, inl, inr, Bool, true, false, Option, none, some,
  List, [], ◌∷◌, arith, if◌then◌else◌, eq_iff, Bool-cases, Option-cases,
}
use agentic_workflows.Base.Text.{empty}
use agentic_workflows.Values.{Value}
use agentic_workflows.Memo.Store.{
  Slot, slot_eq, Row, MemoStore, Entry, LookupResult, upsert, row_at, newest, newer, miss, goes_by,
  put_memo, hit, read_row, get_memo, get_latest,
}

pub slot_eq_iff : (a b : Slot) → (slot_eq a b ≡ true) ↔ (a ≡ b)
unfolding slot_eq
slot_eq_iff a b =
    ground (arith, eq_iff a.run_id b.run_id, eq_iff a.namespace b.namespace, eq_iff a.key b.key)

-- The unique index, and the ids: each key has one row, and ids are below the next one.
abbrev pub IsUnique : List Row → Type 0
IsUnique [] = Unit {0}
IsUnique (r ∷ rs) = (row_at r.slot rs ≡ none) × IsUnique rs

abbrev pub AreBelow : ℕ → List Row → Type 0
AreBelow n [] = Unit {0}
AreBelow n (r ∷ rs) = (r.id < n) × AreBelow n rs

pub record IsValid (s : MemoStore) : Type 0 where
  pub unique : IsUnique s.rows
  pub below : AreBelow s.next_id s.rows

abbrev stored : ℕ → Slot → Entry → Option Row → Row
stored next k e none = record {
  id = next;
  slot = k;
  value_json = e.value_json;
  value_hash = e.value_hash;
  source_tool = e.source_tool;
  step = e.step;
  created_at = e.created_at;
}
stored next k e (some r) = record r {
  value_json = e.value_json;
  value_hash = e.value_hash;
  source_tool = e.source_tool;
  step = e.step;
  created_at = e.created_at;
}

row_at-upsert :
    (next : ℕ) (k j : Slot) (e : Entry) (rs : List Row)
    → row_at j (upsert next k e rs)
      ≡ (if slot_eq k j then some (stored next k e (row_at k rs)) else row_at j rs)
unfolding row_at upsert
row_at-upsert next k j e [] = ground (arith, slot_eq_iff k j)
row_at-upsert next k j e (r ∷ rs) = ground (
  arith,
  slot_eq_iff k j,
  slot_eq_iff r.slot k,
  slot_eq_iff r.slot j,
  row_at-upsert next k j e rs,
)

pub row_at_sound : (k : Slot) (rs : List Row) (r : Row) → row_at k rs ≡ some r → r.slot ≡ k
unfolding row_at
row_at_sound k [] r h = cc
row_at_sound k (q ∷ rs) r h = ground (arith, slot_eq_iff q.slot k, row_at_sound k rs r)

slot_eq_refl : (k : Slot) → slot_eq k k ≡ true
slot_eq_refl k = (slot_eq_iff k k).1 refl

upsert-IsUnique :
    (next : ℕ) (k : Slot) (e : Entry) (rs : List Row) → IsUnique rs → IsUnique (upsert next k e rs)
unfolding upsert row_at
upsert-IsUnique next k e [] u = (refl, tt)
upsert-IsUnique next k e (r ∷ rs) u = elim (Bool-cases (slot_eq r.slot k)) [
  | inl same ↦ rw same u
  | inr other ↦ rw other (
    row_at-upsert next k r.slot e rs ∙ ground (arith, slot_eq_iff r.slot k, slot_eq_iff k r.slot),
    upsert-IsUnique next k e rs u.1,
  )
]

below-suc : (n : ℕ) (rs : List Row) → AreBelow n rs → AreBelow (suc n) rs
below-suc n [] h = tt
below-suc n (r ∷ rs) h = (omega arith, below-suc n rs h.1)

upsert_new-AreBelow :
    (n : ℕ) (k : Slot) (e : Entry) (rs : List Row)
    → AreBelow n rs
    → AreBelow (suc n) (upsert n k e rs)
unfolding upsert
upsert_new-AreBelow n k e [] h = (omega arith, tt)
upsert_new-AreBelow n k e (r ∷ rs) h = elim (Bool-cases (slot_eq r.slot k)) [
  | inl same ↦ rw same (omega arith, below-suc n rs h.1)
  | inr other ↦ rw other (omega arith, upsert_new-AreBelow n k e rs h.1)
]

upsert_old-AreBelow :
    (n : ℕ) (k : Slot) (e : Entry) (rs : List Row) (q : Row)
    → row_at k rs ≡ some q
    → AreBelow n rs
    → AreBelow n (upsert n k e rs)
unfolding upsert row_at
upsert_old-AreBelow n k e [] q f h = cc
upsert_old-AreBelow n k e (r ∷ rs) q f h = elim (Bool-cases (slot_eq r.slot k)) [
  | inl same ↦ rw same h
  | inr other ↦ rw other (h.0, upsert_old-AreBelow n k e rs q (ground arith) h.1)
]

module _ (dumps : Value → String) (loads : String → Value) (sha256 : String → String)
    (now : String) where
  -- A write keeps one row to each key, with ids below the next one.
  pub put_memo-IsValid :
      (k : Slot) (v : Value) (tool : String) (step : ℕ) (at : String) (s : MemoStore)
      → IsValid s
      → IsValid (put_memo dumps loads sha256 now k v tool step at s).0
  unfolding put_memo
  put_memo-IsValid k v tool step at s h = record {
    unique = upsert-IsUnique s.next_id k _ s.rows h.unique;
    below = elim (Option-cases (row_at k s.rows)) [
      | inl fresh ↦ rw (fresh, put_memo) (upsert_new-AreBelow s.next_id k _ s.rows h.below)
      | inr (r, old) ↦ rw (old, put_memo) (upsert_old-AreBelow s.next_id k _ s.rows r old h.below)
    ];
  }

  read_written :
      (k j : Slot) (v : Value) (e : Entry) (next : ℕ) (same : Bool) (old now_there : Option Row)
      → e.value_json ≡ dumps v
      → e.value_hash ≡ sha256 (dumps v)
      → read_row dumps loads sha256 now j (if same then some (stored next k e old) else now_there)
        ≡ (if same
            then record {
              found = true;
              slot = j;
              value = some (loads (dumps v));
              value_hash = some (sha256 (dumps v));
            }
            else read_row dumps loads sha256 now j now_there)
  unfolding read_row
  read_written k j v e next true none r p q = ground arith
  read_written k j v e next true (some o) r p q = ground arith
  read_written k j v e next false o r p q = refl

  -- After a write, its key reads back the value, as JSON text and back, and the value's hash; every
  -- other key reads what it read before.
  pub get-put_memo :
      (k j : Slot) (v : Value) (tool : String) (step : ℕ) (at : String) (s : MemoStore)
      → get_memo dumps loads sha256 now j (put_memo dumps loads sha256 now k v tool step at s).0 ≡ (
          if slot_eq k j
          then record {
            found = true;
            slot = j;
            value = some (loads (dumps v));
            value_hash = some (sha256 (dumps v));
          }
          else get_memo dumps loads sha256 now j s)
  unfolding put_memo get_memo
  get-put_memo k j v tool step at s =
      let e : Entry = record {
        value_json = dumps v;
        value_hash = sha256 (dumps v);
        source_tool = tool;
        step = step;
        created_at = if empty at then now else at;
      } in
      ap (read_row dumps loads sha256 now j) (row_at-upsert s.next_id k j e s.rows)
      ∙ read_written k j v e s.next_id (slot_eq k j) (row_at k s.rows) (row_at j s.rows) refl refl

-- The id and the key of a row.
abbrev stamp : Option Row → Option (ℕ × Slot)
stamp none = none
stamp (some r) = some (r.id, r.slot)

stamp-newer :
    (r q : Row) (o p : Option Row)
    → r.id ≡ q.id
    → r.slot ≡ q.slot
    → stamp o ≡ stamp p
    → stamp (some (newer r o)) ≡ stamp (some (newer q p))
unfolding newer
stamp-newer r q none none e f g = ground arith
stamp-newer r q none (some b) e f g = cc
stamp-newer r q (some a) none e f g = cc
stamp-newer r q (some a) (some b) e f g = ground arith

stamp-newest-upsert :
    (key namespace : String) (next : ℕ) (k : Slot) (e : Entry) (rs : List Row) (old : Row)
    → row_at k rs ≡ some old
    → stamp (newest (goes_by key namespace) (upsert next k e rs))
      ≡ stamp (newest (goes_by key namespace) rs)
unfolding newest upsert row_at
stamp-newest-upsert key ns next k e [] old h = cc
stamp-newest-upsert key ns next k e (r ∷ rs) old h = elim (Bool-cases (goes_by key ns r)) [
  | inl fits ↦ elim (Bool-cases (slot_eq r.slot k)) [
    | inl same ↦ rw (same, fits) (stamp-newer _ r _ _ refl refl refl)
    | inr other ↦
        rw (other, fits)
          (stamp-newer r r _ _ refl refl
            (stamp-newest-upsert key ns next k e rs old (ground arith)))
  ]
  | inr not_fits ↦ elim (Bool-cases (slot_eq r.slot k)) [
    | inl same ↦ rw (same, not_fits)
    | inr other ↦ rw (other, not_fits) (stamp-newest-upsert key ns next k e rs old (ground arith))
  ]
]

newest-AreBelow :
    (p : Row → Bool) (n : ℕ) (rs : List Row) (r : Row)
    → AreBelow n rs
    → newest p rs ≡ some r
    → r.id < n
unfolding newest newer
newest-AreBelow p n [] r b h = cc
newest-AreBelow p n (q ∷ rs) r b h = elim (Option-cases (newest p rs)) [
  | inl e ↦ ground arith
  | inr (a, e) ↦ ground (arith, newest-AreBelow p n rs a b.1 e)
]

-- A write to a key that has a row does not change which run `get_latest` finds, also where another
-- run's entry was the latest: it goes by the first insertion, not by the last write.
pub get_latest-put_memo_old :
    (dumps : Value → String) (loads : String → Value) (sha256 : String → String) (now : String)
    (key namespace : String) (k : Slot) (v : Value) (tool : String) (step : ℕ) (at : String)
    (s : MemoStore) (old : Row)
    → row_at k s.rows ≡ some old
    → (get_latest dumps loads sha256 now key namespace
        (put_memo dumps loads sha256 now k v tool step at s).0).slot
      ≡ (get_latest dumps loads sha256 now key namespace s).slot
unfolding get_latest put_memo
get_latest-put_memo_old dumps loads sha256 now key ns k v tool step at s old h =
    found_slot _ (newest (goes_by key ns) s.rows)
      (stamp-newest-upsert key ns s.next_id k _ s.rows old h)
  where
    found_slot :
        (o p : Option Row)
        → stamp o ≡ stamp p
        → (elim o as (λ x. LookupResult) [
          | none ↦ miss (record { run_id = ""; namespace = ns; key = key })
          | some r ↦
              hit dumps loads sha256 now
                (record { run_id = r.slot.run_id; namespace = ns; key = key })
                r
        ]).slot
          ≡ (elim p as (λ x. LookupResult) [
            | none ↦ miss (record { run_id = ""; namespace = ns; key = key })
            | some r ↦
                hit dumps loads sha256 now
                  (record { run_id = r.slot.run_id; namespace = ns; key = key })
                  r
          ]).slot
    found_slot none none e = refl
    found_slot none (some r) e = cc
    found_slot (some r) none e = cc
    found_slot (some r) (some q) e = ground arith

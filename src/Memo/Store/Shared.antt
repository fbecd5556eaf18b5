-- ===== src/Memo/Store/Shared.antt =====
-- A namespace that only one run writes: its newest entry under a key is the one of that run.
use agentic_workflows.Base.{
  ℕ, String, ◌≡◌, refl, sym, ap, ◌∙◌, inl, inr, Bool, true, false, not, ◌||◌, Option, none, some,
  List, [], ◌∷◌, arith, ◌==◌, eq_iff, Bool-cases, if◌then◌else◌,
}
use agentic_workflows.Values.{Value}
use agentic_workflows.Memo.Store.{
  Slot, slot_eq, Row, MemoStore, Entry, LookupResult, upsert, row_at, newest, newer, goes_by, miss,
  hit, put_memo, read_row, get_memo, get_latest,
}
use agentic_workflows.Memo.Store.Laws.{
  IsUnique, IsValid, slot_eq_iff, put_memo-IsValid, get-put_memo,
}

-- The rows of the namespace are of the run.
abbrev pub OnlyRun : String → String → List Row → Type 0
OnlyRun run ns [] = Unit {0}
OnlyRun run ns (r ∷ rs) =
    ((not (r.slot.namespace == ns) || r.slot.run_id == run) ≡ true) × OnlyRun run ns rs

abbrev slot_of : String → String → String → Slot
slot_of run ns key = record { run_id = run; namespace = ns; key = key }

goes_by-slot_eq :
    (run ns key : String) (r : Row)
    → (not (r.slot.namespace == ns) || r.slot.run_id == run) ≡ true
    → goes_by key ns r ≡ slot_eq r.slot (slot_of run ns key)
unfolding slot_eq
goes_by-slot_eq run ns key r h = ground arith

newest-row_at :
    (run ns key : String) (rs : List Row)
    → IsUnique rs
    → OnlyRun run ns rs
    → newest (goes_by key ns) rs ≡ row_at (slot_of run ns key) rs
unfolding newest newer row_at
newest-row_at run ns key [] u o = refl
newest-row_at run ns key (r ∷ rs) u o =
    let k = slot_of run ns key in
    let rest = newest-row_at run ns key rs u.1 o.1 in
    elim (Bool-cases (slot_eq r.slot k)) [
      | inl same ↦
          let at : r.slot ≡ k = (slot_eq_iff r.slot k).0 same in
          rw (goes_by-slot_eq run ns key r o.0, same, rest, sym at, u.0)
      | inr other ↦ rw (goes_by-slot_eq run ns key r o.0, other, rest)
    ]

upsert-OnlyRun :
    (run ns : String) (next : ℕ) (key : String) (e : Entry) (rs : List Row)
    → OnlyRun run ns rs
    → OnlyRun run ns (upsert next (slot_of run ns key) e rs)
unfolding upsert
upsert-OnlyRun run ns next key e [] o = (ground (arith, eq_iff run run), tt)
upsert-OnlyRun run ns next key e (r ∷ rs) o =
    elim (Bool-cases (slot_eq r.slot (slot_of run ns key))) [
      | inl same ↦ rw same o
      | inr other ↦ rw other (o.0, upsert-OnlyRun run ns next key e rs o.1)
    ]

module _ (dumps : Value → String) (loads : String → Value) (sha256 : String → String)
    (now : String) where
  value_of :
      (run ns key : String) (o : Option Row)
      → (elim o as (λ x. LookupResult) [
        | none ↦ miss (slot_of "" ns key)
        | some r ↦ hit dumps loads sha256 now (slot_of r.slot.run_id ns key) r
      ]).value
        ≡ (read_row dumps loads sha256 now (slot_of run ns key) o).value
  unfolding read_row hit
  value_of run ns key none = refl
  value_of run ns key (some r) = refl

  latest-memo :
      (run ns key : String) (s : MemoStore)
      → IsUnique s.rows
      → OnlyRun run ns s.rows
      → (get_latest dumps loads sha256 now key ns s).value
        ≡ (get_memo dumps loads sha256 now (slot_of run ns key) s).value
  unfolding get_latest get_memo
  latest-memo run ns key s u o =
      rw (newest-row_at run ns key s.rows u o, get_latest)
        (value_of run ns key (row_at (slot_of run ns key) s.rows))

  pub put-OnlyRun :
      (run ns k : String) (v : Value) (tool : String) (step : ℕ) (at : String) (s : MemoStore)
      → OnlyRun run ns s.rows
      → OnlyRun run ns (put_memo dumps loads sha256 now (slot_of run ns k) v tool step at s).0.rows
  unfolding put_memo
  put-OnlyRun run ns k v tool step at s o = upsert-OnlyRun run ns s.next_id k _ s.rows o

  value-if :
      (b c : Bool) (l m : LookupResult) {o : Option Value}
      → b ≡ c
      → m.value ≡ o
      → (if b then l else m).value ≡ (if c then l.value else o)
  value-if true true l m e f = refl
  value-if true false l m e f = cc
  value-if false true l m e f = cc
  value-if false false l m e f = f

  -- What the newest entry under a key is after a write of the run.
  pub latest-put :
      (run ns k key : String) (v : Value) (tool : String) (step : ℕ) (at : String) (s : MemoStore)
      → IsValid s
      → OnlyRun run ns s.rows
      → (get_latest dumps loads sha256 now key ns
          (put_memo dumps loads sha256 now (slot_of run ns k) v tool step at s).0).value
        ≡ (if key == k
            then some (loads (dumps v))
            else (get_latest dumps loads sha256 now key ns s).value)
  unfolding slot_eq
  latest-put run ns k key v tool step at s u o =
      let slot = slot_of run ns k in
      let after = (put_memo dumps loads sha256 now slot v tool step at s).0 in
      latest-memo run ns key after
        (put_memo-IsValid dumps loads sha256 now slot v tool step at s u).unique
        (put-OnlyRun run ns k v tool step at s o)
      ∙ ap (λ l. l.value)
          (get-put_memo dumps loads sha256 now slot (slot_of run ns key) v tool step at s)
      ∙ value-if (slot_eq slot (slot_of run ns key)) (key == k) _ _
          (ground (arith, eq_iff key k, eq_iff k key, eq_iff run run, eq_iff ns ns))
          (sym (latest-memo run ns key s u.unique o))

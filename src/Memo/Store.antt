-- ===== src/Memo/Store.antt =====
-- orchestration/langgraph/memo_store.py: `SQLiteMemoStore` as a table with a unique key. The JSON
-- text of a value, its reading and its hash are parameters; row order is the order of insertion.
pub mod Laws
pub mod Shared
mod Deletion
pub mod Samples
use agentic_workflows.Base.{
  ℕ, suc, String, ap, Bool, true, false, not, ◌&&◌, ◌||◌, Option, none, some, List, [], ◌∷◌, map,
  ltb, leb, eqb, if◌then◌else◌, select, count_if, ◌==◌,
}
use agentic_workflows.Base.Text.{empty}
use agentic_workflows.Values.{Value, obj, Fields, get, put, has}

-- The columns of the unique index.
pub record Slot : Type 0 where
  pub run_id : String
  pub namespace : String
  pub key : String

unfoldable pub slot_eq : Slot → Slot → Bool
slot_eq a b = a.run_id == b.run_id && a.namespace == b.namespace && a.key == b.key

pub record Row : Type 0 where
  pub id : ℕ
  pub slot : Slot
  pub value_json : String
  pub value_hash : String
  pub source_tool : String
  pub step : ℕ
  pub created_at : String

pub record MemoStore : Type 0 where
  pub rows : List Row
  pub next_id : ℕ

abbrev pub empty_store : MemoStore
empty_store = record { rows = []; next_id = 1 }

-- What a write sets, in a new row or in the row that has the key.
pub record Entry : Type 0 where
  pub value_json : String
  pub value_hash : String
  pub source_tool : String
  pub step : ℕ
  pub created_at : String

pub record PutResult : Type 0 where
  pub inserted : Bool
  pub slot : Slot
  pub value_hash : String

pub record LookupResult : Type 0 where
  pub found : Bool
  pub slot : Slot
  pub value : Option Value
  pub value_hash : Option String

-- INSERT … ON CONFLICT(run_id, namespace, key) DO UPDATE: a row keeps its id when it is updated.
unfoldable pub upsert : ℕ → Slot → Entry → List Row → List Row
upsert next k e [] =
    record {
      id = next;
      slot = k;
      value_json = e.value_json;
      value_hash = e.value_hash;
      source_tool = e.source_tool;
      step = e.step;
      created_at = e.created_at;
    }
    ∷ []
upsert next k e (r ∷ rs) =
    if slot_eq r.slot k
    then record r {
      value_json = e.value_json;
      value_hash = e.value_hash;
      source_tool = e.source_tool;
      step = e.step;
      created_at = e.created_at;
    }
      ∷ rs
    else r ∷ upsert next k e rs

-- SELECT … WHERE run_id = ? AND namespace = ? AND key = ?
unfoldable pub row_at : Slot → List Row → Option Row
row_at k [] = none
row_at k (r ∷ rs) = let rest = row_at k rs in if slot_eq r.slot k then some r else rest

-- ORDER BY id DESC LIMIT 1
newer : Row → Option Row → Row
newer r none = r
newer r (some q) = if ltb q.id r.id then r else q

unfoldable pub newest : (Row → Bool) → List Row → Option Row
unfolding newer
newest p [] = none
newest p (r ∷ rs) = let rest = newest p rs in if p r then some (newer r rest) else rest

-- ORDER BY step ASC, id ASC
before : Row → Row → Bool
before a b = ltb a.step b.step || (eqb a.step b.step && leb a.id b.id)

insert_row : Row → List Row → List Row
unfolding before
insert_row r [] = r ∷ []
insert_row r (q ∷ qs) = if before r q then r ∷ q ∷ qs else q ∷ insert_row r qs

sort_rows : List Row → List Row
unfolding insert_row
sort_rows [] = []
sort_rows (r ∷ rs) = insert_row r (sort_rows rs)

pub record EntryInfo : Type 0 where
  pub key : String
  pub value_hash : String
  pub source_tool : String
  pub step : ℕ
  pub created_at : String

info : Row → EntryInfo
info r = record {
  key = r.slot.key;
  value_hash = r.value_hash;
  source_tool = r.source_tool;
  step = r.step;
  created_at = r.created_at;
}

list_entries : String → String → MemoStore → List EntryInfo
unfolding sort_rows info select
list_entries run_id namespace store =
    map info (
      sort_rows (select (λ r. r.slot.run_id == run_id && r.slot.namespace == namespace) store.rows))

-- WHERE … AND value_hash = ?, where a hash that is not empty is given
doomed : Slot → Option String → Row → Bool
doomed k none r = slot_eq r.slot k
doomed k (some h) r = slot_eq r.slot k && (empty h || r.value_hash == h)

unfoldable pub delete : Slot → Option String → MemoStore → MemoStore × ℕ
unfolding doomed select count_if
delete k value_hash store = (
  record store { rows = select (λ r. not (doomed k value_hash r)) store.rows },
  count_if (doomed k value_hash) store.rows,
)

-- WHERE namespace = ? AND key = ?
abbrev goes_by : String → String → Row → Bool
goes_by key namespace r = r.slot.namespace == namespace && r.slot.key == key

abbrev miss : Slot → LookupResult
miss k = record { found = false; slot = k; value = none; value_hash = none }

module _ (dumps : Value → String) (loads : String → Value) (sha256 : String → String)
    (now : String) where
  -- hash_json
  pub hash_json : Value → String
  hash_json value = sha256 (dumps value)

  unfoldable pub put_memo : Slot → Value → String → ℕ → String → MemoStore → MemoStore × PutResult
  unfolding hash_json
  put_memo k value source_tool step created_at store =
      let e : Entry = record {
        value_json = dumps value;
        value_hash = hash_json value;
        source_tool = source_tool;
        step = step;
        created_at = if empty created_at then now else created_at;
      } in
      (
        record {
          rows = upsert store.next_id k e store.rows;
          next_id = elim (row_at k store.rows) [
            | none ↦ suc store.next_id
            | some r ↦ store.next_id
          ];
        },
        record { inserted = true; slot = k; value_hash = hash_json value },
      )

  unfoldable pub hit : Slot → Row → LookupResult
  hit k r = record {
    found = true;
    slot = k;
    value = some (loads r.value_json);
    value_hash = some r.value_hash;
  }

  read_row : Slot → Option Row → LookupResult
  unfolding hit
  read_row k none = miss k
  read_row k (some r) = hit k r

  unfoldable pub get_memo : Slot → MemoStore → LookupResult
  unfolding read_row
  get_memo k store = read_row k (row_at k store.rows)

  unfoldable pub get_latest : String → String → MemoStore → LookupResult
  unfolding hit
  get_latest key namespace store = elim (newest (goes_by key namespace) store.rows) [
    | none ↦ miss (record { run_id = ""; namespace = namespace; key = key })
    | some r ↦ hit (record { run_id = r.slot.run_id; namespace = namespace; key = key }) r
  ]

  get_cache_value : String → String → MemoStore → Option Fields
  unfolding get_memo
  get_cache_value key run_id store =
      as_payload (get_memo (record { run_id = run_id; namespace = "cache"; key = key }) store).value
    where
      as_payload : Option Value → Option Fields
      as_payload (some (obj d)) = some d
      as_payload v = none

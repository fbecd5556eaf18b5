-- ===== src/Memo/Store/Samples.antt =====
-- A store with one key in two runs, and the theorems at it.
use agentic_workflows.Base.{String, ◌≡◌, refl, some}
use agentic_workflows.Values.{Value, str, to_str}
use agentic_workflows.Memo.Store.{
  Slot, slot_eq, Row, MemoStore, empty_store, row_at, delete, list_entries, put_memo, get_memo,
  get_latest, get_cache_value,
}
use agentic_workflows.Memo.Store.Laws.{
  IsValid, put_memo-IsValid, get-put_memo, get_latest-put_memo_old,
}

abbrev dumps : Value → String
dumps v = to_str v

abbrev loads : String → Value
loads s = str s

abbrev sha256 : String → String
sha256 s = s

abbrev slot : String → Slot
slot run_id = record { run_id = run_id; namespace = "run"; key = "k" }

abbrev remember : String → String → MemoStore → MemoStore
remember run_id v s = (put_memo dumps loads sha256 "now" (slot run_id) (str v) "memoize" 0 "" s).0

abbrev two_runs : MemoStore
two_runs = remember "b" "2" (remember "a" "1" empty_store)

stores : Unit {0}
unfolding put_memo get_memo get_latest delete list_entries get_cache_value row_at to_str slot_eq
stores = tt

get_test : (get_memo dumps loads sha256 "now" (slot "a") two_runs).value ≡ some (str "1")
unfolding stores agentic_workflows.Memo.Store.upsert
get_test = refl

-- The last write was run "a"'s, and run "b" is still the latest.
latest_test :
    (get_latest dumps loads sha256 "now" "k" "run" (remember "a" "3" two_runs)).value
    ≡ some (str "2")
unfolding stores agentic_workflows.Memo.Store.newest agentic_workflows.Memo.Store.upsert
latest_test = refl

delete_test : (delete (slot "a") (some "9") two_runs).1 ≡ 0
unfolding stores agentic_workflows.Memo.Store.upsert
delete_test = refl

empty-IsValid : IsValid empty_store
empty-IsValid = record { unique = tt; below = tt }

put_memo-IsValid_example : IsValid (remember "a" "1" empty_store)
put_memo-IsValid_example =
    put_memo-IsValid dumps loads sha256 "now" (slot "a") (str "1") "memoize" 0 "" empty_store
      empty-IsValid

get-put_memo_example :
    get_memo dumps loads sha256 "now" (slot "b") (remember "a" "1" empty_store)
    ≡ get_memo dumps loads sha256 "now" (slot "b") empty_store
unfolding slot_eq
get-put_memo_example =
    get-put_memo dumps loads sha256 "now" (slot "a") (slot "b") (str "1") "memoize" 0 "" empty_store

one_run-IsValid : IsValid (remember "a" "1" empty_store)
one_run-IsValid =
    put_memo-IsValid dumps loads sha256 "now" (slot "a") (str "1") "memoize" 0 "" empty_store
      empty-IsValid

old_row : (r : Row) × (row_at (slot "a") two_runs.rows ≡ some r)
unfolding stores agentic_workflows.Memo.Store.upsert
old_row = (_, refl)

get_latest-put_memo_old_example :
    (get_latest dumps loads sha256 "now" "k" "run" (remember "a" "3" two_runs)).slot
    ≡ (get_latest dumps loads sha256 "now" "k" "run" two_runs).slot
get_latest-put_memo_old_example =
    get_latest-put_memo_old dumps loads sha256 "now" "k" "run" (slot "a") (str "3") "memoize" 0 ""
      two_runs old_row.0 old_row.1

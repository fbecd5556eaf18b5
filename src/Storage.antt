-- ===== src/Storage.antt =====
-- storage/sqlite.py: the table of runs, behind its lock. SQLite is read as a table of rows with its
-- checks: the primary key, the NOT NULL columns, the names of the columns and the values that a column
-- can take; it converts no value between types.
pub mod Runs
pub mod Listing
pub mod Maps
pub mod Laws
pub mod Pages
pub mod Cursors
pub mod Dicts
mod Samples
use agentic_workflows.Base.{
  ◌+◌, String, ap, Bool, true, false, not, ◌&&◌, Option, none, some, List, [], ◌∷◌, ◌++◌, ℕ, ltb,
  if◌then◌else◌, find, all, contains, ◌==◌,
}
use agentic_workflows.Base.Int.{pos, negsuc}
use agentic_workflows.Values.{Value, null, int, str, arr, obj, Fields, end, field, get, put}

pub data SqlError : Type 0 where
  integrity_error : SqlError
  operational_error : SqlError
  programming_error : SqlError
  overflow_error : SqlError
  type_error : SqlError
  value_error : SqlError

pub data SqlResult {ℓ} (A : Type ℓ) : Type ℓ where
  ok : A → SqlResult A
  raised : SqlError → SqlResult A

-- A row: the columns behind the key, in the table's order.
pub record RunRow : Type 0 where
  pub run_id : String
  pub columns : Fields

abbrev pub column_names : List String
column_names =
    "status" ∷ "user_input" ∷ "prior_context_json" ∷ "client_ip" ∷ "request_headers_json"
    ∷ "result_json" ∷ "created_at" ∷ "completed_at" ∷ "missions_completed" ∷ "tools_used_json" ∷ []

-- dict(row)
abbrev pub row_dict : RunRow → Fields
row_dict row = field "run_id" (str row.run_id) row.columns

abbrev pub json_columns : List String
json_columns =
    "prior_context_json" ∷ "request_headers_json" ∷ "result_json" ∷ "tools_used_json" ∷ []

unfoldable pub field_to_column : String → String
field_to_column name =
    if name == "prior_context"
    then "prior_context_json"
    else if name == "request_headers"
    then "request_headers_json"
    else if name == "result"
    then "result_json"
    else if name == "tools_used"
    then "tools_used_json"
    else name

-- 2 ^ 63
abbrev int_limit : ℕ
int_limit = 9223372036854775808

-- What sqlite3 can bind to a parameter: no list or dict, and no integer beyond 64 bits.
storable : Value → Bool
storable (arr vs) = false
storable (obj fs) = false
storable (int (pos n)) = ltb n int_limit
storable (int (negsuc n)) = ltb n int_limit
storable v = true

-- What sqlite3 raises for a value that it cannot bind.
refusal : Value → SqlError
refusal (int z) = overflow_error
refusal v = programming_error

-- What the first value that cannot be bound raises.
unfoldable pub binding_error : Fields → SqlError
unfolding storable refusal
binding_error end = programming_error
binding_error (field k v fs) = if storable v then binding_error fs else refusal v

unfoldable pub find_row : String → List RunRow → Option RunRow
find_row run_id [] = none
find_row run_id (row ∷ rows) =
    let rest = find_row run_id rows in if row.run_id == run_id then some row else rest

-- SELECT * FROM runs WHERE run_id = ?
unfoldable pub get_run : String → List RunRow → Option Fields
unfolding find_row
get_run run_id rows = elim (find_row run_id rows) [ none ↦ none | some row ↦ some (row_dict row) ]

unfoldable pub all_storable : Fields → Bool
unfolding storable
all_storable end = true
all_storable (field k v fs) = storable v && all_storable fs

-- INSERT INTO runs
unfoldable pub insert_run_row : RunRow → List RunRow → SqlResult (List RunRow)
unfolding all_storable find_row
insert_run_row row rows =
    if not (all_storable row.columns)
    then raised (binding_error row.columns)
    else elim (find_row row.run_id rows) [
      | some other ↦ raised integrity_error
      | none ↦ ok (rows ++ row ∷ [])
    ]

unfoldable pub known_columns : Fields → Bool
unfolding contains
known_columns end = true
known_columns (field col v clauses) = contains column_names col && known_columns clauses

unfoldable pub assign : Fields → Fields → Fields
unfolding put
assign end columns = columns
assign (field col v clauses) columns = assign clauses (put col v columns)

-- Whether the NOT NULL columns have values.
unfoldable pub keeps_required : Fields → Bool
unfolding get
keeps_required columns = is_value (get "status" columns) && is_value (get "created_at" columns)
  where
    is_value : Option Value → Bool
    is_value (some null) = false
    is_value o = true

unfoldable pub update_rows : String → Fields → List RunRow → List RunRow
unfolding assign
update_rows run_id clauses [] = []
update_rows run_id clauses (row ∷ rows) =
    let rest = update_rows run_id clauses rows in
    if row.run_id == run_id
    then record { run_id = row.run_id; columns = assign clauses row.columns } ∷ rest
    else row ∷ rest

-- Whether the row that is changed keeps the NOT NULL columns.
unfoldable pub update_allowed : String → Fields → List RunRow → Bool
unfolding find_row assign keeps_required
update_allowed run_id clauses rows = elim (find_row run_id rows) [
  | none ↦ true
  | some row ↦ keeps_required (assign clauses row.columns)
]

unfoldable pub no_clauses : Fields → Bool
no_clauses end = true
no_clauses (field k v fs) = false

-- UPDATE runs SET ... WHERE run_id = ?, when there is anything to set
unfoldable pub change_rows : String → Fields → List RunRow → SqlResult (List RunRow)
unfolding no_clauses known_columns all_storable update_allowed update_rows
change_rows run_id clauses rows =
    if no_clauses clauses
    then ok rows
    else if not (known_columns clauses && all_storable clauses)
    then raised (if known_columns clauses then binding_error clauses else operational_error)
    else if update_allowed run_id clauses rows
    then ok (update_rows run_id clauses rows)
    else raised integrity_error

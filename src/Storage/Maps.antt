-- ===== src/Storage/Maps.antt =====
-- The table of runs as a map from ids to runs, and what its writes leave to be read.
use agentic_workflows.Base.{
  String, ◌≡◌, true, false, not, ◌&&◌, Option, none, some, List, [], ◌∷◌, ◌++◌, arith,
  if◌then◌else◌, ◌==◌, eq_iff,
}
use agentic_workflows.Values.{Fields}
use agentic_workflows.Storage.{
  integrity_error, operational_error, binding_error, SqlResult, ok, raised, RunRow, find_row,
  all_storable, known_columns, assign, keeps_required, update_rows, no_clauses,
}

-- The abstract store: the columns of each run that is there, in no order.
abbrev pub RunMap : Type 0
RunMap = String → Option Fields

abbrev pub columns_of : Option RunRow → Option Fields
columns_of none = none
columns_of (some row) = some row.columns

-- A table stands for the map that its reads make up.
abbrev pub Refines : List RunRow → RunMap → Type 0
Refines rows m = (j : String) → columns_of (find_row j rows) ≡ m j

-- The outcomes of an operation on the table and on the map agree, errors included.
abbrev pub Simulates : SqlResult (List RunRow) → SqlResult RunMap → Type 0
Simulates (ok rows) (ok m) = Refines rows m
Simulates (raised e) (raised f) = e ≡ f
Simulates (ok rows) (raised f) = true ≡ false
Simulates (raised e) (ok m) = true ≡ false

abbrev pub put_run : String → Fields → RunMap → RunMap
put_run id columns m j = if id == j then some columns else m j

pub find_row-append :
    (j : String) (rows : List RunRow) (row : RunRow)
    → find_row row.run_id rows ≡ none
    → columns_of (find_row j (rows ++ row ∷ []))
      ≡ (if row.run_id == j then some row.columns else columns_of (find_row j rows))
unfolding find_row
find_row-append j [] row h = ground arith
find_row-append j (other ∷ rows) row h = ground (
  arith,
  h,
  eq_iff row.run_id j,
  eq_iff other.run_id j,
  eq_iff other.run_id row.run_id,
  find_row-append j rows row,
)

-- What an update makes of a row.
abbrev pub assigned : Fields → Option RunRow → Option Fields
assigned clauses none = none
assigned clauses (some row) = some (assign clauses row.columns)

pub find_row-update :
    (id j : String) (clauses : Fields) (rows : List RunRow)
    → columns_of (find_row j (update_rows id clauses rows))
      ≡ (if id == j then assigned clauses (find_row j rows) else columns_of (find_row j rows))
unfolding find_row update_rows
find_row-update id j clauses [] = ground arith
find_row-update id j clauses (row ∷ rows) = ground (
  arith,
  eq_iff id j,
  eq_iff row.run_id j,
  eq_iff row.run_id id,
  find_row-update id j clauses rows,
)

-- The abstract operations.
abbrev pub insert_run : String → Fields → RunMap → SqlResult RunMap
insert_run id columns m =
    if not (all_storable columns)
    then raised (binding_error columns)
    else elim (m id) [ some old ↦ raised integrity_error | none ↦ ok (put_run id columns m) ]

abbrev pub change_known : String → Fields → RunMap → SqlResult RunMap
change_known id clauses m = elim (m id) [
  | none ↦ ok m
  | some columns ↦
      if keeps_required (assign clauses columns)
      then ok (put_run id (assign clauses columns) m)
      else raised integrity_error
]

abbrev pub change_run : String → Fields → RunMap → SqlResult RunMap
change_run id clauses m =
    if no_clauses clauses
    then ok m
    else if not (known_columns clauses && all_storable clauses)
    then raised (if known_columns clauses then binding_error clauses else operational_error)
    else change_known id clauses m

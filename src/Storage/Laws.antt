-- ===== src/Storage/Laws.antt =====
-- The table of runs implements the map from ids to runs.
use mathlib.Core.Path.{subst}
use agentic_workflows.Storage.Maps.{
  RunMap, Refines, Simulates, columns_of, put_run, insert_run, change_known, change_run,
  find_row-append, find_row-update,
}
use agentic_workflows.Base.{
  ℕ, String, ◌≡◌, refl, sym, ap, ◌∙◌, Bool, true, false, not, ◌&&◌, Option, none, some, List, [],
  ◌∷◌, ◌++◌, arith, if◌then◌else◌, ◌==◌, eq_iff,
}
use agentic_workflows.Values.{Value, null, Fields}
use agentic_workflows.Storage.{
  change_rows, integrity_error, SqlResult, ok, raised, RunRow, find_row, all_storable,
  insert_run_row, known_columns, assign, keeps_required, update_rows, update_allowed, no_clauses,
}
use agentic_workflows.Storage.Runs.{
  given, bounded_result, new_columns, save_run, set_clauses, update_run,
}

if-Simulates :
    (b : Bool) (x y : SqlResult (List RunRow)) (u v : SqlResult RunMap)
    → Simulates x u
    → Simulates y v
    → Simulates (if b then x else y) (if b then u else v)
if-Simulates true x y u v h k = h
if-Simulates false x y u v h k = k

insert-Simulates :
    (o : Option RunRow) (c : Option Fields) (rows : List RunRow) (m : RunMap)
    → columns_of o ≡ c
    → (o ≡ none → Refines rows m)
    → Simulates
        (elim o [ some other ↦ raised integrity_error | none ↦ ok rows ])
        (elim c [ some old ↦ raised integrity_error | none ↦ ok m ])
insert-Simulates none none rows m e h = h refl
insert-Simulates none (some c) rows m e h = absurd (ground (arith, e))
insert-Simulates (some row) none rows m e h = absurd (ground (arith, e))
insert-Simulates (some row) (some c) rows m e h = refl

-- The row is put only where there is none, so it stands for the map with it.
append-Refines :
    (id : String) (columns : Fields) (rows : List RunRow) (m : RunMap)
    → Refines rows m
    → find_row id rows ≡ none
    → Refines (rows ++ record { run_id = id; columns = columns } ∷ []) (put_run id columns m)
append-Refines id columns rows m h e j =
    let new : RunRow = record { run_id = id; columns = columns } in
    find_row-append j rows new e ∙ ap (λ c. if id == j then some columns else c) (h j)

insert_run_row-Simulates :
    (id : String) (columns : Fields) (rows : List RunRow) (m : RunMap)
    → Refines rows m
    → Simulates
        (insert_run_row record { run_id = id; columns = columns } rows)
        (insert_run id columns m)
unfolding insert_run_row
insert_run_row-Simulates id columns rows m h =
    if-Simulates (not (all_storable columns)) _ _ _ _ refl
      (insert-Simulates (find_row id rows) (m id) _ _ (h id) (append-Refines id columns rows m h))

-- The row is changed, and no other.
update-Refines :
    (id : String) (clauses columns : Fields) (rows : List RunRow) (m : RunMap)
    → Refines rows m
    → m id ≡ some columns
    → Refines (update_rows id clauses rows) (put_run id (assign clauses columns) m)
update-Refines id clauses columns rows m h e j =
    ground (arith, e, h j, h id, eq_iff id j, find_row-update id j clauses rows)

-- Where there is no row, there is nothing to change.
missing-Refines :
    (id : String) (clauses : Fields) (rows : List RunRow) (m : RunMap)
    → Refines rows m
    → m id ≡ none
    → Refines (update_rows id clauses rows) m
missing-Refines id clauses rows m h e j =
    ground (arith, e, h j, h id, eq_iff id j, find_row-update id j clauses rows)

-- Whether a row may be changed in this way.
abbrev allowed : Fields → Option RunRow → Bool
allowed clauses none = true
allowed clauses (some row) = keeps_required (assign clauses row.columns)

change-Simulates :
    (o : Option RunRow) (c : Option Fields) (id : String) (clauses : Fields) (rows : List RunRow)
    (m : RunMap)
    → columns_of o ≡ c
    → m id ≡ c
    → Refines rows m
    → Simulates
        (if allowed clauses o then ok (update_rows id clauses rows) else raised integrity_error)
        (elim c [
          | none ↦ ok m
          | some columns ↦
              if keeps_required (assign clauses columns)
              then ok (put_run id (assign clauses columns) m)
              else raised integrity_error
        ])
change-Simulates none none id clauses rows m e k h = missing-Refines id clauses rows m h k
change-Simulates none (some c) id clauses rows m e k h = absurd (ground (arith, e))
change-Simulates (some row) none id clauses rows m e k h = absurd (ground (arith, e))
change-Simulates (some row) (some c) id clauses rows m e k h =
    let same : c ≡ row.columns = ground (arith, e) in
    subst
      (λ d.
        Simulates
          (if keeps_required (assign clauses d)
            then ok (update_rows id clauses rows)
            else raised integrity_error)
          (if keeps_required (assign clauses c)
            then ok (put_run id (assign clauses c) m)
            else raised integrity_error))
      same
      (if-Simulates (keeps_required (assign clauses c)) _ _ _ _
        (update-Refines id clauses c rows m h k) refl)

update_allowed-eq :
    (id : String) (clauses : Fields) (rows : List RunRow)
    → update_allowed id clauses rows ≡ allowed clauses (find_row id rows)
unfolding update_allowed
update_allowed-eq id clauses rows = ground arith

change_rows-Simulates :
    (id : String) (clauses : Fields) (rows : List RunRow) (m : RunMap)
    → Refines rows m
    → Simulates (change_rows id clauses rows) (change_run id clauses m)
unfolding change_rows
change_rows-Simulates id clauses rows m h = if-Simulates (no_clauses clauses) _ _ _ _ h (
    if-Simulates (not (known_columns clauses && all_storable clauses)) _ _ _ _ refl (
      subst
        (λ b.
          Simulates (if b then ok (update_rows id clauses rows) else raised integrity_error)
            (change_known id clauses m))
        (sym (update_allowed-eq id clauses rows))
        (change-Simulates (find_row id rows) (m id) id clauses rows m (h id) refl h)))

module _ (max_result_json_bytes : ℕ) (dumps : Value → String) (byte_length : String → ℕ)
    (now : String) where
  -- The abstract save: a run whose result cannot be cut is refused, and so is one that is there.
  abbrev pub save_map : String → String → Fields → RunMap → SqlResult RunMap
  save_map id status fields m =
      elim (bounded_result max_result_json_bytes dumps byte_length now
        (given "result" null fields)) [
          | raised e ↦ raised e
          | ok result ↦
              insert_run id
                (new_columns max_result_json_bytes dumps byte_length now status result fields) m
        ]

  bounded-Simulates :
      (o : SqlResult Value) (id status : String) (fields : Fields) (rows : List RunRow) (m : RunMap)
      → Refines rows m
      → Simulates
          (elim o [
            | raised e ↦ raised e
            | ok result ↦
                insert_run_row
                  record {
                    run_id = id;
                    columns =
                        new_columns max_result_json_bytes dumps byte_length now status result
                          fields;
                  }
                  rows
          ])
          (elim o [
            | raised e ↦ raised e
            | ok result ↦
                insert_run id
                  (new_columns max_result_json_bytes dumps byte_length now status result fields)
                  m
          ])
  bounded-Simulates (raised e) id status fields rows m h = refl
  bounded-Simulates (ok result) id status fields rows m h = insert_run_row-Simulates id _ rows m h

  -- The table implements the map from ids to runs: where the reads are those of a map, a save and an
  -- update raise what they raise on the map, and else the reads are those of the map they make. So no
  -- save overwrites a run, and an update changes the columns of its run alone.
  pub runs-refine_map :
      (id status : String) (fields : Fields) (rows : List RunRow) (m : RunMap)
      → Refines rows m
      → Simulates
          (save_run max_result_json_bytes dumps byte_length now id status fields rows)
          (save_map id status fields m)
        × Simulates
            (update_run max_result_json_bytes dumps byte_length now id fields rows)
            (change_run id (set_clauses max_result_json_bytes dumps byte_length now fields) m)
  unfolding save_run update_run
  runs-refine_map id status fields rows m h = (
    bounded-Simulates
        (bounded_result max_result_json_bytes dumps byte_length now (given "result" null fields)) id
        status fields rows m h,
    change_rows-Simulates id (set_clauses max_result_json_bytes dumps byte_length now fields) rows m
        h,
  )

-- ===== src/Storage/Samples.antt =====
-- The table of runs on two runs.
use agentic_workflows.Base.{
  ◌≤◌, String, ◌≡◌, refl, true, ◌&&◌, some, List, [], ◌∷◌, ◌++◌, map, length, take, count_if, ◌==◌,
}
use agentic_workflows.Base.Int.{pos}
use agentic_workflows.Base.Text.{size}
use agentic_workflows.Values.{Value, null, int, str, end, field, to_str}
use agentic_workflows.Storage.Runs.{set_clauses, save_run, update_run}
use agentic_workflows.Storage.{RunRow, SqlResult, ok, raised, integrity_error, find_row, get_run}
use agentic_workflows.Storage.Listing.{list_runs}
use agentic_workflows.Storage.Maps.{Simulates, columns_of, change_run}
use agentic_workflows.Storage.Laws.{save_map, runs-refine_map}
use agentic_workflows.Storage.Pages.{is_sorted, behind, list_runs-pages}

abbrev dumps : Value → String
dumps v = to_str v

abbrev row : String → String → RunRow
row id time = record {
  run_id = id;
  columns = field "status" (str "pending") (field "created_at" (str time) end);
}

abbrev two_rows : List RunRow
two_rows = row "a" "2026-01-01" ∷ row "b" "2026-01-02" ∷ []

abbrev saved : List RunRow → String → SqlResult (List RunRow)
saved rows id =
    save_run 100 dumps size "2026-01-03" id "pending" (field "user_input" (str "Sort") end) rows

get_or_else : SqlResult (List RunRow) → List RunRow
get_or_else (ok rows) = rows
get_or_else (raised e) = []

save_test :
    get_run "c" (get_or_else (saved two_rows "c"))
    ≡ some (
        field "run_id" (str "c") (
          field "status" (str "pending") (
            field "user_input" (str "Sort") (
              field "prior_context_json" null (
                field "client_ip" null (
                  field "request_headers_json" null (
                    field "result_json" null (
                      field "created_at" (str "2026-01-03") (
                        field "completed_at" null (
                          field "missions_completed"
                            (int (pos 0))
                            (field "tools_used_json" null end)))))))))))
unfolding get_or_else save_run get_run
save_test = refl

taken_test : saved two_rows "a" ≡ raised integrity_error
unfolding save_run
taken_test = refl

update_test :
    map
      (λ r. r.columns)
      (get_or_else (update_run 100 dumps size "" "b" (field "status" (str "done") end) two_rows))
    ≡ (row "a" "2026-01-01").columns
      ∷ field "status" (str "done") (field "created_at" (str "2026-01-02") end)
      ∷ []
unfolding get_or_else update_run
update_test = refl

-- A run of the same time as the cursor's is on no later page.
page_test :
    map (λ r. r.run_id) (list_runs 5 (some "b") (two_rows ++ row "c" "2026-01-02" ∷ [])) ≡ "a" ∷ []
unfolding list_runs
page_test = refl

runs-refine_map_example :
    Simulates
      (save_run 100 dumps size "t" "a" "pending" end two_rows)
      (save_map 100 dumps size "t" "a" "pending" end (λ j. columns_of (find_row j two_rows)))
    × Simulates
        (update_run 100 dumps size "t" "a" end two_rows)
        (change_run "a" end (λ j. columns_of (find_row j two_rows)))
unfolding set_clauses
runs-refine_map_example =
    runs-refine_map 100 dumps size "t" "a" "pending" end two_rows
      (λ j. columns_of (find_row j two_rows)) (λ j. refl)

list_runs-pages_example :
    let everything = list_runs 2 (some "b") two_rows in
    (length (list_runs 1 (some "b") two_rows) ≤ 1)
    × (is_sorted (list_runs 1 (some "b") two_rows) ≡ true)
    × (list_runs 1 (some "b") two_rows ≡ take 1 everything)
    × (count_if (λ r. r.run_id == "a") everything
        ≡ count_if (λ r. behind (some "b") two_rows r && (r.run_id == "a")) two_rows)
list_runs-pages_example = list_runs-pages 1 (some "b") (λ r. r.run_id == "a") two_rows

-- ===== src/Storage/Listing.antt =====
-- storage/sqlite.py: `list_runs`, the pages of runs, the newest first.
use Prim.Native.Nat.{Ordering}
use Prim.Native.String.{compare}
use agentic_workflows.Base.{
  ℕ, String, Bool, true, false, Option, none, some, List, [], ◌∷◌, if◌then◌else◌, take, select,
}
use agentic_workflows.Values.{get_str}
use agentic_workflows.Storage.{RunRow, find_row}

-- row["created_at"]
unfoldable pub created_at_of : RunRow → String
unfolding get_str
created_at_of row = get_str "" "created_at" row.columns

unfoldable pub is_older : String → String → Bool
is_older a b = elim (compare a b) [ Ordering.lt ↦ true | _ ↦ false ]

unfoldable pub insert_newest : RunRow → List RunRow → List RunRow
unfolding is_older created_at_of
insert_newest row [] = row ∷ []
insert_newest row (other ∷ rows) =
    let rest = insert_newest row rows in
    if is_older (created_at_of row) (created_at_of other) then other ∷ rest else row ∷ other ∷ rows

-- ORDER BY created_at DESC, where rows of the same time stand as they were inserted
unfoldable pub newest_first : List RunRow → List RunRow
unfolding insert_newest
newest_first [] = []
newest_first (row ∷ rows) = insert_newest row (newest_first rows)

-- The rows that a page is taken from.
unfoldable pub page_rows : Option String → List RunRow → List RunRow
unfolding select is_older created_at_of find_row
page_rows none rows = rows
page_rows (some cursor) rows = elim (find_row cursor rows) [
  | none ↦ []
  | some anchor ↦ select (λ row. is_older (created_at_of row) (created_at_of anchor)) rows
]

unfoldable pub list_runs : ℕ → Option String → List RunRow → List RunRow
unfolding newest_first page_rows
list_runs limit cursor rows = take limit (newest_first (page_rows cursor rows))

-- ===== src/Storage/Pages.antt =====
-- The pages of the list of runs.
use Prim.Native.String.compare
use agentic_workflows.Base.{
  ℕ, zero, suc, ◌≤◌, String, ◌≡◌, refl, sym, ap, ◌∙◌, Bool, true, false, not, ◌&&◌, Option, none,
  some, List, [], ◌∷◌, arith, if◌then◌else◌, length, take, count_if-le-length, select, all,
  count_if,
}
use agentic_workflows.Storage.{RunRow, find_row}
use agentic_workflows.Storage.Listing.{
  created_at_of, is_older, insert_newest, newest_first, page_rows, list_runs,
}

-- Of two texts, at most one is before the other.
is_older-asym : (a b : String) → is_older a b ≡ true → is_older b a ≡ false
unfolding is_older
is_older-asym String.[] String.[] h = ground (arith, h)
is_older-asym String.[] (String.◌∷◌ d b) h = ground (arith, h, compare.cons-nil d b)
is_older-asym (String.◌∷◌ c a) String.[] h = ground (arith, h, compare.cons-nil c a)
is_older-asym (String.◌∷◌ c a) (String.◌∷◌ d b) h =
    ground (arith, h, compare.cons-cons c d a b, compare.cons-cons d c b a, is_older-asym a b)

-- No row of a list is newer than one before it.
unfoldable pub is_sorted : List RunRow → Bool
is_sorted [] = true
is_sorted (row ∷ []) = true
is_sorted (row ∷ next ∷ rows) =
    not (is_older (created_at_of row) (created_at_of next)) && is_sorted (next ∷ rows)

insert_newest-is_sorted :
    (row : RunRow) (rows : List RunRow)
    → is_sorted rows ≡ true
    → is_sorted (insert_newest row rows) ≡ true
unfolding is_sorted insert_newest
insert_newest-is_sorted row [] h = refl
insert_newest-is_sorted row (other ∷ []) h =
    ground (arith, is_older-asym (created_at_of row) (created_at_of other))
insert_newest-is_sorted row (other ∷ next ∷ rows) h = ground (
  arith,
  h,
  is_older-asym (created_at_of row) (created_at_of other),
  insert_newest-is_sorted row (next ∷ rows),
)

all-insert_newest :
    (p : RunRow → Bool) (row : RunRow) (rows : List RunRow)
    → all p (insert_newest row rows) ≡ (p row && all p rows)
unfolding all insert_newest
all-insert_newest p row [] = refl
all-insert_newest p row (other ∷ rows) = ground (arith, all-insert_newest p row rows)

all-newest_first : (p : RunRow → Bool) (rows : List RunRow) → all p (newest_first rows) ≡ all p rows
unfolding all newest_first
all-newest_first p [] = refl
all-newest_first p (row ∷ rows) =
    ground (arith, all-insert_newest p row (newest_first rows), all-newest_first p rows)

newest_first-is_sorted : (rows : List RunRow) → is_sorted (newest_first rows) ≡ true
unfolding newest_first is_sorted
newest_first-is_sorted [] = refl
newest_first-is_sorted (row ∷ rows) =
    insert_newest-is_sorted row (newest_first rows) (newest_first-is_sorted rows)

count-insert_newest :
    (p : RunRow → Bool) (row : RunRow) (rows : List RunRow)
    → count_if p (insert_newest row rows) ≡ count_if p (row ∷ rows)
unfolding count_if insert_newest
count-insert_newest p row [] = refl
count-insert_newest p row (other ∷ rows) = ground (arith, count-insert_newest p row rows)

count-newest_first :
    (p : RunRow → Bool) (rows : List RunRow) → count_if p (newest_first rows) ≡ count_if p rows
unfolding count_if newest_first
count-newest_first p [] = refl
count-newest_first p (row ∷ rows) =
    count-insert_newest p row (newest_first rows)
    ∙ ap (λ n. if p row then suc n else n) (count-newest_first p rows)

count-select :
    (p q : RunRow → Bool) (rows : List RunRow)
    → count_if p (select q rows) ≡ count_if (λ row. q row && p row) rows
unfolding count_if select
count-select p q [] = refl
count-select p q (row ∷ rows) = ground (arith, count-select p q rows)

length-eq-count : (rows : List RunRow) → count_if (λ row. true) rows ≡ length rows
unfolding count_if
length-eq-count [] = refl
length-eq-count (row ∷ rows) = ap suc (length-eq-count rows)

take_all {ℓ} : {A : Type ℓ} (n : ℕ) (xs : List A) → length xs ≤ n → take n xs ≡ xs
take_all zero [] h = refl
take_all zero (x ∷ xs) h = absurd (omega (arith, h))
take_all (suc n) [] h = refl
take_all (suc n) (x ∷ xs) h = ap (λ ys. x ∷ ys) (take_all n xs (omega (arith, h)))

length-take-le {ℓ} : {A : Type ℓ} (n : ℕ) (xs : List A) → length (take n xs) ≤ n
length-take-le zero xs = omega arith
length-take-le (suc n) [] = omega arith
length-take-le (suc n) (x ∷ xs) = omega (arith, length-take-le n xs)

is_sorted-take :
    (n : ℕ) (rows : List RunRow) → is_sorted rows ≡ true → is_sorted (take n rows) ≡ true
unfolding is_sorted
is_sorted-take zero rows h = refl
is_sorted-take (suc n) [] h = refl
is_sorted-take (suc zero) (row ∷ []) h = refl
is_sorted-take (suc (suc n)) (row ∷ []) h = refl
is_sorted-take (suc zero) (row ∷ next ∷ rows) h = refl
is_sorted-take (suc (suc n)) (row ∷ next ∷ rows) h =
    ground (arith, h, is_sorted-take (suc n) (next ∷ rows))

-- Whether a row belongs behind the cursor: it is older than the cursor's row, if that is there.
abbrev pub behind : Option String → List RunRow → RunRow → Bool
behind none rows row = true
behind (some cursor) rows row = elim (find_row cursor rows) [
  | none ↦ false
  | some anchor ↦ is_older (created_at_of row) (created_at_of anchor)
]

count-none : (rows : List RunRow) → count_if (λ row. false) rows ≡ 0
unfolding count_if
count-none [] = refl
count-none (row ∷ rows) = count-none rows

count-anchored :
    (p : RunRow → Bool) (o : Option RunRow) (rows : List RunRow)
    → count_if p (elim o [
      | none ↦ []
      | some anchor ↦ select (λ row. is_older (created_at_of row) (created_at_of anchor)) rows
    ])
      ≡ count_if
          (λ row.
            elim o [
              | none ↦ false
              | some anchor ↦ is_older (created_at_of row) (created_at_of anchor)
            ]
            && p row)
          rows
unfolding count_if
count-anchored p none rows = sym (count-none rows)
count-anchored p (some anchor) rows =
    count-select p (λ row. is_older (created_at_of row) (created_at_of anchor)) rows

count-page_rows :
    (p : RunRow → Bool) (cursor : Option String) (rows : List RunRow)
    → count_if p (page_rows cursor rows) ≡ count_if (λ row. behind cursor rows row && p row) rows
unfolding page_rows
count-page_rows p none rows = refl
count-page_rows p (some cursor) rows = count-anchored p (find_row cursor rows) rows

all_rows-short :
    (cursor : Option String) (rows : List RunRow)
    → length (newest_first (page_rows cursor rows)) ≤ length rows
all_rows-short cursor rows = omega (
  arith,
  length-eq-count (newest_first (page_rows cursor rows)),
  count-newest_first (λ row. true) (page_rows cursor rows),
  count-page_rows (λ row. true) cursor rows,
  count_if-le-length (λ row. behind cursor rows row && true) rows,
)

-- A page has at most as many runs as asked for, the newest first, and it is the beginning of the
-- list of all runs behind the cursor: those runs are in that list, each as often as in the table, and
-- no other. Behind a cursor that is no run there are none.
pub list_runs-pages :
    (limit : ℕ) (cursor : Option String) (p : RunRow → Bool) (rows : List RunRow)
    → let everything = list_runs (length rows) cursor rows in
      (length (list_runs limit cursor rows) ≤ limit)
      × (is_sorted (list_runs limit cursor rows) ≡ true)
      × (list_runs limit cursor rows ≡ take limit everything)
      × (count_if p everything ≡ count_if (λ row. behind cursor rows row && p row) rows)
unfolding list_runs
list_runs-pages limit cursor p rows =
    let sorted_rows = newest_first (page_rows cursor rows) in
    let everything : take (length rows) sorted_rows ≡ sorted_rows =
      take_all (length rows) sorted_rows (all_rows-short cursor rows) in
    (
      length-take-le limit sorted_rows,
      is_sorted-take limit sorted_rows (newest_first-is_sorted (page_rows cursor rows)),
      ap (take limit) (sym everything),
      ap (count_if p) everything
          ∙ count-newest_first p (page_rows cursor rows)
          ∙ count-page_rows p cursor rows,
    )

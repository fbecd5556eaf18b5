-- ===== src/Base/Names.antt =====
-- Sets of names. Python's `set` of strings is a list read through `contains`; `sorted` of such a
-- set is the strictly increasing list of its elements, by code points.
use Prim.Native.Nat.{Ordering}
use Prim.Native.String.{String, compare}
use mathlib.Core.Path.{◌≡◌, refl, ◌∙◌}
use mathlib.Core.Bool.{Bool, true, false, not, ◌&&◌, ◌||◌}
use mathlib.Core.List.{List, [], ◌∷◌, ◌++◌}
use native.Mathlib.Omega.{arith}
use text.Mathlib.Text.{◌==◌}
use text.Mathlib.TextEquality.{eq_iff, path_by_compare}
use text.Mathlib.TextPositions.{eq_refl}
use agentic_workflows.Base.Lists.{select, all, is_nil}

-- `x in xs`
unfoldable pub contains : List String → String → Bool
contains [] x = false
contains (y ∷ ys) x = x == y || contains ys x

insert_sorted : String → List String → List String
insert_sorted x [] = x ∷ []
insert_sorted x (y ∷ ys) = elim (compare x y) [
  | Ordering.lt ↦ x ∷ y ∷ ys
  | Ordering.eq ↦ y ∷ ys
  | Ordering.gt ↦ y ∷ insert_sorted x ys
]

-- `sorted(set(xs))`
unfoldable pub sorted : List String → List String
unfolding insert_sorted
sorted [] = []
sorted (x ∷ xs) = insert_sorted x (sorted xs)

-- `xs - ys`
unfoldable pub difference : List String → List String → List String
difference xs ys = select (λ x. not (contains ys x)) xs

-- `xs.issubset(ys)`
unfoldable pub subset : List String → List String → Bool
subset xs ys = all (contains ys) xs

contains-insert_sorted :
    (x z : String) (ys : List String) → contains (insert_sorted x ys) z ≡ (z == x || contains ys z)
unfolding contains insert_sorted
contains-insert_sorted x z [] = refl
contains-insert_sorted x z (y ∷ ys) =
    ground (arith, contains-insert_sorted x z ys, path_by_compare x y)

pub contains-sorted : (xs : List String) (z : String) → contains (sorted xs) z ≡ contains xs z
unfolding sorted contains
contains-sorted [] z = refl
contains-sorted (x ∷ xs) z =
    ground (arith, contains-insert_sorted x z (sorted xs), contains-sorted xs z)

pub contains-append :
    (xs ys : List String) (z : String) → contains (xs ++ ys) z ≡ (contains xs z || contains ys z)
unfolding contains
contains-append [] ys z = refl
contains-append (x ∷ xs) ys z = ground (arith, contains-append xs ys z)

pub contains-difference :
    (xs ys : List String) (z : String)
    → contains (difference xs ys) z ≡ (contains xs z && not (contains ys z))
unfolding contains difference select
contains-difference [] ys z = refl
contains-difference (x ∷ xs) ys z = ground (arith, contains-difference xs ys z, eq_iff z x)

all-insert_sorted :
    (p : String → Bool) (x : String) (ys : List String)
    → all p (insert_sorted x ys) ≡ (p x && all p ys)
unfolding all insert_sorted
all-insert_sorted p x [] = refl
all-insert_sorted p x (y ∷ ys) = ground (arith, all-insert_sorted p x ys, path_by_compare x y)

pub all-sorted : (p : String → Bool) (xs : List String) → all p (sorted xs) ≡ all p xs
unfolding all sorted
all-sorted p [] = refl
all-sorted p (x ∷ xs) = ground (arith, all-insert_sorted p x (sorted xs), all-sorted p xs)

pub subset-sorted : (xs ys : List String) → subset (sorted xs) ys ≡ subset xs ys
unfolding subset
subset-sorted xs ys = all-sorted (contains ys) xs

insert_sorted-ne-nil : (x : String) (ys : List String) → is_nil (insert_sorted x ys) ≡ false
unfolding insert_sorted
insert_sorted-ne-nil x [] = refl
insert_sorted-ne-nil x (y ∷ ys) = ground arith

pub is_nil-sorted : (xs : List String) → is_nil (sorted xs) ≡ is_nil xs
unfolding sorted
is_nil-sorted [] = refl
is_nil-sorted (x ∷ xs) = insert_sorted-ne-nil x (sorted xs)

-- Nothing is missing exactly when what is required is a subset of what is there.
pub is_nil-difference : (xs ys : List String) → is_nil (difference xs ys) ≡ subset xs ys
unfolding difference subset select all
is_nil-difference [] ys = refl
is_nil-difference (x ∷ xs) ys = ground (arith, is_nil-difference xs ys)

pub contains_of_subset :
    (xs ys : List String) (z : String)
    → subset xs ys ≡ true
    → contains xs z ≡ true
    → contains ys z ≡ true
unfolding subset all contains
contains_of_subset [] ys z s h = cc
contains_of_subset (x ∷ xs) ys z s h = ground (arith, contains_of_subset xs ys z, eq_iff z x)

-- No name stands twice.
abbrev pub IsDistinct : List String → Type 0
IsDistinct [] = Unit {0}
IsDistinct (x ∷ xs) = (contains xs x ≡ false) × IsDistinct xs

pub append-IsDistinct :
    (xs : List String) (z : String)
    → IsDistinct xs
    → contains xs z ≡ false
    → IsDistinct (xs ++ z ∷ [])
unfolding contains
append-IsDistinct [] z d h = (refl, tt)
append-IsDistinct (x ∷ xs) z d h = (
  ground (arith, contains-append xs (z ∷ []) x, eq_iff x z, eq_iff z x),
  append-IsDistinct xs z d.1 (ground arith),
)

pub contains-append_one :
    (xs : List String) (z w : String) → contains (xs ++ z ∷ []) w ≡ (contains xs w || w == z)
unfolding contains
contains-append_one [] z w = ground arith
contains-append_one (x ∷ xs) z w = ground (arith, contains-append_one xs z w)

pub contains-eq-false_of_subset :
    (xs ys : List String) (z : String)
    → subset xs ys ≡ true
    → contains ys z ≡ false
    → contains xs z ≡ false
contains-eq-false_of_subset xs ys z s h = ground (arith, contains_of_subset xs ys z)

all_mono :
    (p q : String → Bool) (xs : List String)
    → ((x : String) → p x ≡ true → q x ≡ true)
    → all p xs ≡ true
    → all q xs ≡ true
unfolding all
all_mono p q [] f h = refl
all_mono p q (x ∷ xs) f h = ground (arith, f x, all_mono p q xs f)

all-append_one :
    (p : String → Bool) (xs : List String) (z : String) → all p (xs ++ z ∷ []) ≡ (all p xs && p z)
unfolding all
all-append_one p [] z = ground arith
all-append_one p (x ∷ xs) z = ground (arith, all-append_one p xs z)

-- One name more on both sides.
pub subset-append_one :
    (xs ys : List String) (z : String)
    → subset xs ys ≡ true
    → subset (xs ++ z ∷ []) (ys ++ z ∷ []) ≡ true
unfolding subset
subset-append_one xs ys z s =
    all-append_one (contains (ys ++ z ∷ [])) xs z
    ∙ ground (
      arith,
      all_mono (contains ys) (contains (ys ++ z ∷ [])) xs
          (λ x h. contains-append_one ys z x ∙ ground arith),
      contains-append_one ys z z,
      eq_refl z,
    )

-- One name more on the right.
pub subset-append_right :
    (xs ys : List String) (z : String) → subset xs ys ≡ true → subset xs (ys ++ z ∷ []) ≡ true
unfolding subset
subset-append_right xs ys z s =
    all_mono (contains ys) (contains (ys ++ z ∷ [])) xs
      (λ x h. contains-append_one ys z x ∙ ground arith) s

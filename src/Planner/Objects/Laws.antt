-- ===== src/Planner/Objects/Laws.antt =====
-- What the search for objects finds, and that it ends.
use Prim.Native.Char.{Char, code}
use Prim.Native.String.{◌++◌ as str_append}
use Prim.Native.String.append
use agentic_workflows.Base.{
  ℕ, zero, suc, ◌≤◌, ◌<◌, String, ◌≡◌, refl, sym, ap, ◌∙◌, Bool, true, false, Option, none, some,
  List, [], ◌∷◌, arith, eqb, if◌then◌else◌,
}
use agentic_workflows.Base.Text.{size, count_char}
use agentic_workflows.Planner.Objects.Balance.{
  plain, braces, closes_at_end, stays_open, IsBalanced, scan_start-IsBalanced,
}
use agentic_workflows.Planner.Objects.{
  Scan, at_start, scan_char, closes, with_char, scan, from_brace, split_object, objects_from,
  extract_all_json_objects,
}

infixr 65 ◌+++◌
abbrev ◌+++◌ : String → String → String
◌+++◌ = str_append

-- Empty, or opened by a brace.
unfoldable opens : String → Bool
opens String.[] = true
opens (String.◌∷◌ c text) = eqb (code c) b'{'

-- What a scan of the text found: the object and what follows it make up the text, and before any
-- other text the same object would be found.
unfoldable IsSplit : Scan → String → Option (String × String) → Type 0
unfolding opens size
IsSplit s text none = Unit
IsSplit s text (some (o, rest)) =
    (text ≡ o +++ rest)
    × (size rest < size text)
    × ((more : String) → (scan s (o +++ more) ≡ some (o, more)) × (opens (o +++ more) ≡ opens text))

append_cons : (c : Char) (s t : String) → String.◌∷◌ c s +++ t ≡ String.◌∷◌ c (s +++ t)
append_cons c s t = λ i. append.cons c s t i

append_nil : (t : String) → "" +++ t ≡ t
append_nil t = λ i. append.nil t i

append_one : (c : Char) (t : String) → String.◌∷◌ c "" +++ t ≡ String.◌∷◌ c t
append_one c t = append_cons c "" t ∙ ap (λ w. String.◌∷◌ c w) (append_nil t)

scan_turn :
    (s : Scan) (c : Char) (text : String) (b : Bool)
    → closes s c ≡ b
    → scan s (String.◌∷◌ c text)
      ≡ (if b then some (String.◌∷◌ c "", text) else with_char c (scan (scan_char s c) text))
unfolding scan
scan_turn s c text b e =
    ap (λ b. if b then some (String.◌∷◌ c "", text) else with_char c (scan (scan_char s c) text)) e

scan-IsSplit : (s : Scan) (text : String) → IsSplit s text (scan s text)
unfolding scan IsSplit with_char size opens
scan-IsSplit s String.[] = tt
scan-IsSplit s (String.◌∷◌ c text) =
    turn (closes s c) refl (scan (scan_char s c) text) (scan-IsSplit (scan_char s c) text)
  where
    turn :
        (b : Bool)
        → closes s c ≡ b
        → (found : Option (String × String)) → IsSplit (scan_char s c) text found
        → IsSplit s
            (String.◌∷◌ c text)
            (if b then some (String.◌∷◌ c "", text) else with_char c found)
    turn true e found h = (
      sym (append_one c text),
      omega arith,
      λ more. (
        ap (scan s) (append_one c more) ∙ scan_turn s c more true e,
        ap opens (append_one c more),
      ),
    )
    turn false e none h = tt
    turn false e (some (o, rest)) (whole, shorter, again) = (
      ap (λ w. String.◌∷◌ c w) whole ∙ sym (append_cons c o rest),
      omega arith,
      λ more. (
        ap (scan s) (append_cons c o more)
            ∙ scan_turn s c (o +++ more) false e
            ∙ ap (with_char c) (again more).0,
        ap opens (append_cons c o more),
      ),
    )

opens-from_brace : (text : String) → opens (from_brace text) ≡ true
unfolding opens from_brace
opens-from_brace String.[] = refl
opens-from_brace (String.◌∷◌ c text) = ground (arith, opens-from_brace text)

from_brace_of_opens : (text : String) → opens text ≡ true → from_brace text ≡ text
unfolding opens from_brace
from_brace_of_opens String.[] h = refl
from_brace_of_opens (String.◌∷◌ c text) h = ground (arith, h)

-- What stands before the first brace.
from_brace_lem :
    (text : String)
    → (before : String) × (text ≡ before +++ from_brace text) × (count_char "{" before ≡ 0)
unfolding from_brace count_char
from_brace_lem String.[] = ("", sym (append_nil ""), refl)
from_brace_lem (String.◌∷◌ c text) = here (eqb (code c) b'{') refl (from_brace_lem text)
  where
    here :
        (b : Bool)
        → eqb (code c) b'{' ≡ b
        → (before : String) × (text ≡ before +++ from_brace text) × (count_char "{" before ≡ 0)
        → (before : String) × (String.◌∷◌ c text
            ≡ before +++ (if b then String.◌∷◌ c text else from_brace text))
          × (count_char "{" before ≡ 0)
    here true e found = ("", sym (append_nil (String.◌∷◌ c text)), refl)
    here false e (before, whole, none_before) = (
      String.◌∷◌ c before,
      ap (λ w. String.◌∷◌ c w) whole ∙ sym (append_cons c before (from_brace text)),
      ground (arith, none_before, e),
    )

-- What the first object is to the text: after a part without a brace it is the text's next part, whose
-- braces outside of string literals close with the last one and not before; less text is left behind
-- it, and at the head of any other text it would be found again. Where there is none, what follows such
-- a part never closes.
unfoldable pub IsFirstObject : String → Option (String × String) → Type 0
unfolding count_char size
IsFirstObject text none =
    (before : String) × (later : String) × (text ≡ before +++ later)
    × (count_char "{" before ≡ 0)
    × (stays_open 0 (braces plain later) ≡ true)
IsFirstObject text (some (o, rest)) =
    ((before : String) × (text ≡ before +++ o +++ rest) × (count_char "{" before ≡ 0))
    × (size rest < size text)
    × ((more : String) → split_object (o +++ more) ≡ some (o, more))
    × (closes_at_end 0 (braces plain o) ≡ true)

size-from_brace : (text : String) → size (from_brace text) ≤ size text
unfolding size from_brace
size-from_brace String.[] = omega arith
size-from_brace (String.◌∷◌ c text) = ground (arith, size-from_brace text)

-- In any text, the object that is found follows a part without a brace; its braces outside of string
-- literals balance with its last one and not before; the text behind it is shorter than the text, and
-- the object at the head of any other text is found there and ends at the same place. Where none is
-- found, the text behind some part without a brace has no brace that balances.
pub split_object-IsFirstObject : (text : String) → IsFirstObject text (split_object text)
unfolding IsFirstObject IsSplit split_object
split_object-IsFirstObject text =
    found (scan at_start (from_brace text)) (scan-IsSplit at_start (from_brace text))
      (scan_start-IsBalanced (from_brace text))
  where
    found :
        (o : Option (String × String))
        → IsSplit at_start (from_brace text) o
        → IsBalanced 0 plain (from_brace text) o
        → IsFirstObject text o
    found none h balanced =
        let (before, all_of, none_before) = from_brace_lem text in
        (before, from_brace text, all_of, none_before, balanced)
    found (some (o, rest)) (whole, shorter, again) balanced =
        let (before, all_of, none_before) = from_brace_lem text in
        (
          (before, all_of ∙ ap (λ w. before +++ w) whole, none_before),
          ground (arith, size-from_brace text, shorter),
          λ more.
              (ap (scan at_start)
                  (from_brace_of_opens (o +++ more) ((again more).1 ∙ opens-from_brace text))
                ∙ (again more).0),
          balanced,
        )

-- The objects found with fuel, from what was split off.
abbrev objects_of : ℕ → Option (String × String) → List String
objects_of n found = elim found [ none ↦ [] | some p ↦ p.0 ∷ objects_from n p.1 ]

module _ (text : String) where
  no_object :
      (found : Option (String × String)) (n : ℕ)
      → IsFirstObject text found
      → size text ≤ 0
      → objects_of n found ≡ []
  unfolding IsFirstObject
  no_object none n h k = refl
  no_object (some (o, rest)) n (whole, shorter, again, balanced) k = ground (arith, shorter, k)

  same_objects :
      (found : Option (String × String)) (n m : ℕ)
      → IsFirstObject text found
      → ((rest : String) → size rest < size text → objects_from n rest ≡ objects_from m rest)
      → objects_of n found ≡ objects_of m found
  unfolding IsFirstObject
  same_objects none n m h k = refl
  same_objects (some (o, rest)) n m (whole, shorter, again, balanced) k =
      ap (λ os. o ∷ os) (k rest shorter)

enough_fuel :
    (n m : ℕ) (text : String)
    → size text ≤ n
    → size text ≤ m
    → objects_from n text ≡ objects_from m text
unfolding objects_from
enough_fuel zero zero text h k = refl
enough_fuel zero (suc m) text h k =
    sym (no_object text (split_object text) m (split_object-IsFirstObject text) h)
enough_fuel (suc n) zero text h k =
    no_object text (split_object text) n (split_object-IsFirstObject text) k
enough_fuel (suc n) (suc m) text h k =
    same_objects text (split_object text) n m (split_object-IsFirstObject text)
      (λ rest shorter. enough_fuel n m rest (omega arith) (omega arith))

-- The objects of any text are the first one and the objects of what follows it, or none when there
-- is no first one: the length of the text is fuel enough for all of them.
pub extract_all_lem :
    (text : String)
    → extract_all_json_objects text
      ≡ elim (split_object text) [ none ↦ [] | some p ↦ p.0 ∷ extract_all_json_objects p.1 ]
unfolding extract_all_json_objects objects_from IsFirstObject
extract_all_lem text =
    enough_fuel (size text) (suc (size text)) text (omega arith) (omega arith)
    ∙ of_split (split_object text) (split_object-IsFirstObject text)
  where
    of_split :
        (found : Option (String × String))
        → IsFirstObject text found
        → objects_of (size text) found
          ≡ elim found [ none ↦ [] | some p ↦ p.0 ∷ extract_all_json_objects p.1 ]
    of_split none h = refl
    of_split (some (o, rest)) (whole, shorter, again, balanced) =
        ap (λ os. o ∷ os) (enough_fuel (size text) (size rest) rest (omega arith) (omega arith))

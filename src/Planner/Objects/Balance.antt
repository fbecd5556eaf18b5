-- ===== src/Planner/Objects/Balance.antt =====
-- The braces of a text outside of its string literals, and that the scan stops where they balance.
use Prim.Native.Char.{Char, code}
use agentic_workflows.Base.{
  ℕ, suc, ◌-◌, String, ◌≡◌, refl, Bool, true, false, not, ◌&&◌, Option, none, some, List, [], ◌∷◌,
  ◌++◌, arith, eqb, if◌then◌else◌, is_nil, Bool-cases, inl, inr,
}
use agentic_workflows.Planner.Objects.{Scan, at_start, scan_char, closes, with_char, scan}

-- Where a character stands: outside of a literal, in one, or behind a backslash in one.
pub data Place : Type 0 where
  plain literal behind_backslash : Place

abbrev place_after : Place → Char → Place
place_after plain c = if eqb (code c) 34 then literal else plain
place_after literal c =
    if eqb (code c) 92 then behind_backslash else if eqb (code c) 34 then plain else literal
place_after behind_backslash c = literal

-- An opening brace is true, a closing one false.
abbrev brace_at : Place → Char → List Bool
brace_at plain c =
    if eqb (code c) b'{' then true ∷ [] else if eqb (code c) b'}' then false ∷ [] else []
brace_at literal c = []
brace_at behind_backslash c = []

abbrev pub braces : Place → String → List Bool
braces p String.[] = []
braces p (String.◌∷◌ c text) = brace_at p c ++ braces (place_after p c) text

-- From the depth on, the braces come back to depth 0 with the last one and not before.
abbrev pub closes_at_end : ℕ → List Bool → Bool
closes_at_end d [] = false
closes_at_end d (true ∷ bs) = closes_at_end (suc d) bs
closes_at_end d (false ∷ bs) =
    let later = closes_at_end (d - 1) bs in if eqb d 1 then is_nil bs else later

-- From the depth on, the braces do not come back to depth 0.
abbrev pub stays_open : ℕ → List Bool → Bool
stays_open d [] = true
stays_open d (true ∷ bs) = stays_open (suc d) bs
stays_open d (false ∷ bs) = let later = stays_open (d - 1) bs in not (eqb d 1) && later

-- The scan's state says where the next character stands.
abbrev StandsAt : Place → Scan → Type 0
StandsAt plain s = (s.in_string ≡ false) × (s.escaped ≡ false)
StandsAt literal s = (s.in_string ≡ true) × (s.escaped ≡ false)
StandsAt behind_backslash s = (s.in_string ≡ true) × (s.escaped ≡ true)

scan_char-plain :
    (s : Scan) (c : Char) → StandsAt plain s → StandsAt (place_after plain c) (scan_char s c)
unfolding scan_char
scan_char-plain s c (i, e) = elim (Bool-cases (eqb (code c) 34)) [
  | inl quote ↦ rw quote (ground (arith, i, e, quote), ground (arith, i, e, quote))
  | inr other ↦ rw other (ground (arith, i, e, other), ground (arith, i, e, other))
]

scan_char-literal :
    (s : Scan) (c : Char) → StandsAt literal s → StandsAt (place_after literal c) (scan_char s c)
unfolding scan_char
scan_char-literal s c (i, e) = elim (Bool-cases (eqb (code c) 92)) [
  | inl slash ↦ rw slash (ground (arith, i, e, slash), ground (arith, i, e, slash))
  | inr plain_char ↦ elim (Bool-cases (eqb (code c) 34)) [
    | inl quote ↦
        rw (plain_char, quote)
          (ground (arith, i, e, plain_char, quote), ground (arith, i, e, plain_char, quote))
    | inr other ↦
        rw (plain_char, other)
          (ground (arith, i, e, plain_char, other), ground (arith, i, e, plain_char, other))
  ]
]

scan_char-StandsAt :
    (p : Place) (s : Scan) (c : Char) → StandsAt p s → StandsAt (place_after p c) (scan_char s c)
unfolding scan_char
scan_char-StandsAt plain s c h = scan_char-plain s c h
scan_char-StandsAt literal s c h = scan_char-literal s c h
scan_char-StandsAt behind_backslash s c (i, e) = (ground (arith, i, e), ground (arith, i, e))

open_turn :
    (p : Place) (s : Scan) (c : Char) (bs : List Bool)
    → StandsAt p s
    → closes s c ≡ false
    → stays_open (scan_char s c).depth bs ≡ true
    → stays_open s.depth (brace_at p c ++ bs) ≡ true
unfolding scan_char closes
open_turn plain s c bs (i, e) k h = ground (arith, i, e, k, h)
open_turn literal s c bs (i, e) k h = ground (arith, i, e, k, h)
open_turn behind_backslash s c bs (i, e) k h = ground (arith, i, e, k, h)

close_turn :
    (p : Place) (s : Scan) (c : Char) (bs : List Bool)
    → StandsAt p s
    → closes s c ≡ false
    → closes_at_end (scan_char s c).depth bs ≡ true
    → closes_at_end s.depth (brace_at p c ++ bs) ≡ true
unfolding scan_char closes
close_turn plain s c bs (i, e) k h = ground (arith, i, e, k, h)
close_turn literal s c bs (i, e) k h = ground (arith, i, e, k, h)
close_turn behind_backslash s c bs (i, e) k h = ground (arith, i, e, k, h)

last_turn :
    (p : Place) (s : Scan) (c : Char)
    → StandsAt p s
    → closes s c ≡ true
    → closes_at_end s.depth (brace_at p c ++ []) ≡ true
unfolding closes
last_turn plain s c (i, e) k = ground (arith, i, e, k)
last_turn literal s c (i, e) k = ground (arith, i, e, k)
last_turn behind_backslash s c (i, e) k = ground (arith, i, e, k)

-- What is found closes with its last brace; where nothing is found, nothing closes.
abbrev pub IsBalanced : ℕ → Place → String → Option (String × String) → Type 0
IsBalanced d p text none = stays_open d (braces p text) ≡ true
IsBalanced d p text (some (o, rest)) = closes_at_end d (braces p o) ≡ true

scan-IsBalanced :
    (p : Place) (s : Scan) (text : String) → StandsAt p s → IsBalanced s.depth p text (scan s text)
unfolding scan with_char
scan-IsBalanced p s String.[] h = refl
scan-IsBalanced p s (String.◌∷◌ c text) h =
    turn (closes s c) refl (scan (scan_char s c) text)
      (scan-IsBalanced (place_after p c) (scan_char s c) text (scan_char-StandsAt p s c h))
  where
    turn :
        (b : Bool)
        → closes s c ≡ b
        → (found : Option (String × String))
        → IsBalanced (scan_char s c).depth (place_after p c) text found
        → IsBalanced s.depth p
            (String.◌∷◌ c text)
            (if b then some (String.◌∷◌ c "", text) else with_char c found)
    turn true e found g = last_turn p s c h e
    turn false e none g = open_turn p s c (braces (place_after p c) text) h e g
    turn false e (some (o, rest)) g = close_turn p s c (braces (place_after p c) o) h e g

pub scan_start-IsBalanced : (text : String) → IsBalanced 0 plain text (scan at_start text)
scan_start-IsBalanced text = scan-IsBalanced plain at_start text (refl, refl)

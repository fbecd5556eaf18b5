-- ===== src/Regex.antt =====
-- Python's `re`, as far as the program's patterns go: a backtracking matcher, leftmost and greedy
-- where the pattern is, with one capturing group. Classes such as `\w` and `\d` are those of ASCII.
pub mod Patterns
use Prim.Native.Char.{code}
use agentic_workflows.Base.{
  ℕ, zero, suc, ◌-◌, String, Bool, true, false, not, ◌&&◌, ◌||◌, Option, none, some, List, [], ◌∷◌,
  ltb, leb, eqb, if◌then◌else◌,
}
use agentic_workflows.Base.Text.{size, prefix}

pub data Re : Type 0 where
  eps : Re
  boundary : Re
  chr : (ℕ → Bool) → Re
  seq alt : Re → Re → Re
  star : Re → Re
  group : Re → Re

-- Where the matcher stands: whether the character before is one of `\w`, the text that is left, and
-- what the group has captured.
pub record Cursor : Type 0 where
  pub after_word : Bool
  pub rest : String
  pub captured : String

abbrev pub is_digit : ℕ → Bool
is_digit c = leb 48 c && leb c 57

abbrev pub is_alpha : ℕ → Bool
is_alpha c = (leb 65 c && leb c 90) || (leb 97 c && leb c 122)

-- `\w`
is_word : ℕ → Bool
is_word c = is_alpha c || is_digit c || eqb c 95

before_word : String → Bool
unfolding is_word
before_word String.[] = false
before_word (String.◌∷◌ c s) = is_word (code c)

differ : Bool → Bool → Bool
differ true b = not b
differ false b = b

step_char : (ℕ → Bool) → Bool → String → String → Option Cursor
unfolding is_word
step_char p w String.[] cap = none
step_char p w (String.◌∷◌ c s) cap =
    if p (code c)
    then some (record { after_word = is_word (code c); rest = s; captured = cap })
    else none

abbrev bind : Option Cursor → (Cursor → Option Cursor) → Option Cursor
bind none k = none
bind (some c) k = k c

abbrev Matcher : Type 0
Matcher = Cursor → (Cursor → Option Cursor) → Option Cursor

-- Greedy repetition. A round that takes nothing ends the loop, so the text's length bounds the rounds.
star_loop : Matcher → ℕ → Matcher
star_loop m zero c k = k c
star_loop m (suc fuel) c k =
    elim (m c (λ d. elim (ltb (size d.rest) (size c.rest)) [
      | true ↦ star_loop m fuel d k
      | false ↦ none
    ])) [ some r ↦ some r | none ↦ k c ]

capture : String → Cursor → Cursor
capture start c = record c { captured = prefix (size start - size c.rest) start }

match_re : Re → Matcher
unfolding star_loop step_char before_word differ capture size prefix
match_re eps c k = k c
match_re boundary c k = if differ c.after_word (before_word c.rest) then k c else none
match_re (chr p) c k = bind (step_char p c.after_word c.rest c.captured) k
match_re (seq r s) c k = match_re r c (λ d. match_re s d k)
match_re (alt r s) c k = elim (match_re r c k) [ some d ↦ some d | none ↦ match_re s c k ]
match_re (star r) c k = star_loop (match_re r) (suc (size c.rest)) c k
match_re (group r) c k = match_re r c (λ d. k (capture c.rest d))

search_from : Re → Bool → String → Option Cursor
unfolding match_re is_word
search_from r w String.[] = match_re r (record { after_word = w; rest = ""; captured = "" }) some
search_from r w (String.◌∷◌ c s) =
    let later = search_from r (is_word (code c)) s in
    elim (match_re r (record { after_word = w; rest = String.◌∷◌ c s; captured = "" }) some) [
      | some d ↦ some d
      | none ↦ later
    ]

-- `re.search(r, s)`, and the group of the match
unfoldable pub search_re : Re → String → Option String
unfolding search_from
search_re r s = elim (search_from r false s) [ some d ↦ some d.captured | none ↦ none ]

-- whether `re.search(r, s)` finds a match
unfoldable pub found : Re → String → Bool
unfolding search_from
found r s = elim (search_from r false s) [ some d ↦ true | none ↦ false ]

-- `re.findall(r, s)` of a pattern with one group: the matches do not overlap.
find_from : ℕ → Re → Bool → String → List String
unfolding search_from
find_from zero r w s = []
find_from (suc fuel) r w s = elim (search_from r w s) [
  | none ↦ []
  | some d ↦ d.captured ∷ find_from fuel r d.after_word d.rest
]

unfoldable pub find_all : Re → String → List String
unfolding find_from
find_all r s = find_from (suc (size s)) r false s

-- whether `re.match(r, s)` finds a match, at the text's start
unfoldable pub starts : Re → String → Bool
unfolding match_re
starts r s = elim (match_re r (record { after_word = false; rest = s; captured = "" }) some) [
  | some d ↦ true
  | none ↦ false
]

-- `re.match(r, s)`, and the group of the match
unfoldable pub match_start : Re → String → Option String
unfolding match_re
match_start r s = elim (match_re r (record { after_word = false; rest = s; captured = "" }) some) [
  | some d ↦ some d.captured
  | none ↦ none
]

-- `re.fullmatch(r, s)`, and `re.match` of a pattern that ends in `$` at a text with no line end
unfoldable pub matches : Re → String → Bool
unfolding match_re
matches r s =
    elim (match_re r (record { after_word = false; rest = s; captured = "" })
      (λ d. if eqb (size d.rest) 0 then some d else none)) [ some d ↦ true | none ↦ false ]

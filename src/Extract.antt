-- ===== src/Extract.antt =====
-- orchestration/langgraph/text_extractor.py: what the program reads off a mission's text.
pub mod Laws
use Prim.Native.Char.{code}
use agentic_workflows.Base.{
  ℕ, zero, suc, ◌+◌, max, String, ◌≡◌, refl, Bool, true, false, not, ◌||◌, Option, none, some, List,
  [], ◌∷◌, ◌++◌, map, ltb, eqb, if◌then◌else◌, get_or, length, take, select, is_nil, last?,
}
use agentic_workflows.Base.Int.{ℤ, pos, negsuc}
use agentic_workflows.Base.Text.{
  strip, lower, split, join, print_nat, parse_nat, line_pieces, rstrip_chars, empty,
}
use agentic_workflows.Regex.{
  Re, chr, seq, alt, star, group, boundary, is_digit, is_alpha, search_re, find_all, starts,
  matches,
}
use agentic_workflows.Regex.Patterns.{
  lit, lit_any_case, opt, plus, digit, space, any_char, up_to, up_to_lazy,
}

-- int(token), for a token of the form `-?\d+`
to_int : String → ℤ
unfolding parse_nat
to_int String.[] = pos 0
to_int (String.◌∷◌ c s) =
    if eqb (code c) b'-' then negate (parse_nat s) else pos (parse_nat (String.◌∷◌ c s))
  where
    negate : ℕ → ℤ
    negate zero = pos 0
    negate (suc n) = negsuc n

abbrev is_quote : ℕ → Bool
is_quote c = eqb c 34 || eqb c 39

unfoldable pub extract_quoted_text : String → String
unfolding search_re strip
extract_quoted_text text = strip (
    get_or "" (
      search_re
        (seq (chr is_quote) (seq (group (plus (chr (λ c. not (is_quote c))))) (chr is_quote)))
        text))

unfoldable pub extract_numbers_from_text : String → List ℤ
unfolding find_all to_int lit
extract_numbers_from_text text =
    map to_int (find_all (group (seq (opt (lit "-")) (plus digit))) text)

abbrev count_of : Re
count_of = group (plus digit)

-- the six patterns, in the order in which they are tried
fibonacci_patterns : List Re
unfolding lit
fibonacci_patterns =
    seq count_of (
      seq (alt (lit "st") (alt (lit "nd") (alt (lit "rd") (lit "th"))))
        (seq (plus space) (lit "number")))
    ∷ seq (lit "first") (
        seq (plus space) (
          seq count_of (
            seq (plus space) (
              seq (opt (seq (lit "fibonacci") (plus space))) (alt (lit "numbers") (lit "terms"))))))
    ∷ seq (lit "first") (seq (plus space) (seq count_of (seq (plus space) (lit "fibonacci"))))
    ∷ seq (lit "until") (
        seq (plus space) (
          seq (lit "the") (
            seq (plus space) (
              seq count_of
                (seq (plus space) (alt (lit "number") (alt (lit "numbers") (lit "terms"))))))))
    ∷ seq count_of (
        seq (plus space)
          (seq (lit "fibonacci") (seq (plus space) (opt (alt (lit "numbers") (lit "terms"))))))
    ∷ seq count_of (seq (plus space) (alt (lit "numbers") (lit "terms")))
    ∷ []

first_match : List Re → String → Option String
first_match [] s = none
first_match (r ∷ rs) s =
    let later = first_match rs s in elim (search_re r s) [ some m ↦ some m | none ↦ later ]

unfoldable pub extract_fibonacci_count : String → ℕ
unfolding first_match fibonacci_patterns search_re parse_nat lower
extract_fibonacci_count mission = elim (first_match fibonacci_patterns (lower mission)) [
  | some digits ↦ max 2 (parse_nat digits)
  | none ↦ 100
]

-- numbers[-1] + numbers[-2]
next_number : List ℕ → ℕ
next_number [] = 0
next_number (a ∷ []) = 0
next_number (a ∷ b ∷ []) = b + a
next_number (a ∷ b ∷ c ∷ rest) = next_number (b ∷ c ∷ rest)

-- `while len(numbers) < count`: each round appends one number, so count rounds are enough.
fill_numbers : ℕ → ℕ → List ℕ → List ℕ
fill_numbers zero count numbers = numbers
fill_numbers (suc fuel) count numbers = elim (ltb (length numbers) count) [
  | true ↦ fill_numbers fuel count (numbers ++ next_number numbers ∷ [])
  | false ↦ numbers
]

unfoldable pub fibonacci_numbers : ℕ → List ℕ
unfolding fill_numbers next_number
fibonacci_numbers count = take count (fill_numbers count count (0 ∷ 1 ∷ []))

unfoldable pub fibonacci_csv : ℕ → String
unfolding fibonacci_numbers print_nat join
fibonacci_csv count = join ", " (map print_nat (fibonacci_numbers count))

abbrev is_task_line : String → Bool
is_task_line line =
    starts
      (seq (lit_any_case "task") (seq (star space) (seq (plus digit) (seq (star space) (lit ":")))))
      line

abbrev is_numbered_line : String → Bool
is_numbered_line line =
    starts
      (seq (plus digit)
        (alt space (chr (λ c. eqb c b')' || eqb c b'.' || eqb c b':' || eqb c b'-'))))
      line

extract_missions : String → List String
unfolding select line_pieces strip starts lit lit_any_case
extract_missions user_input =
    let lines = select (λ line. not (empty line)) (map strip (line_pieces user_input)) in
    let task_lines = select (λ line. is_task_line line || is_numbered_line line) lines in
    if is_nil task_lines then "Primary mission" ∷ [] else task_lines

extension : Re
unfolding up_to
extension = seq (chr is_alpha) (up_to 9 (chr (λ c. is_alpha c || is_digit c)))

abbrev is_path_char : ℕ → Bool
is_path_char c =
    is_alpha c || is_digit c || eqb c b'_' || eqb c b'.' || eqb c 92 || eqb c b'/' || eqb c b'-'

file_name : Re
unfolding lit extension
file_name = seq (opt (lit "/")) (seq (plus (chr is_path_char)) (seq (lit ".") extension))

quoted_file : Re
unfolding lit extension
quoted_file = seq (chr is_quote) (
    seq (group (seq (plus (chr (λ c. not (is_quote c)))) (seq (lit ".") extension))) (chr is_quote))

either_case : List String → Re
unfolding lit_any_case
either_case [] = chr (λ _. false)
either_case (s ∷ []) = lit_any_case s
either_case (s ∷ next ∷ more) = alt (lit_any_case s) (either_case (next ∷ more))

redirect_re : Re
unfolding either_case file_name
redirect_re = seq boundary (
    seq
      (alt
        (seq (lit_any_case "redirect") (
          seq (opt (seq (plus space) (either_case ("that" ∷ "output" ∷ "stdout" ∷ []))))
            (seq (plus space) (seq (lit_any_case "to") (plus space)))))
        (seq (lit_any_case "pipe") (seq (plus space) (seq (lit_any_case "to") (plus space)))))
      (group file_name))

write_verb_re : Re
unfolding either_case file_name
write_verb_re = seq boundary (
    seq (either_case ("write" ∷ "save" ∷ "create" ∷ "generate" ∷ "produce" ∷ "output" ∷ [])) (
      seq boundary
        (seq (plus space) (seq (opt (seq (lit_any_case "to") (plus space))) (group file_name)))))

write_to_re : Re
unfolding either_case file_name up_to_lazy
write_to_re = seq boundary (
    seq (lit_any_case "write") (
      seq boundary (
        seq any_char (
          seq (up_to_lazy 59 any_char)
            (seq boundary (seq (lit_any_case "to") (seq (plus space) (group file_name))))))))

-- `.strip().rstrip(".,;:")`
trim_name : String → String
unfolding strip rstrip_chars
trim_name s = rstrip_chars (λ c. eqb c b'.' || eqb c b',' || eqb c b';' || eqb c b':') (strip s)

first_name : List String → String
unfolding trim_name matches lit
first_name [] = ""
first_name (name ∷ names) =
    let later = first_name names in
    let candidate = trim_name name in
    if matches (seq (plus digit) (seq (lit ".") (plus digit))) candidate then later else candidate

unfoldable pub extract_write_path_from_mission : String → String
unfolding find_all search_re quoted_file redirect_re write_verb_re write_to_re file_name first_name
extract_write_path_from_mission mission = elim (last? (find_all quoted_file mission)) [
  | some name ↦ strip name
  | none ↦ elim (search_re redirect_re mission) [
    | some name ↦ trim_name name
    | none ↦ elim (search_re write_verb_re mission) [
      | some name ↦ trim_name name
      | none ↦ elim (search_re write_to_re mission) [
        | some name ↦ trim_name name
        | none ↦ first_name (find_all (group file_name) mission)
      ]
    ]
  ]
]

integer_re : Re
unfolding lit
integer_re = seq (opt (lit "-")) (plus digit)

parse_tokens : List String → Option (List ℤ)
parse_tokens [] = some []
parse_tokens (token ∷ tokens) =
    let rest = parse_tokens tokens in
    if matches integer_re token
    then elim rest [ none ↦ none | some numbers ↦ some (to_int token ∷ numbers) ]
    else none

unfoldable pub parse_csv_int_list : String → Option (List ℤ)
unfolding parse_tokens integer_re matches to_int select split strip
parse_csv_int_list content =
    parse_tokens (select (λ token. not (empty token)) (map strip (split "," content)))

extractors : Unit {0}
unfolding extract_quoted_text extract_numbers_from_text extract_fibonacci_count fibonacci_csv
    extract_missions extract_write_path_from_mission parse_csv_int_list
extractors = tt

count_test : extract_fibonacci_count "Write the first 50 Fibonacci numbers" ≡ 50
unfolding extractors
count_test = refl

csv_test : fibonacci_csv 7 ≡ "0, 1, 1, 2, 3, 5, 8"
unfolding extractors
csv_test = refl

path_test :
    extract_write_path_from_mission "delete foo.py then write to out/bar.py, please" ≡ "out/bar.py"
unfolding extractors
path_test = refl

quoted_path_test : extract_write_path_from_mission "save it as 'fib.txt'" ≡ "fib.txt"
unfolding extractors
quoted_path_test = refl

missions_test :
    extract_missions "Plan\n Task 1: sort\n2) write\nend" ≡ "Task 1: sort" ∷ "2) write" ∷ []
unfolding extractors
missions_test = refl

parse_test : parse_csv_int_list "0, 1,-12,, 7" ≡ some (pos 0 ∷ pos 1 ∷ negsuc 11 ∷ pos 7 ∷ [])
unfolding extractors
parse_test = refl

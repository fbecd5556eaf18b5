-- ===== src/Regex/Patterns.antt =====
-- The building blocks that the program's patterns share.
use Prim.Native.Char.{code}
use agentic_workflows.Base.{
  ℕ, zero, suc, ◌+◌, String, ◌≡◌, refl, true, false, not, ◌&&◌, ◌||◌, some, List, [], ◌∷◌, leb, eqb,
  if◌then◌else◌,
}
use agentic_workflows.Regex.{
  Re, eps, boundary, chr, seq, alt, star, group, is_digit, search_re, found, find_all, matches,
}

abbrev fold_case : ℕ → ℕ
fold_case n = if leb 65 n && leb n 90 then n + 32 else n

-- a literal text, letter for letter
unfoldable pub lit : String → Re
lit String.[] = eps
lit (String.◌∷◌ c s) = seq (chr (eqb (code c))) (lit s)

-- a literal text under `re.IGNORECASE`
unfoldable pub lit_any_case : String → Re
lit_any_case String.[] = eps
lit_any_case (String.◌∷◌ c s) =
    seq (chr (λ n. eqb (fold_case (code c)) (fold_case n))) (lit_any_case s)

abbrev pub opt : Re → Re
opt r = alt r eps

abbrev pub plus : Re → Re
plus r = seq r (star r)

-- `r{0,n}`, greedy
unfoldable pub up_to : ℕ → Re → Re
up_to zero r = eps
up_to (suc n) r = alt (seq r (up_to n r)) eps

-- `r{0,n}?`: as few rounds as will do
unfoldable pub up_to_lazy : ℕ → Re → Re
up_to_lazy zero r = eps
up_to_lazy (suc n) r = alt eps (seq r (up_to_lazy n r))

abbrev pub digit : Re
digit = chr is_digit

abbrev pub space : Re
space = chr (λ c. eqb c 32 || (leb 9 c && leb c 13) || (leb 28 c && leb c 31))

-- any character but a line end: `.`
abbrev pub any_char : Re
any_char = chr (λ c. not (eqb c 10))

-- `\bword\b`
unfoldable pub word : String → Re
unfolding lit
word s = seq boundary (seq (lit s) boundary)

-- `\b(?:a|b|c)\b`
alternatives : List String → Re
unfolding lit
alternatives [] = chr (λ _. false)
alternatives (s ∷ []) = lit s
alternatives (s ∷ next ∷ more) = alt (lit s) (alternatives (next ∷ more))

unfoldable pub words : List String → Re
unfolding alternatives
words ss = seq boundary (seq (alternatives ss) boundary)

patterns : Unit {0}
unfolding lit lit_any_case up_to up_to_lazy word words search_re found find_all matches
patterns = tt

word_test : found (word "sort") "please sort, then stop" ≡ true
unfolding patterns
word_test = refl

word_inside_test : found (words ("sum" ∷ "mean" ∷ [])) "the summary" ≡ false
unfolding patterns
word_inside_test = refl

group_test :
    search_re (seq (lit "first") (seq (plus space) (group (plus digit)))) "the first  12 terms"
    ≡ some "12"
unfolding patterns
group_test = refl

find_all_test :
    find_all (group (seq (opt (lit "-")) (plus digit))) "3, -14 or 15" ≡ "3" ∷ "-14" ∷ "15" ∷ []
unfolding patterns
find_all_test = refl

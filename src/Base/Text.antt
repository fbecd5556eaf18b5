-- ===== src/Base/Text.antt =====
-- Python's operations on `str` that the program uses, over the native texts. A `str` is a sequence
-- of code points, and so is a `String`. Case mapping and white space are those of ASCII.
use Prim.Native.Nat.{ℕ, zero, suc, ◌*◌, ◌/◌, ◌%◌, ◌+◌, ◌-◌}
use Prim.Native.Char.{Char, code}
use Prim.Native.String.{String, ◌++◌}
use mathlib.Core.Path.{◌≡◌, refl}
use mathlib.Core.Bool.{Bool, true, false, ◌&&◌, ◌||◌}
use mathlib.Core.List.{List, [], ◌∷◌}
use text.Mathlib.Text.{◌==◌}
use agentic_workflows.Base.Tests.{ltb, if◌then◌else◌, leb, eqb}

abbrev pub empty : String → Bool
empty String.[] = true
empty (String.◌∷◌ c s) = false

-- len(s)
unfoldable pub size : String → ℕ
size String.[] = 0
size (String.◌∷◌ c s) = suc (size s)

unfoldable pub is_space : Char → Bool
is_space c =
    eqb (code c) 32 || (leb 9 (code c) && leb (code c) 13) || (leb 28 (code c) && leb (code c) 31)

unfoldable pub lstrip : String → String
unfolding is_space
lstrip String.[] = ""
lstrip (String.◌∷◌ c s) = let rest = lstrip s in if is_space c then rest else String.◌∷◌ c s

unfoldable pub rstrip : String → String
unfolding is_space
rstrip String.[] = ""
rstrip (String.◌∷◌ c s) =
    let rest = rstrip s in if is_space c && (rest == "") then "" else String.◌∷◌ c rest

unfoldable pub strip : String → String
unfolding lstrip rstrip
strip s = rstrip (lstrip s)

unfoldable pub replace_char : Char → Char → String → String
replace_char a b String.[] = ""
replace_char a b (String.◌∷◌ c s) =
    String.◌∷◌ (if eqb (code c) (code a) then b else c) (replace_char a b s)

unfoldable pub last_part : Char → String → String → String
last_part sep found String.[] = found
last_part sep found (String.◌∷◌ c s) =
    last_part sep (if eqb (code c) (code sep) then s else found) s

-- What stands behind the last `sep`, or all of it: `s.rsplit(sep, 1)[-1]`.
unfoldable pub after_last : Char → String → String
unfolding last_part
after_last sep s = last_part sep s s

-- `path.replace("\\", "/").rsplit("/", 1)[-1]`
unfoldable pub basename : String → String
unfolding replace_char after_last
basename path = after_last "/" (replace_char "\\" "/" path)

-- The character at a position, or a default past the end.
char_at : Char → ℕ → String → Char
char_at d n String.[] = d
char_at d zero (String.◌∷◌ c s) = c
char_at d (suc n) (String.◌∷◌ c s) = char_at d n s

small_letter : ℕ → Char
unfolding char_at
small_letter n = char_at "z" n "abcdefghijklmnopqrstuvwxyz"

lower_char : Char → Char
unfolding small_letter
lower_char c = let n = code c in if leb 65 n && leb n 90 then small_letter (n - 65) else c

-- s.lower()
unfoldable pub lower : String → String
unfolding lower_char
lower String.[] = ""
lower (String.◌∷◌ c s) = String.◌∷◌ (lower_char c) (lower s)

-- s.startswith(p)
unfoldable pub startswith : String → String → Bool
startswith s String.[] = true
startswith String.[] (String.◌∷◌ d p) = false
startswith (String.◌∷◌ c s) (String.◌∷◌ d p) = eqb (code c) (code d) && startswith s p

-- `p in s`
unfoldable pub contains_text : String → String → Bool
unfolding startswith
contains_text String.[] p = empty p
contains_text (String.◌∷◌ c s) p = startswith (String.◌∷◌ c s) p || contains_text s p

-- What stands behind the first `sep`: `s.split(sep, 1)[1]`, where `sep` occurs.
unfoldable pub after_first : Char → String → String
after_first sep String.[] = ""
after_first sep (String.◌∷◌ c s) =
    let rest = after_first sep s in if eqb (code c) (code sep) then s else rest

unfoldable pub count_char : Char → String → ℕ
count_char a String.[] = 0
count_char a (String.◌∷◌ c s) = (if eqb (code c) (code a) then 1 else 0) + count_char a s

-- s.split(sep), for a separator of one character
unfoldable pub cons_head : Char → List String → List String
cons_head c [] = String.◌∷◌ c "" ∷ []
cons_head c (part ∷ parts) = String.◌∷◌ c part ∷ parts

unfoldable pub split : Char → String → List String
unfolding cons_head
split sep String.[] = "" ∷ []
split sep (String.◌∷◌ c s) =
    let parts = split sep s in if eqb (code c) (code sep) then "" ∷ parts else cons_head c parts

-- sep.join(parts)
unfoldable pub join : String → List String → String
join sep [] = ""
join sep (part ∷ []) = part
join sep (part ∷ next ∷ parts) = part ++ sep ++ join sep (next ∷ parts)

-- s[:n]
unfoldable pub prefix : ℕ → String → String
prefix zero s = ""
prefix (suc n) String.[] = ""
prefix (suc n) (String.◌∷◌ c s) = String.◌∷◌ c (prefix n s)

-- s.rstrip(chars)
unfoldable pub rstrip_chars : (ℕ → Bool) → String → String
rstrip_chars p String.[] = ""
rstrip_chars p (String.◌∷◌ c s) =
    let rest = rstrip_chars p s in if p (code c) && (rest == "") then "" else String.◌∷◌ c rest

-- The pieces between line ends. Beside the lines of `splitlines` it has empty pieces, behind a last
-- line end and inside `\r\n`; the program drops empty lines.
line_end : ℕ → Bool
line_end n = (leb 10 n && leb n 13) || (leb 28 n && leb n 30)

unfoldable pub line_pieces : String → List String
unfolding line_end cons_head
line_pieces String.[] = "" ∷ []
line_pieces (String.◌∷◌ c s) =
    let pieces = line_pieces s in if line_end (code c) then "" ∷ pieces else cons_head c pieces

digit_char : ℕ → Char
digit_char zero = "0"
digit_char (suc zero) = "1"
digit_char (suc (suc zero)) = "2"
digit_char (suc (suc (suc zero))) = "3"
digit_char (suc (suc (suc (suc zero)))) = "4"
digit_char (suc (suc (suc (suc (suc zero))))) = "5"
digit_char (suc (suc (suc (suc (suc (suc zero)))))) = "6"
digit_char (suc (suc (suc (suc (suc (suc (suc zero))))))) = "7"
digit_char (suc (suc (suc (suc (suc (suc (suc (suc zero)))))))) = "8"
digit_char n = "9"

-- The digits of n before `rest`. A number has fewer digits than its value, so n rounds are enough.
print_digits : ℕ → ℕ → String → String
print_digits zero n rest = rest
print_digits (suc fuel) n rest = elim (ltb n 10) [
  | true ↦ String.◌∷◌ (digit_char n) rest
  | false ↦ print_digits fuel (n / 10) (String.◌∷◌ (digit_char (n % 10)) rest)
]

-- str(n)
unfoldable pub print_nat : ℕ → String
unfolding print_digits digit_char
print_nat n = print_digits (suc n) n ""

parse_digits : ℕ → String → ℕ
parse_digits acc String.[] = acc
parse_digits acc (String.◌∷◌ c s) = parse_digits (acc * 10 + (code c - 48)) s

-- int(s), for a text of digits
unfoldable pub parse_nat : String → ℕ
unfolding parse_digits
parse_nat s = parse_digits 0 s

texts : Unit {0}
unfolding strip basename lower contains_text after_first count_char split join prefix
texts = tt

strip_test : strip " a b \n" ≡ "a b"
unfolding texts
strip_test = refl

basename_test : basename "out\\dir/Report.TXT" ≡ "Report.TXT"
unfolding texts
basename_test = refl

lower_test : lower "Write FIB.txt Z" ≡ "write fib.txt z"
unfolding texts
lower_test = refl

split_test : split "," "a,,b" ≡ "a" ∷ "" ∷ "b" ∷ []
unfolding texts
split_test = refl

contains_text_test : contains_text "save to x" "e to" ≡ true
unfolding texts
contains_text_test = refl

print_nat_test : print_nat 9050 ≡ "9050"
unfolding print_nat
print_nat_test = refl

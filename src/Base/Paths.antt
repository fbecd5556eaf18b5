-- ===== src/Base/Paths.antt =====
-- Base names: what `basename` returns has no separator, so that to take it again changes nothing.
use Prim.Native.Char.{Char, code}
use Prim.Native.String.{String}
use mathlib.Core.Path.{◌≡◌, refl, ap, ◌∙◌}
use mathlib.Core.Logic.{inl, inr}
use mathlib.Core.Bool.{Bool, true}
use mathlib.Core.List.{List, [], ◌∷◌, map}
use native.Mathlib.Omega.{arith}
use text.Mathlib.Text.{◌==◌}
use text.Mathlib.TextEquality.{eq_iff}
use agentic_workflows.Base.Tests.{Bool-cases, if◌then◌else◌, eqb}
use agentic_workflows.Base.Lists.{all}
use agentic_workflows.Base.Text.{basename, replace_char, after_last, last_part, count_char}

count-last_part :
    (a sep : Char) (found s : String)
    → count_char a found ≡ 0
    → count_char a s ≡ 0
    → count_char a (last_part sep found s) ≡ 0
unfolding last_part count_char
count-last_part a sep found String.[] h k = h
count-last_part a sep found (String.◌∷◌ c s) h k =
    count-last_part a sep (if eqb (code c) (code sep) then s else found) s (ground arith)
      (ground arith)

count-last_part_self :
    (sep : Char) (found s : String)
    → count_char sep found ≡ count_char sep s
    → count_char sep (last_part sep found s) ≡ 0
unfolding last_part count_char
count-last_part_self sep found String.[] h = h
count-last_part_self sep found (String.◌∷◌ c s) h =
    count-last_part_self sep (if eqb (code c) (code sep) then s else found) s (ground arith)

count-replace : (s : String) → count_char "\\" (replace_char "\\" "/" s) ≡ 0
unfolding count_char replace_char
count-replace String.[] = refl
count-replace (String.◌∷◌ c s) = elim (Bool-cases (eqb (code c) 92)) [
  | inl bs ↦ rw bs (ground (arith, count-replace s))
  | inr other ↦ rw (other, other) (ground (arith, count-replace s))
]

replace-free : (s : String) → count_char "\\" s ≡ 0 → replace_char "\\" "/" s ≡ s
unfolding count_char replace_char
replace-free String.[] h = refl
replace-free (String.◌∷◌ c s) h = ground (arith, replace-free s)

last_part-free :
    (sep : Char) (found s : String) → count_char sep s ≡ 0 → last_part sep found s ≡ found
unfolding last_part count_char
last_part-free sep found String.[] h = refl
last_part-free sep found (String.◌∷◌ c s) h = ground (arith, last_part-free sep found s)

pub basename_free :
    (p : String) → (count_char "/" (basename p) ≡ 0) × (count_char "\\" (basename p) ≡ 0)
unfolding basename after_last
basename_free p = (
  count-last_part_self "/" (replace_char "\\" "/" p) (replace_char "\\" "/" p) refl,
  count-last_part "\\" "/" (replace_char "\\" "/" p) (replace_char "\\" "/" p) (count-replace p)
      (count-replace p),
)

basename_of_free : (p : String) → count_char "/" p ≡ 0 → count_char "\\" p ≡ 0 → basename p ≡ p
unfolding basename after_last
basename_of_free p h k = ap (λ s. last_part "/" s s) (replace-free p k) ∙ last_part-free "/" p p h

pub basename_idem : (p : String) → basename (basename p) ≡ basename p
basename_idem p = let (h, k) = basename_free p in basename_of_free (basename p) h k

-- Whether a name is a base name already.
abbrev pub is_base : String → Bool
is_base s = basename s == s

pub all-is_base : (ps : List String) → all is_base (map basename ps) ≡ true
unfolding all
all-is_base [] = refl
all-is_base (p ∷ ps) =
    ground (arith, eq_iff (basename (basename p)) (basename p), basename_idem p, all-is_base ps)

pub map-basename_of_all : (ps : List String) → all is_base ps ≡ true → map basename ps ≡ ps
unfolding all
map-basename_of_all [] h = refl
map-basename_of_all (p ∷ ps) h = ground (arith, eq_iff (basename p) p, map-basename_of_all ps)

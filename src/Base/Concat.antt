-- ===== src/Base/Concat.antt =====
-- Texts put end to end, and the parts of a text joined with nothing between them.
use Prim.Native.Char.{Char}
use Prim.Native.String.{String, ◌++◌ as str_append}
use Prim.Native.String.append
use mathlib.Core.Path.{◌≡◌, refl, sym, ap, ◌∙◌}
use mathlib.Core.List.{List, [], ◌∷◌, ◌++◌}
use agentic_workflows.Base.Text.{join, cons_head}

infixr 65 ◌+++◌
abbrev pub ◌+++◌ : String → String → String
◌+++◌ = str_append

cons_append : (c : Char) (s t : String) → String.◌∷◌ c s +++ t ≡ String.◌∷◌ c (s +++ t)
cons_append c s t = λ i. append.cons c s t i

empty_append : (t : String) → "" +++ t ≡ t
empty_append t = λ i. append.nil t i

append_empty : (s : String) → s +++ "" ≡ s
append_empty String.[] = empty_append ""
append_empty (String.◌∷◌ c s) = cons_append c s "" ∙ ap (String.◌∷◌ c) (append_empty s)

pub str_append_assoc : (s t u : String) → (s +++ t) +++ u ≡ s +++ t +++ u
str_append_assoc String.[] t u = ap (λ w. w +++ u) (empty_append t) ∙ sym (empty_append (t +++ u))
str_append_assoc (String.◌∷◌ c s) t u =
    ap (λ w. w +++ u) (cons_append c s t)
    ∙ cons_append c (s +++ t) u
    ∙ ap (String.◌∷◌ c) (str_append_assoc s t u)
    ∙ sym (cons_append c s (t +++ u))

pub join-cons : (x : String) (xs : List String) → join "" (x ∷ xs) ≡ x +++ join "" xs
unfolding join
join-cons x [] = sym (append_empty x)
join-cons x (y ∷ xs) = ap (λ w. x +++ w) (empty_append (join "" (y ∷ xs)))

pub join-append : (xs ys : List String) → join "" (xs ++ ys) ≡ join "" xs +++ join "" ys
unfolding join
join-append [] ys = sym (empty_append (join "" ys))
join-append (x ∷ xs) ys =
    join-cons x (xs ++ ys)
    ∙ ap (λ w. x +++ w) (join-append xs ys)
    ∙ sym (str_append_assoc x (join "" xs) (join "" ys))
    ∙ ap (λ w. w +++ join "" ys) (sym (join-cons x xs))

pub join-cons_char :
    (c : Char) (xs : List String) → join "" (String.◌∷◌ c "" ∷ xs) ≡ String.◌∷◌ c (join "" xs)
join-cons_char c xs =
    join-cons (String.◌∷◌ c "") xs
    ∙ cons_append c "" (join "" xs)
    ∙ ap (String.◌∷◌ c) (empty_append (join "" xs))

pub join-cons_head :
    (c : Char) (xs : List String) → join "" (cons_head c xs) ≡ String.◌∷◌ c (join "" xs)
unfolding cons_head join
join-cons_head c [] = refl
join-cons_head c (x ∷ xs) =
    join-cons (String.◌∷◌ c x) xs
    ∙ cons_append c x (join "" xs)
    ∙ ap (String.◌∷◌ c) (sym (join-cons x xs))

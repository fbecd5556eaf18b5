-- ===== src/Tools/Chunks/Laws.antt =====
-- Reading on at next_offset reads the whole file.
use Prim.Native.Char.{Char, code}
use agentic_workflows.Base.{
  ℕ, zero, suc, ◌+◌, ◌-◌, ◌≤◌, ◌<◌, String, ◌≡◌, refl, sym, ap, ◌∙◌, inl, inr, Bool, true, false,
  not, ◌&&◌, eqb, Option, none, some, List, [], ◌∷◌, ◌++◌, arith, if◌then◌else◌, ltb, ltb→lt,
  length, take, drop, length-drop, Bool-cases,
}
use agentic_workflows.Base.Text.{join, startswith, cons_head}
use agentic_workflows.Base.Concat.{◌+++◌, join-append, join-cons_char, join-cons_head}
use agentic_workflows.Tools.Chunks.{line_break, Chunk, split_lines, read_chunk}

module _ {ℓ} {A : Type ℓ} where
  take_append_drop : (n : ℕ) (xs : List A) → take n xs ++ drop n xs ≡ xs
  unfolding drop
  take_append_drop zero xs = refl
  take_append_drop (suc n) [] = refl
  take_append_drop (suc n) (x ∷ xs) = ap (λ ys. x ∷ ys) (take_append_drop n xs)

  drop_nil : (n : ℕ) → drop {A = A} n [] ≡ []
  unfolding drop
  drop_nil zero = refl
  drop_nil (suc n) = refl

  drop-drop : (m n : ℕ) (xs : List A) → drop n (drop m xs) ≡ drop (m + n) xs
  unfolding drop
  drop-drop zero n xs = ap (λ k. drop k xs) (omega arith)
  drop-drop (suc m) n [] = drop_nil n ∙ sym (drop_nil (suc m + n))
  drop-drop (suc m) n (x ∷ xs) =
      drop-drop m n xs ∙ ap (λ k. drop k (x ∷ xs)) {x = suc (m + n)} {y = suc m + n} (omega arith)

  take_all : (n : ℕ) (xs : List A) → length xs ≤ length (take n xs) → take n xs ≡ xs
  take_all zero [] h = refl
  take_all zero (x ∷ xs) h = absurd (omega (arith, h))
  take_all (suc n) [] h = refl
  take_all (suc n) (x ∷ xs) h = ap (λ ys. x ∷ ys) (take_all n xs (omega (arith, h)))

  -- A part that is shorter than the list has as many elements as were asked for.
  length-take : (n : ℕ) (xs : List A) → length (take n xs) < length xs → length (take n xs) ≡ n
  length-take zero xs h = refl
  length-take (suc n) [] h = absurd (omega (arith, h))
  length-take (suc n) (x ∷ xs) h = ap suc (length-take n xs (omega (arith, h)))

join-line :
    (b : Bool) (c : Char) (lines : List String)
    → join "" (if b then String.◌∷◌ c "" ∷ lines else cons_head c lines)
      ≡ String.◌∷◌ c (join "" lines)
join-line true c lines = join-cons_char c lines
join-line false c lines = join-cons_head c lines

-- The lines of a text, put end to end, are the text.
join-split_lines : (s : String) → join "" (split_lines s) ≡ s
unfolding split_lines join
join-split_lines String.[] = refl
join-split_lines (String.◌∷◌ c s) =
    join-line (line_break (code c) && not (eqb (code c) 13 && startswith s "\n")) c (split_lines s)
    ∙ ap (String.◌∷◌ c) (join-split_lines s)

-- The content of a chunk and what is read after it.
abbrev and_rest : (ℕ → Option String) → Chunk → Option String
and_rest go_on chunk = elim chunk.next_offset [
  | none ↦ some chunk.content
  | some next ↦ elim (go_on next) [ none ↦ none | some rest ↦ some (chunk.content +++ rest) ]
]

-- What a client reads that goes on at next_offset, in so many calls at most.
abbrev pub follow : List String → ℕ → ℕ → ℕ → Option String
follow lines limit zero offset = none
follow lines limit (suc calls) offset =
    and_rest (follow lines limit calls) (read_chunk lines offset limit)

chunk_then_rest :
    (lines : List String) (limit offset : ℕ)
    → length (take limit (drop offset lines)) ≡ limit
    → join "" (take limit (drop offset lines))
        +++ join "" (drop (offset + length (take limit (drop offset lines))) lines)
      ≡ join "" (drop offset lines)
chunk_then_rest lines limit offset h =
    ap (λ n. join "" (take limit (drop offset lines)) +++ join "" (drop (offset + n) lines)) h
    ∙ ap (λ rest. join "" (take limit (drop offset lines)) +++ join "" rest)
        (sym (drop-drop offset limit lines))
    ∙ sym (join-append (take limit (drop offset lines)) (drop limit (drop offset lines)))
    ∙ ap (join "") (take_append_drop limit (drop offset lines))

follow_from :
    (lines : List String) (limit calls offset : ℕ)
    → 1 ≤ limit
    → length lines - offset < calls
    → follow lines limit calls offset ≡ some (join "" (drop offset lines))
unfolding read_chunk
follow_from lines limit zero offset h enough = absurd (omega (arith, enough))
follow_from lines limit (suc calls) offset h enough =
    let rest = drop offset lines in
    let next = offset + length (take limit rest) in
    elim (Bool-cases (ltb next (length lines))) [
      | inl e ↦
          let full : length (take limit rest) ≡ limit =
            length-take limit rest
              (omega (arith, length-drop offset lines, ltb→lt next (length lines) e)) in
          ground (
            arith,
            follow_from lines limit calls next h
                (omega (arith, full, enough, h, ltb→lt next (length lines) e)),
            chunk_then_rest lines limit offset full,
          )
      | inr e ↦
          ground
            (arith, ap (join "") (take_all limit rest (ground (arith, length-drop offset lines))))
    ]

-- Whatever the text of a file and the limit, if that is not 0, a client of read_file_chunk that starts
-- at offset 0 and goes on at every next_offset reads the whole text, each line once and in order, in
-- at most one call more than the text has lines.
pub follow-split_lines :
    (s : String) (limit : ℕ)
    → 1 ≤ limit
    → follow (split_lines s) limit (suc (length (split_lines s))) 0 ≡ some s
unfolding drop
follow-split_lines s limit h =
    follow_from (split_lines s) limit (suc (length (split_lines s))) 0 h (omega arith)
    ∙ ap some (join-split_lines s)

-- ===== src/Validate/Laws.antt =====
-- What is accepted is exactly the Fibonacci numbers.
use agentic_workflows.Base.{
  ℕ, zero, suc, ◌+◌, ◌≤◌, ◌≡◌, refl, ap, ◌∙◌, ◌↔◌, none, List, [], ◌∷◌, map, arith, length,
}
use agentic_workflows.Base.Int.{ℤ, pos, negsuc}
use mathlib.Core.Path.{subst}
use agentic_workflows.Extract.{fibonacci_numbers}
use agentic_workflows.Extract.Laws.{sequence, fibonacci_numbers-sequence}
use agentic_workflows.Validate.{◌+ℤ◌, int_eq, sequence_error, start_error, numbers_error}

-- The sequence that goes on from two numbers, as far as asked.
unfoldable pub fibonacci_from : ℕ → ℕ → ℕ → List ℤ
fibonacci_from zero a b = []
fibonacci_from (suc n) a b = pos a ∷ fibonacci_from n b (b + a)

length-fibonacci_from : (n a b : ℕ) → length (fibonacci_from n a b) ≡ n
unfolding fibonacci_from
length-fibonacci_from zero a b = refl
length-fibonacci_from (suc n) a b = ap suc (length-fibonacci_from n b (b + a))

sequence_sound :
    (i a b : ℕ) (ns : List ℤ)
    → sequence_error i (pos a) (pos b) ns ≡ none
    → ns ≡ fibonacci_from (length ns) (b + a) (b + a + b)
unfolding sequence_error fibonacci_from int_eq ◌+ℤ◌
sequence_sound i a b [] h = refl
sequence_sound i a b (negsuc m ∷ ns) h = absurd (ground (arith, h))
sequence_sound i a b (pos m ∷ ns) h =
    let e : m ≡ b + a = ground (arith, h) in
    let later : sequence_error (suc i) (pos b) (pos (b + a)) ns ≡ none = ground (arith, h, e) in
    let rest = sequence_sound (suc i) b (b + a) ns later in cc

sequence_complete :
    (i a b k : ℕ) → sequence_error i (pos a) (pos b) (fibonacci_from k (b + a) (b + a + b)) ≡ none
unfolding sequence_error fibonacci_from int_eq ◌+ℤ◌
sequence_complete i a b zero = refl
sequence_complete i a b (suc k) = ground (arith, sequence_complete (suc i) b (b + a) k)

start_sound :
    (ns : List ℤ) → start_error ns ≡ none → (2 ≤ length ns) × (ns ≡ fibonacci_from (length ns) 0 1)
unfolding start_error fibonacci_from int_eq
start_sound [] h = absurd (ground (arith, h))
start_sound (a ∷ []) h = absurd (ground (arith, h))
start_sound (negsuc m ∷ b ∷ ns) h = absurd (ground (arith, h))
start_sound (pos m ∷ negsuc n ∷ ns) h = absurd (ground (arith, h))
start_sound (pos m ∷ pos n ∷ ns) h =
    let e : m ≡ 0 = ground (arith, h) in
    let f : n ≡ 1 = ground (arith, h) in
    let later : sequence_error 2 (pos 0) (pos 1) ns ≡ none = ground (arith, h, e, f) in
    let rest = sequence_sound 2 0 1 ns later in (omega arith, cc)

accepted : (count : ℕ) → 2 ≤ count → numbers_error count (fibonacci_from count 0 1) ≡ none
unfolding numbers_error start_error fibonacci_from int_eq
accepted zero h = absurd (omega arith)
accepted (suc zero) h = absurd (omega arith)
accepted (suc (suc k)) h = ground (arith, length-fibonacci_from k 1 2, sequence_complete 2 0 1 k)

-- Content is accepted for an expected count exactly when it is that many of the Fibonacci numbers from
-- 0 and 1 on, and at least two of them.
pub numbers_error_lem :
    (count : ℕ) (numbers : List ℤ)
    → (numbers_error count numbers ≡ none) ↔ ((2 ≤ count) × (numbers ≡ fibonacci_from count 0 1))
unfolding numbers_error
numbers_error_lem count numbers = (sound, complete)
  where
    sound : numbers_error count numbers ≡ none → (2 ≤ count) × (numbers ≡ fibonacci_from count 0 1)
    sound h =
        let e : length numbers ≡ count = ground (arith, h) in
        subst (λ k. (2 ≤ k) × (numbers ≡ fibonacci_from k 0 1)) e
          (start_sound numbers (ground (arith, h)))

    complete :
        (2 ≤ count) × (numbers ≡ fibonacci_from count 0 1) → numbers_error count numbers ≡ none
    complete (h, e) = ap (numbers_error count) e ∙ accepted count h

map-sequence : (n a b : ℕ) → map pos (sequence n a b) ≡ fibonacci_from n a b
unfolding sequence fibonacci_from
map-sequence zero a b = refl
map-sequence (suc n) a b = ap (◌∷◌ (pos a)) (map-sequence n b (b + a))

-- The numbers that `fibonacci_csv` writes for a count of at least two are accepted for that count.
pub fibonacci_numbers-accepted :
    (count : ℕ) → 2 ≤ count → numbers_error count (map pos (fibonacci_numbers count)) ≡ none
fibonacci_numbers-accepted count h =
    ap (λ ns. numbers_error count (map pos ns)) (fibonacci_numbers-sequence count h)
    ∙ ap (numbers_error count) (map-sequence count 0 1)
    ∙ accepted count h

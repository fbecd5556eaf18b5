-- ===== src/Extract/Laws.antt =====
-- The numbers that `fibonacci_csv` writes.
use agentic_workflows.Base.{
  ℕ, zero, suc, ◌+◌, ◌≤◌, ◌≡◌, refl, ap, ◌∙◌, Bool, true, false, List, [], ◌∷◌, ◌++◌, arith, ltb,
  length, take,
}
use agentic_workflows.Extract.{next_number, fill_numbers, fibonacci_numbers}

-- The sequence that goes on from two numbers, as far as asked.
unfoldable pub sequence : ℕ → ℕ → ℕ → List ℕ
sequence zero a b = []
sequence (suc n) a b = a ∷ sequence n b (b + a)

length-sequence : (n a b : ℕ) → length (sequence n a b) ≡ n
unfolding sequence
length-sequence zero a b = refl
length-sequence (suc n) a b = ap suc (length-sequence n b (b + a))

-- A round of the loop goes on with the sequence.
sequence-append :
    (k a b : ℕ)
    → sequence (suc (suc k)) a b ++ next_number (sequence (suc (suc k)) a b) ∷ []
      ≡ sequence (suc (suc (suc k))) a b
unfolding sequence next_number
sequence-append zero a b = refl
sequence-append (suc k) a b = ap (◌∷◌ a) (sequence-append k b (b + a))

fill_numbers-sequence :
    (fuel k count : ℕ)
    → suc (suc k) ≤ count
    → count ≤ suc (suc k) + fuel
    → fill_numbers fuel count (sequence (suc (suc k)) 0 1) ≡ sequence count 0 1
unfolding fill_numbers
fill_numbers-sequence zero k count h l =
    let e : suc (suc k) ≡ count = omega arith in ap (λ n. sequence n 0 1) e
fill_numbers-sequence (suc fuel) k count h l =
    ap (λ n. round (ltb n count)) (length-sequence (suc (suc k)) 0 1)
    ∙ by_test (ltb (suc (suc k)) count) refl
        (λ more. fill_numbers-sequence fuel (suc k) count more (omega arith))
  where
    round : Bool → List ℕ
    round more = elim more [
      | true ↦
          fill_numbers fuel count
            (sequence (suc (suc k)) 0 1 ++ next_number (sequence (suc (suc k)) 0 1) ∷ [])
      | false ↦ sequence (suc (suc k)) 0 1
    ]

    by_test :
        (b : Bool)
        → ltb (suc (suc k)) count ≡ b
        → (suc (suc (suc k)) ≤ count
            → fill_numbers fuel count (sequence (suc (suc (suc k))) 0 1) ≡ sequence count 0 1)
        → round b ≡ sequence count 0 1
    by_test true e rest =
        ap (fill_numbers fuel count) (sequence-append k 0 1) ∙ rest (ground (arith, e))
    by_test false e rest =
        let same : suc (suc k) ≡ count = ground (arith, e, h) in ap (λ n. sequence n 0 1) same

take-sequence : (n a b : ℕ) → take n (sequence n a b) ≡ sequence n a b
unfolding sequence
take-sequence zero a b = refl
take-sequence (suc n) a b = ap (◌∷◌ a) (take-sequence n b (b + a))

pub fibonacci_numbers-sequence : (n : ℕ) → 2 ≤ n → fibonacci_numbers n ≡ sequence n 0 1
unfolding fibonacci_numbers sequence
fibonacci_numbers-sequence n h =
    ap (take n) (fill_numbers-sequence n 0 n h (omega arith)) ∙ take-sequence n 0 1

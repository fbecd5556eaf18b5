-- ===== src/Context/Window/Slices.antt =====
-- Slices of a list, and what a selection keeps of one.
use agentic_workflows.Base.{
  ℕ, zero, suc, ◌≤◌, ◌≡◌, refl, ap, Bool, true, not, List, [], ◌∷◌, ◌++◌, arith, length, select,
  all,
}
use agentic_workflows.Base.{drop}

module _ {ℓ} {A : Type ℓ} where
  pub drop-length : (n : ℕ) (xs : List A) → length xs ≤ n → drop n xs ≡ []
  unfolding drop
  drop-length zero [] h = refl
  drop-length zero (x ∷ xs) h = absurd (omega (arith, h))
  drop-length (suc n) [] h = refl
  drop-length (suc n) (x ∷ xs) h = drop-length n xs (omega (arith, h))

  pub all-drop : (p : A → Bool) (n : ℕ) (xs : List A) → all p xs ≡ true → all p (drop n xs) ≡ true
  unfolding all drop
  all-drop p zero xs h = h
  all-drop p (suc n) [] h = refl
  all-drop p (suc n) (x ∷ xs) h = all-drop p n xs (ground (arith, h))

  pub all-select : (p : A → Bool) (xs : List A) → all p (select p xs) ≡ true
  unfolding all select
  all-select p [] = refl
  all-select p (x ∷ xs) = ground (arith, all-select p xs)

  pub select_of_all : (p : A → Bool) (xs : List A) → all p xs ≡ true → select p xs ≡ xs
  unfolding all select
  select_of_all p [] h = refl
  select_of_all p (x ∷ xs) h = ground (arith, h, select_of_all p xs)

  -- What passes one test passes none that is its opposite.
  pub select_of_opposite :
      (p q : A → Bool) (xs : List A)
      → ((x : A) → q x ≡ not (p x))
      → all q xs ≡ true
      → select p xs ≡ []
  unfolding all select
  select_of_opposite p q [] e h = refl
  select_of_opposite p q (x ∷ xs) e h = ground (arith, h, e x, select_of_opposite p q xs e)

  pub select-append :
      (p : A → Bool) (xs ys : List A) → select p (xs ++ ys) ≡ select p xs ++ select p ys
  unfolding select
  select-append p [] ys = refl
  select-append p (x ∷ xs) ys = ground (arith, select-append p xs ys)

pub append_nil {ℓ} : {A : Type ℓ} (xs : List A) → xs ++ [] ≡ xs
append_nil [] = refl
append_nil (x ∷ xs) = ap (λ ys. x ∷ ys) (append_nil xs)

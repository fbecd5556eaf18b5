-- ===== src/Validate/Samples.antt =====
-- Contents accepted and refused, and the theorems of the checks at them.
use agentic_workflows.Base.{◌≤◌, ◌≡◌, refl, ◌↔◌, none, some, List, [], ◌∷◌, map, arith}
use agentic_workflows.Base.Int.{ℤ, pos}
use agentic_workflows.Base.Text.{print_nat}
use agentic_workflows.Values.{str, end, field}
use agentic_workflows.Extract.{fibonacci_numbers, fibonacci_csv}
use agentic_workflows.Missions.Samples.{write_report}
use agentic_workflows.Validate.{validate_fibonacci, numbers_error}
use agentic_workflows.Validate.Laws.{fibonacci_from, numbers_error_lem, fibonacci_numbers-accepted}

-- What the fallback writes for 12 numbers passes as text, too.
csv_test :
    validate_fibonacci
      (record write_report { expected_fibonacci_count = some 12 })
      "write_file"
      (field "content" (str (fibonacci_csv 12)) end)
      end
    ≡ none
unfolding validate_fibonacci fibonacci_csv agentic_workflows.Validate.◌+ℤ◌
csv_test = refl

mismatch_test :
    validate_fibonacci
      (record write_report { mission = "Write 4 fibonacci numbers" })
      "write_file"
      (field "content" (str "0, 1, 1, 3") end)
      end
    ≡ some "fibonacci sequence mismatch at index 3: got 3, expected 2."
unfolding validate_fibonacci agentic_workflows.Validate.◌+ℤ◌ print_nat
mismatch_test = refl

abbrev five : List ℤ
five = pos 0 ∷ pos 1 ∷ pos 1 ∷ pos 2 ∷ pos 3 ∷ []

numbers_error_lem_example :
    (numbers_error 5 five ≡ none) ↔ ((2 ≤ 5) × (five ≡ fibonacci_from 5 0 1))
numbers_error_lem_example = numbers_error_lem 5 five

fibonacci_numbers-accepted_example : numbers_error 9 (map pos (fibonacci_numbers 9)) ≡ none
fibonacci_numbers-accepted_example = fibonacci_numbers-accepted 9 (omega arith)

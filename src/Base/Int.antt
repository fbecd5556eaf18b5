-- ===== src/Base/Int.antt =====
-- Python's integers, where the program lets one be negative.
use Prim.Native.Nat.{ℕ, zero, suc}
use mathlib.Core.Option.{Option, none, some}

-- `negsuc n` is -(n + 1).
pub data ℤ : Type 0 where
  pos : ℕ → ℤ
  negsuc : ℕ → ℤ

-- max(z, 0)
abbrev pub clip : ℤ → ℕ
clip (pos n) = n
clip (negsuc n) = 0

-- The index that z is, where it is one.
abbrev pub index? : ℤ → Option ℕ
index? (pos n) = some n
index? (negsuc n) = none

-- z - 1
abbrev pub pred_int : ℤ → ℤ
pred_int (pos zero) = negsuc 0
pred_int (pos (suc n)) = pos n
pred_int (negsuc n) = negsuc (suc n)

-- ===== src/Base/Ints.antt =====
-- Go's signed `int`: limits, sizes and ages come from the configuration and may be negative.
use Prim.Native.Nat.{ℕ, suc, ◌+◌, ◌-◌}
use mathlib.Core.Bool.{Bool, true, false}
use sticky_overseer.Base.Tests.{ltb, leb, ◌==◌}

-- `negsuc n` is -(n + 1).
pub data ℤ : Type 0 where
  pos : ℕ → ℤ
  negsuc : ℕ → ℤ

-- `x > 0`
abbrev pub is_positive : ℤ → Bool
is_positive (pos n) = ltb 0 n
is_positive (negsuc n) = false

-- `x == 0`
abbrev pub is_zero : ℤ → Bool
is_zero (pos n) = n == 0
is_zero (negsuc n) = false

-- `n >= x` and `n <= x` for a length `n`
abbrev pub reaches : ℕ → ℤ → Bool
reaches n (pos k) = leb k n
reaches n (negsuc k) = true

abbrev pub is_within : ℕ → ℤ → Bool
is_within n (pos k) = leb n k
is_within n (negsuc k) = false

-- `n - x`, and 0 where that is negative
abbrev pub excess_over : ℕ → ℤ → ℕ
excess_over n (pos k) = n - k
excess_over n (negsuc k) = n + suc k

-- ===== src/Pool/Allows.antt =====
-- What a limit or a size of pool.go allows.
use sticky_overseer.Base.{
  ℕ, suc, ◌+◌, ◌≤◌, ◌≡◌, refl, arith, true, false, ◌&&◌, ◌||◌, not, ℤ, pos, negsuc, is_positive,
  is_within, reaches,
}

-- A limit allows a number of tasks; 0 and less mean "unlimited".
abbrev pub Allows : ℤ → ℕ → Type 0
Allows limit n = (not (is_positive limit) || is_within n limit) ≡ true

pub Allows-mono : (limit : ℤ) (m n : ℕ) → m ≤ n → Allows limit n → Allows limit m
Allows-mono (pos k) m n h a = ground arith
Allows-mono (negsuc k) m n h a = refl

-- Where the test of `hasCapacity` fails there is room for one more.
pub Allows-suc :
    (limit : ℤ) (n : ℕ) → (is_positive limit && reaches n limit) ≡ false → Allows limit (n + 1)
Allows-suc (pos k) n h = ground arith
Allows-suc (negsuc k) n h = refl

pub Allows-zero : (limit : ℤ) → Allows limit 0
Allows-zero (pos k) = ground arith
Allows-zero (negsuc k) = refl

pub not-Allows : (limit n : ℕ) → n ≡ suc (suc limit) → ¬ Allows (pos (suc limit)) n
not-Allows limit n e a = ground arith

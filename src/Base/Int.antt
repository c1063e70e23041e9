-- ===== src/Base/Int.antt =====
-- Signed integers over the native numbers, for *big.Int, int and int64.
use Prim.Native.Nat.{ℕ, zero, suc, ◌*◌, ◌/◌}

-- `negsuc n` is -(n + 1).
pub data ℤ : Type 0 where
  pos : ℕ → ℤ
  negsuc : ℕ → ℤ

-- The integer -n.
abbrev pub neg : ℕ → ℤ
neg zero = pos 0
neg (suc m) = negsuc m

-- `Mul` by a natural number.
unfoldable pub mul_ℕ : ℤ → ℕ → ℤ
mul_ℕ (pos a) k = pos (a * k)
mul_ℕ (negsuc a) k = neg (suc a * k)

-- `Quo` by a positive natural number: division that truncates towards zero.
unfoldable pub quo_ℕ : ℤ → ℕ → ℤ
quo_ℕ (pos a) k = pos (a / k)
quo_ℕ (negsuc a) k = neg (suc a / k)

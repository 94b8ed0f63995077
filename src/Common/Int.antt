-- ===== src/Common/Int.antt =====
-- Signed integers, as C's `int` and `intptr_t` once they are read as numbers.
use Prim.Native.Nat.{ℕ, zero, suc}
use mathlib.Core.Bool.{Bool, true, false}

-- `negsuc n` is -(n + 1).
pub data ℤ : Type 0 where
  pos : ℕ → ℤ
  negsuc : ℕ → ℤ

-- The sign of the answer of a C comparison function.
pub data Sign : Type 0 where
  neg nil plus : Sign

abbrev pub sign : ℤ → Sign
sign (pos zero) = nil
sign (pos (suc n)) = plus
sign (negsuc n) = neg

abbrev pub opposite : Sign → Sign
opposite neg = plus
opposite nil = nil
opposite plus = neg

-- `x < 0` and `x > 0`
abbrev pub is_neg : ℤ → Bool
is_neg (pos n) = false
is_neg (negsuc n) = true

abbrev pub is_plus : ℤ → Bool
is_plus (pos zero) = false
is_plus (pos (suc n)) = true
is_plus (negsuc n) = false

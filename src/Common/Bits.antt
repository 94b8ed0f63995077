-- ===== src/Common/Bits.antt =====
-- `&` and `^` of C's unsigned words: bounds, and the laws by which three `^=` swap two words.
use Prim.Native.Nat.{
  ℕ, zero, suc, ◌+◌, ◌*◌, ◌/◌, ◌%◌, ◌^◌, ◌≤◌, ◌<◌, min, bit_and, bit_xor, digits, bit_and-bitwise,
  bit_xor-bitwise, differ,
}
use mathlib.Core.Path.{◌≡◌, refl}
use native.Mathlib.Nat.{pow-suc}
use native.Mathlib.Omega.{arith}

-- the recursions that the native operations stand for
abbrev xor_digits : ℕ → ℕ → ℕ → ℕ
xor_digits n a b = digits (λ y. y) differ n a b

abbrev and_low : ℕ → ℕ → ℕ → ℕ
and_low n a b = digits (λ y. 0) min n a b

differ_bits : (x y : ℕ) → x < 2 → y < 2 → differ x y ≡ (x + y) % 2
differ_bits zero y p q = omega arith
differ_bits (suc zero) zero p q = refl
differ_bits (suc zero) (suc y) p q = omega arith
differ_bits (suc (suc x)) y p q = absurd (omega arith)

differ_digits : (a b : ℕ) → differ (a % 2) (b % 2) ≡ (a % 2 + b % 2) % 2
differ_digits a b = differ_bits (a % 2) (b % 2) (omega arith) (omega arith)

xor_digits-lt : (n k a b : ℕ) → a < 2 ^ k → b < 2 ^ k → xor_digits n a b < 2 ^ k
xor_digits-lt zero k a b p q = q
xor_digits-lt (suc n) k zero b p q = q
xor_digits-lt (suc n) zero (suc a) b p q = absurd (omega arith)
xor_digits-lt (suc n) (suc k) (suc a) b p q =
    let e = pow-suc 2 k in
    omega (
      arith,
      differ_digits (suc a) b,
      xor_digits-lt n k (suc a / 2) (b / 2) (omega arith) (omega arith),
    )

xor_digits_zero : (n a : ℕ) → a ≤ n → xor_digits n a 0 ≡ a
xor_digits_zero zero a h = omega arith
xor_digits_zero (suc n) zero h = refl
xor_digits_zero (suc n) (suc a) h =
    omega (arith, differ_digits (suc a) 0, xor_digits_zero n (suc a / 2) (omega arith))

xor_digits_comm : (n m a b : ℕ) → a ≤ n → b ≤ m → xor_digits n a b ≡ xor_digits m b a
xor_digits_comm (suc n) (suc m) (suc a) (suc b) p q = omega (
  arith,
  differ_digits (suc a) (suc b),
  differ_digits (suc b) (suc a),
  xor_digits_comm n m (suc a / 2) (suc b / 2) (omega arith) (omega arith),
)
xor_digits_comm zero m zero b p q = omega (arith, xor_digits_zero m b q)
xor_digits_comm zero m (suc a) b p q = absurd (omega arith)
xor_digits_comm (suc n) m zero b p q = omega (arith, xor_digits_zero m b q)
xor_digits_comm (suc n) zero (suc a) zero p q = xor_digits_zero (suc n) (suc a) p
xor_digits_comm (suc n) zero (suc a) (suc b) p q = absurd (omega arith)
xor_digits_comm (suc n) (suc m) (suc a) zero p q = xor_digits_zero (suc n) (suc a) p

xor_digits_twice : (n a b : ℕ) → a ≤ n → xor_digits n a (xor_digits n a b) ≡ b
xor_digits_twice zero a b p = refl
xor_digits_twice (suc n) zero b p = refl
xor_digits_twice (suc n) (suc a) b p =
    let x = xor_digits n (suc a / 2) (b / 2) in
    let d = differ (suc a % 2) (b % 2) in
    let bit : d ≡ (suc a % 2 + b % 2) % 2 = differ_digits (suc a) b in
    let high : (x * 2 + d) / 2 ≡ x = omega arith in
    let low : (x * 2 + d) % 2 ≡ d = omega arith in
    rw (high, low)
      (omega (
        arith,
        differ_bits (suc a % 2) d (omega arith) (omega arith),
        xor_digits_twice n (suc a / 2) (b / 2) (omega arith),
      ))

and_low-le : (n a b : ℕ) → and_low n a b ≤ b
and_low-le zero a b = omega arith
and_low-le (suc n) zero b = omega arith
and_low-le (suc n) (suc a) b = omega (arith, and_low-le n (suc a / 2) (b / 2))

pub bit_xor-lt : (k a b : ℕ) → a < 2 ^ k → b < 2 ^ k → bit_xor a b < 2 ^ k
bit_xor-lt k a b p q = rw (bit_xor-bitwise a b) (xor_digits-lt a k a b p q)

pub bit_and-le : (a b : ℕ) → bit_and a b ≤ b
bit_and-le a b = rw (bit_and-bitwise a b) (and_low-le a a b)

pub bit_xor_comm : (a b : ℕ) → bit_xor a b ≡ bit_xor b a
bit_xor_comm a b =
    rw (bit_xor-bitwise a b, bit_xor-bitwise b a)
      (xor_digits_comm a b a b (omega arith) (omega arith))

pub bit_xor_twice : (a b : ℕ) → bit_xor a (bit_xor a b) ≡ b
bit_xor_twice a b =
    rw (bit_xor-bitwise a b, bit_xor-bitwise a (xor_digits a a b))
      (xor_digits_twice a a b (omega arith))

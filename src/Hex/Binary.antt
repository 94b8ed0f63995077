-- ===== src/Hex/Binary.antt =====
-- The binary digits that a_debug_u64_to_str writes.
use alib4c.Common.{
  ℕ, zero, suc, ◌+◌, ◌*◌, ◌/◌, ◌%◌, ◌^◌, ◌<◌, ◌≡◌, ◌≢◌, refl, sym, ◌∙◌, ap, List, [], ◌∷◌, arith,
  length, ◌==◌, if◌then◌else◌, Bool-cases, inl, inr,
}
use native.Mathlib.Nat.{pow-suc, mul_assoc}
use alib4c.Hex.{u64_loop, a_debug_u64_to_str}

-- the number that a text of binary digits stands for, behind digits that stood for `acc`
abbrev pub binary_value : ℕ → List ℕ → ℕ
binary_value acc [] = acc
binary_value acc (c ∷ s) = binary_value (acc * 2 + (if c == b'0' then 0 else 1)) s

-- what is left of the number after `k` rounds
abbrev shifted : ℕ → ℕ → ℕ
shifted zero num = num
shifted (suc k) num = shifted k (num * 2 % 2 ^ 64)

shifted-lt : (k num : ℕ) → num < 2 ^ 64 → shifted k num < 2 ^ 64
shifted-lt zero num h = h
shifted-lt (suc k) num h = shifted-lt k (num * 2 % 2 ^ 64) (omega arith)

doubled : (k n : ℕ) → 2 ^ k * (2 * n) ≡ 2 ^ suc k * n
doubled k n = sym (mul_assoc (2 ^ k) 2 n) ∙ ap (λ p. p * n) (omega (arith, pow-suc 2 k))

u64_loop-value :
    (k acc num : ℕ)
    → num < 2 ^ 64
    → binary_value acc (u64_loop k num) * 2 ^ 64 + shifted k num ≡ 2 ^ k * (acc * 2 ^ 64 + num)
unfolding u64_loop
u64_loop-value zero acc num h = omega arith
u64_loop-value (suc k) acc num h = elim (Bool-cases (num / 2 ^ 63 % 2 == 0)) [
  | inl e ↦
      let ih = u64_loop-value k (acc * 2 + 0) (num * 2 % 2 ^ 64) (omega arith) in
      let bit : num / 2 ^ 63 % 2 ≡ 0 = ground arith in
      let s : (acc * 2 + 0) * 2 ^ 64 + num * 2 % 2 ^ 64 ≡ 2 * (acc * 2 ^ 64 + num) = omega arith in
      rw e (ih ∙ ap (λ n. 2 ^ k * n) s ∙ doubled k (acc * 2 ^ 64 + num))
  | inr e ↦
      let ih = u64_loop-value k (acc * 2 + 1) (num * 2 % 2 ^ 64) (omega arith) in
      let bit : num / 2 ^ 63 % 2 ≢ 0 = ground arith in
      let s : (acc * 2 + 1) * 2 ^ 64 + num * 2 % 2 ^ 64 ≡ 2 * (acc * 2 ^ 64 + num) = omega arith in
      rw e (ih ∙ ap (λ n. 2 ^ k * n) s ∙ doubled k (acc * 2 ^ 64 + num))
]

length-u64_loop : (k num : ℕ) → length (u64_loop k num) ≡ k
unfolding u64_loop
length-u64_loop zero num = refl
length-u64_loop (suc k) num = ap suc (length-u64_loop k (num * 2 % 2 ^ 64))

-- On a 64-bit number a_debug_u64_to_str writes 64 binary digits, which stand for the number.
pub u64_to_str_value :
    (num : ℕ)
    → num < 2 ^ 64
    → (binary_value 0 (a_debug_u64_to_str num) ≡ num) × (length (a_debug_u64_to_str num) ≡ 64)
unfolding a_debug_u64_to_str
u64_to_str_value num h =
    (omega (arith, u64_loop-value 64 0 num h, shifted-lt 64 num h), length-u64_loop 64 num)

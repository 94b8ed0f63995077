-- ===== src/Swap.antt =====
-- The macros a_swap_xor_m and a_swap_xor_ptr_m of a/util.h.in, on two words at different places.
use alib4c.Common.{ℕ, ◌≡◌, ◌∙◌, bit_xor, bit_xor_comm, bit_xor_twice}

-- `a ^= b; b ^= a; a ^= b;`
unfoldable pub swap_xor : ℕ → ℕ → ℕ × ℕ
swap_xor a b = let a₁ = bit_xor a b in let b₁ = bit_xor b a₁ in let a₂ = bit_xor a₁ b₁ in (a₂, b₁)

-- Three exclusive ors swap the two words.
pub swap_xor_lem : (a b : ℕ) → swap_xor a b ≡ (b, a)
unfolding swap_xor
swap_xor_lem a b =
    let back : bit_xor b (bit_xor a b) ≡ a = rw (bit_xor_comm a b) (bit_xor_twice b a) in
    let forth : bit_xor (bit_xor a b) a ≡ b = bit_xor_comm (bit_xor a b) a ∙ bit_xor_twice a b in
    rw (back, forth)

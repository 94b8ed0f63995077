-- ===== src/Collect/Compare.antt =====
-- The comparisons and equalities on words of a/collect.c. A word is its 64-bit pattern.
use alib4c.Common.{
  ℕ, suc, ◌+◌, ◌-◌, ◌*◌, ◌%◌, ◌^◌, ◌<◌, ◌≤◌, ◌≡◌, ◌≢◌, ℤ, pos, negsuc, true, Bool-cases, inl, inr,
  ◌==◌, ltb, if◌then◌else◌, arith, Sign, neg, nil, plus, sign,
}
use alib4c.World.{Ptr}
use alib4c.Collect.{Cmp, Eq}

-- a 32-bit pattern as an `int`
unfoldable pub to_int : ℕ → ℤ
to_int n = if ltb n (2 ^ 31) then pos n else negsuc (2 ^ 32 - 1 - n)

-- The difference of two 64-bit words, returned as an `int`.
unfoldable pub a_collect_cmp_intptr : Cmp
a_collect_cmp_intptr a b = to_int ((a + 2 ^ 64 - b) % 2 ^ 64 % 2 ^ 32)

unfoldable pub a_collect_cmp_uintptr : Cmp
a_collect_cmp_uintptr a b = to_int ((a + 2 ^ 64 - b) % 2 ^ 64 % 2 ^ 32)

unfoldable pub a_collect_eq_intptr : Eq
a_collect_eq_intptr a b = a == b

unfoldable pub a_collect_eq_uintptr : Eq
a_collect_eq_uintptr a b = a == b

-- the sign that a comparison of two numbers should have
abbrev pub order_sign : ℕ → ℕ → Sign
order_sign a b = if a == b then nil else if ltb a b then neg else plus

-- the difference of two words, cut to 32 bits
abbrev word_diff : ℕ → ℕ → ℕ
word_diff a b = (a + 2 ^ 64 - b) % 2 ^ 64 % 2 ^ 32

to_int_neg : (x : ℕ) → 2 ^ 31 ≤ x → sign (to_int x) ≡ neg
unfolding to_int
to_int_neg x h = ground arith

to_int_plus : (x : ℕ) → 0 < x → x < 2 ^ 31 → sign (to_int x) ≡ plus
unfolding to_int
to_int_plus x h g = ground arith

to_int_nil : (x : ℕ) → x ≡ 0 → sign (to_int x) ≡ nil
unfolding to_int
to_int_nil x h = ground arith

sign-to_int : (a b : ℕ) → a < 2 ^ 31 → b < 2 ^ 31 → sign (to_int (word_diff a b)) ≡ order_sign a b
sign-to_int a b p q = elim (Bool-cases (a == b)) [
  | inl e ↦ rw e (to_int_nil (word_diff a b) (let s : a ≡ b = ground arith in omega arith))
  | inr n ↦ elim (Bool-cases (ltb a b)) [
    | inl l ↦ rw (n, l) (to_int_neg (word_diff a b) (let s : a < b = ground arith in omega arith))
    | inr g ↦
        let s : b < a = ground arith in
        rw (n, g) (to_int_plus (word_diff a b) (omega arith) (omega arith))
  ]
]

-- On words below 2^31 the comparisons have the sign of the order.
pub cmp-order_sign :
    (a b : Ptr)
    → a < 2 ^ 31
    → b < 2 ^ 31
    → (sign (a_collect_cmp_intptr a b) ≡ order_sign a b)
      × (sign (a_collect_cmp_uintptr a b) ≡ order_sign a b)
unfolding a_collect_cmp_intptr a_collect_cmp_uintptr
cmp-order_sign a b p q = (sign-to_int a b p q, sign-to_int a b p q)

-- On any two words that differ by a multiple of 2^32 the comparisons answer 0, as for equal words,
-- though the equalities tell them apart.
pub cmp_collides :
    (a k : ℕ)
    → a + 2 ^ 32 * suc k < 2 ^ 64
    → (a_collect_cmp_intptr (a + 2 ^ 32 * suc k) a ≡ pos 0)
      × (a_collect_cmp_uintptr (a + 2 ^ 32 * suc k) a ≡ pos 0)
      × (a_collect_eq_intptr (a + 2 ^ 32 * suc k) a ≢ true)
      × (a_collect_eq_uintptr (a + 2 ^ 32 * suc k) a ≢ true)
unfolding a_collect_cmp_intptr a_collect_cmp_uintptr a_collect_eq_intptr a_collect_eq_uintptr to_int
cmp_collides a k small =
    let d : word_diff (a + 2 ^ 32 * suc k) a ≡ 0 = omega arith in
    (rw d, rw d, ground arith, ground arith)

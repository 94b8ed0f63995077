-- ===== src/Hash/Reduce.antt =====
-- hash_reduce of a/hash.c: the loop ends, and its result is an index of the table.
use alib4c.Common.{
  ℕ, zero, suc, ◌*◌, ◌/◌, ◌^◌, ◌≤◌, ◌<◌, ◌≡◌, refl, ◌∙◌, true, none, some, ltb, ◌==◌, Bool-cases,
  inl, inr, arith, bit_xor, bit_and, bit_and-le, bit_xor-lt,
}
use native.Mathlib.Nat.{pow-suc, one-le-pow, div-lt_iff_lt-mul}
use alib4c.World.{World, ok}
use alib4c.Hash.{mask, reduce_loop, hash_reduce, reduced}

-- the index, as a number
pub slot : ℕ → ℕ → ℕ
slot val bits = elim (hash_reduce val bits) [ none ↦ 0 | some i ↦ i ]

shift-lt : (bits m val : ℕ) → val < 2 ^ suc m → val / 2 ^ suc bits < 2 ^ m
shift-lt bits m val h =
    let pos : 1 ≤ 2 ^ bits = one-le-pow bits 2 (omega arith) in
    let a : 2 ^ suc bits ≡ 2 ^ bits * 2 = pow-suc 2 bits in
    let b : 2 ^ suc m ≡ 2 ^ m * 2 = pow-suc 2 m in (div-lt_iff_lt-mul (omega arith)).1 (grind arith)

mask-lt : (bits val : ℕ) → bit_and val (mask bits) < 2 ^ bits
mask-lt bits val = omega (arith, bit_and-le val (mask bits), one-le-pow bits 2 (omega arith))

-- With one round more than the value has bits, the loop ends, and `bits` bits hold the result.
reduce_loop_total :
    (n bits val ret : ℕ)
    → val < 2 ^ n
    → ret < 2 ^ suc bits
    → (r : ℕ) × (reduce_loop (suc n) (suc bits) val ret ≡ some r) × (r < 2 ^ suc bits)
unfolding reduce_loop
reduce_loop_total zero bits val ret v h = let z : (val == 0) ≡ true = ground arith in (ret, rw z, h)
reduce_loop_total (suc n) bits val ret v h = elim (Bool-cases (val == 0)) [
  | inl z ↦ (ret, rw z, h)
  | inr z ↦
      let (r, run, small) =
        reduce_loop_total n bits (val / 2 ^ suc bits) (bit_xor ret (bit_and val (mask (suc bits))))
          (shift-lt bits n val v)
          (bit_xor-lt (suc bits) ret (bit_and val (mask (suc bits))) h (mask-lt (suc bits) val)) in
      (r, rw z run, small)
]

slot_of_run :
    (val bits r : ℕ)
    → hash_reduce val bits ≡ some r
    → r < 2 ^ bits
    → (hash_reduce val bits ≡ some (slot val bits)) × (slot val bits < 2 ^ bits)
unfolding slot
slot_of_run val bits r e h = let s : slot val bits ≡ r = rw (e, slot) in (rw s e, rw s h)

hash_reduce-suc :
    (val bits : ℕ) → suc bits < 31 → hash_reduce val (suc bits) ≡ reduce_loop 33 (suc bits) val 0
unfolding hash_reduce
hash_reduce-suc val bits few =
    let e : ltb (suc bits) 32 ≡ true = ground (arith, few) in ground (arith, e)

hash_reduce_zero : (val : ℕ) → hash_reduce val 0 ≡ some 0
unfolding hash_reduce
hash_reduce_zero val = refl

-- For fewer than 31 bits, for which C defines the shifts, hash_reduce of a 32-bit hash returns, and its
-- result is an index of a table of that many bits.
pub hash_reduce-lt :
    (val bits : ℕ)
    → val < 2 ^ 32
    → bits < 31
    → (hash_reduce val bits ≡ some (slot val bits)) × (slot val bits < 2 ^ bits)
hash_reduce-lt val zero h few = slot_of_run val 0 0 (hash_reduce_zero val) (omega arith)
hash_reduce-lt val (suc bits) h few =
    let (r, run, small) =
      reduce_loop_total 32 bits val 0 h (one-le-pow (suc bits) 2 (omega arith)) in
    slot_of_run val (suc bits) r (hash_reduce-suc val bits few ∙ run) small

pub reduced-slot :
    (val bits : ℕ) (w : World)
    → val < 2 ^ 32
    → bits < 31
    → reduced val bits w ≡ ok (slot val bits) w
unfolding reduced
reduced-slot val bits w h few = rw ((hash_reduce-lt val bits h few).0, reduced)

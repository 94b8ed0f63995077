-- ===== src/Hash/Digest.antt =====
-- The hash functions of a/hash.c. A key is the list of its bytes, or a 64-bit word.
use alib4c.Common.{ℕ, zero, suc, ◌+◌, ◌*◌, ◌/◌, ◌%◌, ◌^◌, ◌<◌, List, [], ◌∷◌, arith, bit_xor}
use alib4c.World.{Ptr}
use alib4c.Collect.{IsHashed}
use alib4c.Collect.Compare.{a_collect_eq_uintptr}

-- `a + b` and `h << k` on a uint32_t
abbrev pub add32 : ℕ → ℕ → ℕ
add32 a b = (a + b) % 2 ^ 32

abbrev pub shl32 : ℕ → ℕ → ℕ
shl32 h k = (h * 2 ^ k) % 2 ^ 32

-- one round of the loop
unfoldable pub joat_round : ℕ → ℕ → ℕ
joat_round hash byte =
    let a = add32 hash byte in let b = add32 a (shl32 a 10) in bit_xor b (b / 2 ^ 6)

unfoldable pub joat_loop : ℕ → List ℕ → ℕ
joat_loop hash [] = hash
joat_loop hash (byte ∷ key) = joat_loop (joat_round hash byte) key

unfoldable pub a_hash_joat : List ℕ → ℕ
a_hash_joat key =
    let hash = joat_loop 0 key in
    let a = add32 hash (shl32 hash 3) in let b = bit_xor a (a / 2 ^ 11) in add32 b (shl32 b 15)

-- the bytes of a word in memory, the lowest first
unfoldable pub bytes : ℕ → ℕ → List ℕ
bytes zero val = []
bytes (suc n) val = (val % 256) ∷ bytes n (val / 256)

unfoldable pub a_hash_joat_ptrval : Ptr → ℕ
a_hash_joat_ptrval arg = a_hash_joat (bytes 8 arg)

-- `(uintptr_t)key` as an `unsigned int`
unfoldable pub a_hash_ptrval : Ptr → ℕ
a_hash_ptrval key = key % 2 ^ 32

-- A Jenkins hash is an `unsigned int`.
a_hash_joat-lt : (key : List ℕ) → a_hash_joat key < 2 ^ 32
unfolding a_hash_joat
a_hash_joat-lt key = omega arith

-- The hash of a word fits the equality of words: both stock hash functions give 32-bit hashes, the
-- same for equal words, so a table may use either of them with a_collect_eq_uintptr.
pub ptrval-IsHashed :
    IsHashed a_collect_eq_uintptr a_hash_ptrval × IsHashed a_collect_eq_uintptr a_hash_joat_ptrval
unfolding a_hash_ptrval a_hash_joat_ptrval a_collect_eq_uintptr
ptrval-IsHashed = (
  record {
    eq_refl = λ a. ground arith;
    eq_symm = λ a b. ground arith;
    eq_trans = λ a b c p q. ground arith;
    hash-eq = λ a b p. ground arith;
    hash_range = λ a. omega arith;
  },
  record {
    eq_refl = λ a. ground arith;
    eq_symm = λ a b. ground arith;
    eq_trans = λ a b c p q. ground arith;
    hash-eq = λ a b p. ground arith;
    hash_range = λ a. a_hash_joat-lt (bytes 8 a);
  },
)

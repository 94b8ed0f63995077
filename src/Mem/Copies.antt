-- ===== src/Mem/Copies.antt =====
-- The functions of a/mem.c that copy or clear a block: a_memdup, a_strdup and a_malloc0.
use alib4c.Common.{
  ℕ, zero, suc, ◌+◌, ◌%◌, ◌^◌, ◌<◌, ◌≤◌, ◌≡◌, refl, ap, false, Option, none, some, List, [], ◌∷◌,
  ◌==◌, if◌then◌else◌, length, length-append, replicate, take, take-length, Bool-cases, inl, inr,
  arith,
}
use mathlib.Core.List.{map, append-nil}
use alib4c.World.{World, ok, malloc, head_or_false, perror, Run}
use alib4c.Error.Live.{IsLive, pushed, error_ret-pushed}
use alib4c.Mem.{Block, fresh, memcpy, a_zero_mem, c_string, a_malloc, a_memdup, a_strdup, a_malloc0}

-- the world after an allocation of a positive size, and its result
abbrev pub allocated : Block → World → Run (Option Block)
allocated b w =
    if head_or_false w.mallocs
    then ok (some b) (malloc w).1
    else ok none (pushed perror w.errno (malloc w).1)

memcpy-take : (n : ℕ) (b : Block) → n ≤ length b → memcpy n b (fresh n) ≡ take n b
unfolding memcpy
memcpy-take zero b h = refl
memcpy-take (suc n) [] h = absurd (omega arith)
memcpy-take (suc n) (c ∷ b) h = ap (λ r. c ∷ r) (memcpy-take n b (omega arith))

zero_mem-fresh : (n : ℕ) → a_zero_mem n (fresh n) ≡ replicate n (some 0)
unfolding a_zero_mem
zero_mem-fresh zero = refl
zero_mem-fresh (suc n) = ap (λ r. some 0 ∷ r) (zero_mem-fresh n)

-- On a live error stack, duplicating `len` bytes, at least one, of a block that has them gives a
-- block of its first `len` bytes; when malloc fails it gives NULL and reports errno.
pub memdup-take :
    (b : Block) (len : ℕ) (w : World)
    → 0 < len
    → len ≤ length b
    → IsLive w.errors
    → a_memdup (some b) len w ≡ allocated (take len b) w
unfolding a_memdup a_malloc
memdup-take b len w pos fits live =
    let p : (len == 0) ≡ false = ground arith in
    elim (Bool-cases (head_or_false w.mallocs)) [
      | inl e ↦ rw (p, e, memcpy-take len b fits)
      | inr e ↦ rw (p, e, error_ret-pushed {A = Option Block} none (malloc w).1 live)
    ]

length-map-some : (s : List ℕ) → length (map some s) ≡ length s
length-map-some [] = refl
length-map-some (c ∷ s) = ap suc (length-map-some s)

take_all : (b : Block) → take (length b) b ≡ b
take_all b = rw append-nil at (take-length b [])

-- On a live error stack, a string shorter than 2^32 - 1 bytes is duplicated whole, with its
-- terminator; when malloc fails the result is NULL and errno is reported.
pub strdup-c_string :
    (s : List ℕ) (w : World)
    → length s + 1 < 2 ^ 32
    → IsLive w.errors
    → a_strdup s w ≡ allocated (c_string s) w
unfolding a_strdup a_malloc
strdup-c_string s w short live =
    let n : (length s + 1) % 2 ^ 32 ≡ length (c_string s) =
      omega (arith, length-append (map some s) (some 0 ∷ []), length-map-some s) in
    let p : (length (c_string s) == 0) ≡ false = ground arith in
    rw n (elim (Bool-cases (head_or_false w.mallocs)) [
      | inl e ↦ rw (
        p,
        e,
        memcpy-take (length (c_string s)) (c_string s) (omega arith),
        take_all (c_string s),
      )
      | inr e ↦ rw (p, e, error_ret-pushed {A = Option Block} none (malloc w).1 live)
    ])

-- On a live error stack, a block of a_malloc0 of at least one byte is all zero bytes; when malloc
-- fails the result is NULL and errno is reported.
pub malloc0-zeros :
    (n : ℕ) (w : World)
    → 0 < n
    → IsLive w.errors
    → a_malloc0 n w ≡ allocated (replicate n (some 0)) w
unfolding a_malloc0 a_malloc
malloc0-zeros n w pos live =
    let p : (n == 0) ≡ false = ground arith in
    elim (Bool-cases (head_or_false w.mallocs)) [
      | inl e ↦ rw (p, e, zero_mem-fresh n)
      | inr e ↦ rw (p, e, error_ret-pushed {A = Option Block} none (malloc w).1 live)
    ]

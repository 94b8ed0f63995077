-- ===== src/Mem/Nulls.antt =====
-- The blocks of NULL pointers: a_mallocNULL and a_xmallocNULL of a/mem.c.
use alib4c.Common.{
  ℕ, zero, suc, ◌+◌, ◌*◌, ◌/◌, ◌%◌, ◌^◌, ◌<◌, ◌≡◌, refl, ap, true, false, Option, none, some, [],
  ◌∷◌, ◌++◌, ◌==◌, if◌then◌else◌, replicate, set, length, length-append, Bool-cases, inl, inr,
  arith,
}
use mathlib.Core.List.{append_assoc, append-nil}
use native.Mathlib.Nat.{zero-add, suc-add}
use alib4c.World.{World, null, ok, malloc, head_or_false, perror}
use alib4c.Error.Live.{IsLive, pushed, error_ret-pushed}
use alib4c.Mem.{
  Block, word_size, fresh, null_loop, a_malloc, a_malloc_null, a_xmalloc, a_xmalloc_null,
}

abbrev pub nulls : ℕ → Block
nulls n = replicate n (some null)

set-append :
    (p : Block) (c : Option ℕ) (post : Block) (v : Option ℕ)
    → set (p ++ c ∷ post) (length p) v ≡ (p ++ v ∷ []) ++ post
set-append [] c post v = refl
set-append (x ∷ p) c post v = ap (λ r. x ∷ r) (set-append p c post v)

-- `k` rounds from the cell behind `p` write NULL in the next `k` cells and nowhere else.
null_loop-nulls :
    (k : ℕ) (p post : Block)
    → null_loop k (length p) (p ++ (fresh k ++ post)) ≡ p ++ (nulls k ++ post)
unfolding null_loop
null_loop-nulls zero p post = refl
null_loop-nulls (suc k) p post =
    let e : length (p ++ some null ∷ []) ≡ length p + 1 = length-append p (some null ∷ []) in
    rw
      (
        set-append p none (fresh k ++ post) (some null),
        ← e,
        null_loop-nulls k (p ++ some null ∷ []) post,
      )
      (append_assoc p (some null ∷ []) (nulls k ++ post))

null_loop-all : (k : ℕ) → null_loop k 0 (fresh k) ≡ nulls k
null_loop-all k = simp append-nil at (null_loop-nulls k [] [])

fresh-append : (m n : ℕ) → fresh (m + n) ≡ fresh m ++ fresh n
fresh-append zero n = rw zero-add
fresh-append (suc m) n = rw suc-add (ap (λ r. none ∷ r) (fresh-append m n))

-- On a live error stack a_mallocNULL of a positive number `n` of words returns. With malloc at hand
-- the result is `n` NULL pointers and nothing is reported; else it is NULL, and errno is reported.
pub malloc_null-nulls :
    (n : ℕ) (w : World)
    → 0 < n
    → IsLive w.errors
    → a_malloc_null (word_size * n) w ≡ (
        if head_or_false w.mallocs
        then ok (some (nulls n)) (malloc w).1
        else ok none (pushed perror w.errno (malloc w).1))
unfolding a_malloc_null a_malloc
malloc_null-nulls n w pos live =
    let a : ((word_size * n) % word_size == 0) ≡ true = ground arith in
    let b : (word_size * n == 0) ≡ false = ground arith in
    let c : (word_size * n) / word_size ≡ n = omega arith in
    elim (Bool-cases (head_or_false w.mallocs)) [
      | inl e ↦ rw (a, b, e, c, null_loop-all n)
      | inr e ↦ rw (a, b, e, error_ret-pushed {A = Option Block} none (malloc w).1 live)
    ]

-- Where malloc answers, a_xmallocNULL of 256 * n bytes writes NULL only in the first `n` of the
-- 32 * n words: the other 31 * n are left as malloc gave them.
pub xmalloc_null-partial :
    (n : ℕ) (w : World)
    → head_or_false w.mallocs ≡ true
    → a_xmalloc_null (256 * n) w ≡ ok (some (nulls n ++ fresh (31 * n))) (malloc w).1
unfolding a_xmalloc_null a_xmalloc
xmalloc_null-partial n w got =
    let a : ((256 * n) % 2 ^ word_size == 0) ≡ true = ground arith in
    let b : (256 * n) / word_size ≡ n + 31 * n = omega arith in
    let c : (256 * n) / 2 ^ word_size ≡ n = omega arith in
    rw (a, got, c, b, fresh-append n (31 * n), null_loop-nulls n [] (fresh (31 * n)))

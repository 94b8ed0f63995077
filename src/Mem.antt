-- ===== src/Mem.antt =====
-- The allocation functions of a/mem.c. A block is the list of its cells: bytes, or words where
-- the code goes through a `void **`. `none` is a cell that was never written.
pub mod Copies
pub mod Nulls
pub mod Realloc
use alib4c.Common.{
  ℕ, zero, suc, ◌+◌, ◌/◌, ◌%◌, ◌^◌, Bool, true, false, Option, none, some, List, [], ◌∷◌, ◌++◌,
  ◌==◌, if◌then◌else◌, replicate, take, set, length,
}
use mathlib.Core.Option
use mathlib.Core.List.{map}
use alib4c.World.{
  Ptr, null, M, Run, ok, fault, died, ◌>>=◌, ◌>>◌, pure, malloc, emit, block_freed, alib, perror,
}
use alib4c.Error.{a_error_ret, a_error_code_ret, invalid_op}

abbrev pub Block : Type 0
Block = List (Option ℕ)

-- sizeof(void *)
abbrev pub word_size : ℕ
word_size = 8

-- what malloc hands out
abbrev pub fresh : ℕ → Block
fresh n = replicate n none

-- what realloc keeps of a block
unfoldable pub resized : ℕ → Block → Block
resized zero b = []
resized (suc n) [] = none ∷ resized n []
resized (suc n) (c ∷ b) = c ∷ resized n b

-- `none` is NULL.
unfoldable pub a_malloc : ℕ → M (Option Block)
a_malloc size w =
    if size == 0
    then ok none w
    else (let (got, v) = malloc w in
        if got then ok (some (fresh size)) v else a_error_ret perror none v)

-- `if(in) free(in);` for a pointer that is NULL, or live, or (with `live` false) freed already
unfoldable pub a_free : Option Block → Bool → M (Unit {0})
a_free none live w = ok tt w
a_free (some b) true w = ok tt (emit block_freed w)
a_free (some b) false w = fault

-- The result, and whether the block that came in is still allocated under its old address.
unfoldable pub a_realloc : Option Block → ℕ → M (Option Block × Bool)
unfolding a_free
a_realloc b size w =
    if size == 0
    then (a_free b true >> pure (none, false)) w
    else (let (got, v) = malloc w in
        if got
        then ok (some (resized size (elim b [ none ↦ [] | some cells ↦ cells ])), false) v
        else a_error_ret perror (none, true) v)

freed_unless : Option Block → Option Block → Bool → M (Option Block)
freed_unless b none live = a_free b live >> pure none
freed_unless b (some out) live = pure (some out)

unfoldable pub a_realloc_free : Option Block → ℕ → M (Option Block)
unfolding freed_unless
a_realloc_free b size w = (a_realloc b size >>= λ (out, live). freed_unless b out live) w

-- memcpy of the first `n` cells over the start of `out`
unfoldable pub memcpy : ℕ → Block → Block → Block
memcpy zero src out = out
memcpy (suc n) (c ∷ src) (d ∷ out) = c ∷ memcpy n src out
memcpy (suc n) _ out = out

unfoldable pub a_memdup : Option Block → ℕ → M (Option Block)
a_memdup none len w = ok none w
a_memdup (some b) len w = (a_malloc len >>= λ out. pure (Option.map (memcpy len b) out)) w

-- A C string is the list of its bytes before the terminator; `len` is an `unsigned int`.
abbrev pub c_string : List ℕ → Block
c_string s = map some s ++ some 0 ∷ []

unfoldable pub a_strdup : List ℕ → M (Option Block)
a_strdup s w =
    (let len = (length s + 1) % 2 ^ 32 in
        a_malloc len >>= λ out. pure (Option.map (memcpy len (c_string s)) out))
      w

unfoldable pub a_zero_mem : ℕ → Block → Block
a_zero_mem zero b = b
a_zero_mem (suc n) [] = []
a_zero_mem (suc n) (c ∷ b) = some 0 ∷ a_zero_mem n b

unfoldable pub a_malloc0 : ℕ → M (Option Block)
a_malloc0 size w = (a_malloc size >>= λ ret. pure (Option.map (a_zero_mem size) ret)) w

-- `for(c = ...; c < n; c++) ptr_array[c] = NULL;`, `k` rounds before the end
unfoldable pub null_loop : (k c : ℕ) → Block → Block
null_loop zero c cells = cells
null_loop (suc k) c cells = null_loop k (c + 1) (set cells c (some null))

-- The block is read as the words that fit in it.
unfoldable pub a_malloc_null : ℕ → M (Option Block)
a_malloc_null size w =
    if size % word_size == 0
    then (a_malloc size >>= λ ret.
          pure (Option.map (λ b. null_loop (size / word_size) 0 (fresh (size / word_size))) ret))
        w
    else a_error_code_ret alib invalid_op none w

-- malloc(0) may return NULL too; `a_die` ends the process.
unfoldable pub a_xmalloc : ℕ → M Block
a_xmalloc size w = let (got, v) = malloc w in if got then ok (fresh size) v else died

-- The mask is `~(~0 << 8)` and the count `size >> 8`, both by sizeof(void *) as a shift.
unfoldable pub a_xmalloc_null : ℕ → M (Option Block)
a_xmalloc_null size w =
    if size % 2 ^ word_size == 0
    then (a_xmalloc size >>= λ b.
          pure (some (null_loop (size / 2 ^ word_size) 0 (fresh (size / word_size)))))
        w
    else a_error_code_ret alib invalid_op none w

unfoldable pub a_xmalloc0 : ℕ → M Block
a_xmalloc0 size w = (a_xmalloc size >>= λ b. pure (a_zero_mem size b)) w

-- with `size` 0 the result is NULL
unfoldable pub a_xrealloc : Option Block → ℕ → M (Option Block)
a_xrealloc b size w = if size == 0 then (a_free b true >> pure none) w else (elim b [
  | none ↦ (a_xmalloc size >>= λ out. pure (some out)) w
  | some cells ↦ (let (got, v) = malloc w in if got then ok (some (resized size cells)) v else died)
])

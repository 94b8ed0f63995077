-- ===== src/Mem/Realloc.antt =====
-- a_realloc and a_realloc_free of a/mem.c.
use alib4c.Common.{
  ℕ, zero, suc, ◌<◌, ◌≡◌, refl, ap, Bool, true, false, Option, none, some, [], ◌∷◌, ◌==◌,
  if◌then◌else◌, length, Bool-cases, inl, inr, arith, get_elem?,
}
use alib4c.World.{World, Run, ok, fault, malloc, head_or_false, perror, emit, block_freed}
use alib4c.Error.Live.{IsLive, pushed, error_ret-pushed}
use alib4c.Mem.{Block, resized, a_realloc, a_realloc_free}

abbrev pub cells_of : Option Block → Block
cells_of none = []
cells_of (some b) = b

length-resized : (n : ℕ) (b : Block) → length (resized n b) ≡ n
unfolding resized
length-resized zero b = refl
length-resized (suc n) [] = ap suc (length-resized n [])
length-resized (suc n) (c ∷ b) = ap suc (length-resized n b)

get-resized :
    (n : ℕ) (b : Block) (i : ℕ) → i < n → i < length b → get_elem? (resized n b) i ≡ get_elem? b i
unfolding resized
get-resized zero b i h g = absurd (omega arith)
get-resized (suc n) [] i h g = absurd (omega arith)
get-resized (suc n) (c ∷ b) zero h g = refl
get-resized (suc n) (c ∷ b) (suc i) h g = get-resized n b i (omega arith) (omega arith)

abbrev pub release : Option Block → World → World
release none w = w
release (some b) w = emit block_freed w

-- the run of a_realloc_free at a positive size
abbrev pub reallocated : Option Block → ℕ → World → Run (Option Block)
reallocated b size w =
    if head_or_false w.mallocs
    then ok (some (resized size (cells_of b))) (malloc w).1
    else ok none (release b (pushed perror w.errno (malloc w).1))

realloc_free-reallocated :
    (b : Option Block) (size : ℕ) (w : World)
    → 0 < size
    → IsLive w.errors
    → a_realloc_free b size w ≡ reallocated b size w
unfolding a_realloc_free a_realloc
realloc_free-reallocated none size w pos live =
    let p : (size == 0) ≡ false = ground arith in
    elim (Bool-cases (head_or_false w.mallocs)) [
      | inl e ↦ rw (p, e)
      | inr e ↦ rw (p, e, error_ret-pushed {A = Option Block × Bool} (none, true) (malloc w).1 live)
    ]
realloc_free-reallocated (some b) size w pos live =
    let p : (size == 0) ≡ false = ground arith in
    elim (Bool-cases (head_or_false w.mallocs)) [
      | inl e ↦ rw (p, e)
      | inr e ↦ rw (p, e, error_ret-pushed {A = Option Block × Bool} (none, true) (malloc w).1 live)
    ]

-- For a size other than 0 and a live error stack, a_realloc_free returns. With malloc at hand the
-- result has that size and agrees with the old block on the cells that both have; when malloc
-- fails, it returns NULL, reports errno, and frees the old block once, if there was one.
pub realloc_free_lem :
    (b : Option Block) (size : ℕ) (w : World)
    → 0 < size
    → IsLive w.errors
    → (a_realloc_free b size w ≡ reallocated b size w)
      × (length (resized size (cells_of b)) ≡ size)
      × ((i : ℕ)
          → i < size
          → i < length (cells_of b)
          → get_elem? (resized size (cells_of b)) i ≡ get_elem? (cells_of b) i)
realloc_free_lem b size w pos live = (
  realloc_free-reallocated b size w pos live,
  length-resized size (cells_of b),
  get-resized size (cells_of b),
)

-- With size 0, a_realloc has freed the block when a_realloc_free frees it again, since NULL is
-- taken for a failure: any block other than NULL is freed twice.
pub realloc_free_twice : (b : Block) (w : World) → a_realloc_free (some b) 0 w ≡ fault
unfolding a_realloc_free a_realloc
realloc_free_twice b w = refl

-- ===== src/Pot.antt =====
-- The priority queue of a/pot.c, a heap in an array whose cells are counted in words. `junk` is what
-- a cell that was never written reads as.
pub mod Cells
pub mod Children
pub mod Faults
pub mod Inserting
pub mod Removing
pub mod Resizing
pub mod Rising
pub mod Sinking
use alib4c.Common.{
  ℕ, zero, suc, ◌+◌, ◌-◌, ◌*◌, ◌/◌, ◌%◌, ◌^◌, Bool, true, false, ◌&&◌, ◌||◌, not, Option, none,
  some, List, ◌==◌, ltb, leb, if◌then◌else◌, get_elem?, set, length,
}
use alib4c.World.{World, M, ok, fault, ◌>>=◌, ◌>>◌, pure, alib}
use alib4c.Error.{a_error_code_ret, invalid_op}
use alib4c.Mem.{Block, a_free, a_realloc_free}
use alib4c.Swap.{swap_xor}

-- `a_pot_before_t`, on the 64-bit patterns of two words
abbrev pub Before : Type 0
Before = ℕ → ℕ → Bool

pub record Pot : Type 0 where
  pub num : ℕ
  pub alloced : ℕ
  pub before : Before
  pub array : Option Block

-- a pattern as a signed word, moved up by 2^63
abbrev pub signed : ℕ → ℕ
signed a = (a + 2 ^ 63) % 2 ^ 64

unfoldable pub a_pot_lt_intptr : Before
a_pot_lt_intptr a b = ltb (signed a) (signed b)

unfoldable pub a_pot_gt_intptr : Before
a_pot_gt_intptr a b = ltb (signed b) (signed a)

-- `while(size_to_realloc < new_size)`; `none` means that the fuel ran out
unfoldable pub double_loop : ℕ → (size new_size : ℕ) → Option ℕ
double_loop zero size new_size = none
double_loop (suc n) size new_size =
    let next = double_loop n (size * 2 % 2 ^ 64) new_size in
    if ltb size new_size then next else some size

-- A positive size has passed every `new_size` up to 2^63 after 63 rounds.
unfoldable pub size_to_realloc : Pot → ℕ → Option ℕ
size_to_realloc p new_size =
    double_loop 65 (if p.alloced == 0 then 1 else p.alloced)
      (if ltb new_size p.num then p.num else new_size)

-- the assignments behind the call of a_realloc_free
unfoldable pub reallocated_pot : Pot → ℕ → Option Block → Bool × Pot
reallocated_pot p size none = (false, record p { array = none; alloced = 0 })
reallocated_pot p size (some b) = (true, record p { array = some b; alloced = size })

-- `sizeof(intptr_t) * (size_to_realloc+1)` of a size_t, in cells of 8 bytes
unfoldable pub cells_asked : ℕ → ℕ
cells_asked size = 8 * (size + 1) % 2 ^ 64 / 8

-- Whether the result is `pot` and not NULL, and the pot.
unfoldable pub a_pot_resize : Pot → ℕ → M (Bool × Pot)
a_pot_resize p new_size w =
    if ltb new_size p.alloced then ok (true, p) w else (elim (size_to_realloc p new_size) [
      | none ↦ fault
      | some size ↦
          (a_realloc_free p.array (cells_asked size) >>= λ out. pure (reallocated_pot p size out)) w
    ])

-- `none` for `before` is NULL.
unfoldable pub a_pot_init : Option Before → ℕ → M (Option Pot)
a_pot_init none size w = a_error_code_ret alib invalid_op none w
a_pot_init (some before) size w =
    (a_pot_resize (record { num = 0; alloced = 0; before = before; array = none }) size >>= λ r.
    pure (some r.1))
      w

unfoldable pub a_pot_cleanup : Pot → M Pot
a_pot_cleanup p w =
    ((if p.alloced == 0 then pure tt else a_free p.array true)
        >> pure (record p { alloced = 0; array = none }))
      w

-- `pot->array[i]`
unfoldable pub read_cell : ℕ → Option Block → ℕ → M ℕ
read_cell junk none i w = fault
read_cell junk (some b) i w = elim (get_elem? b i) [
  | none ↦ fault
  | some c ↦ ok (elim c [ none ↦ junk | some v ↦ v ]) w
]

-- `pot->array[i] = v`
unfoldable pub write_cell : Pot → ℕ → ℕ → M Pot
write_cell p i v w = elim p.array [
  | none ↦ fault
  | some b ↦ if ltb i (length b) then ok (record p { array = some (set b i (some v)) }) w else fault
]

-- a_swap_xor_m on two cells that were read as `a` and `b`
unfoldable pub swap_cells : Pot → (i j a b : ℕ) → M Pot
swap_cells p i j a b w =
    (let (a', b') = swap_xor a b in write_cell p i a' >>= λ p'. write_cell p' j b') w

-- The loop halves `pos`: it ends within as many rounds as `pos` counts.
unfoldable pub bubble_up_loop : (junk fuel pos : ℕ) → Pot → M Pot
bubble_up_loop junk n zero p w = ok p w
bubble_up_loop junk zero (suc k) p w = fault
bubble_up_loop junk (suc n) (suc k) p w =
    (do
      a ← read_cell junk p.array (suc k)
      b ← read_cell junk p.array (suc k / 2)
      if p.before a b
          then swap_cells p (suc k) (suc k / 2) a b >>= bubble_up_loop junk n (suc k / 2)
          else pure p)
      w

unfoldable pub bubble_up : ℕ → Pot → M Pot
bubble_up junk p = bubble_up_loop junk p.num p.num p

-- the choice of the child that goes first
unfoldable pub min_child : ℕ → Pot → ℕ → M ℕ
min_child junk p child w =
    if leb (child + 1) p.num
    then (do
      r ← read_cell junk p.array (child + 1)
      l ← read_cell junk p.array child
      pure (if p.before r l then child + 1 else child))
        w
    else ok child w

-- The inner loop doubles `pos`: it ends within as many rounds as there are items.
unfoldable pub bubble_down_loop : (junk fuel pos : ℕ) → Pot → M Pot
bubble_down_loop junk zero pos p w = fault
bubble_down_loop junk (suc n) pos p w =
    (if ltb p.num (pos * 2) then pure p else (do
      child ← min_child junk p (pos * 2)
      c ← read_cell junk p.array child
      x ← read_cell junk p.array pos
      p' ← (if p.before c x then swap_cells p child pos c x else pure p)
      bubble_down_loop junk n child p'))
      w

-- The outer `for` only tests whether there is a child at all.
unfoldable pub bubble_down : ℕ → Pot → M Pot
bubble_down junk p w = if leb 1 (p.num / 2) then bubble_down_loop junk (p.num + 1) 1 p w else ok p w

unfoldable pub a_pot_insert : ℕ → Pot → ℕ → M (Bool × Pot)
a_pot_insert junk p ptr w =
    (do
      r ← a_pot_resize p (p.num + 1)
      if r.0
          then (do
            p' ← write_cell (record r.1 { num = r.1.num + 1 }) (r.1.num + 1) ptr
            p'' ← bubble_up junk p'
            pure (true, p''))
          else pure (false, r.1))
      w

-- `pot->array[1] = pot->array[pot->num]; pot->num--;`
unfoldable pub a_pot_remove_top : ℕ → Pot → M (ℕ × Pot)
a_pot_remove_top junk p w =
    if p.num == 0
    then ok (0, p) w
    else (do
      ret ← read_cell junk p.array 1
      last ← read_cell junk p.array p.num
      p' ← write_cell p 1 last
      p'' ← bubble_down junk (record p' { num = p'.num - 1 })
      pure (ret, p''))
        w

unfoldable pub a_pot_size : Pot → ℕ
a_pot_size p = p.num

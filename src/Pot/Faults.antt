-- ===== src/Pot/Faults.antt =====
-- What the heap of a/pot.c does where its array is missing or its cell 0 is read.
use alib4c.Common.{
  ℕ, ◌+◌, ◌^◌, ◌<◌, ◌≤◌, ◌≡◌, refl, true, false, Option, none, some, [], ◌∷◌, if◌then◌else◌,
  Bool-cases, inl, inr, arith, ◌==◌,
}
use alib4c.World.{World, Returns, fault, malloc, head_or_false}
use alib4c.Error.Live.{IsLive}
use alib4c.Mem.{Block, a_realloc, a_realloc_free, resized}
use alib4c.Swap.{swap_xor_lem}
use alib4c.Pot.{
  Pot, Before, a_pot_insert, a_pot_remove_top, a_pot_resize, double_loop, size_to_realloc,
  reallocated_pot, cells_asked, bubble_up, bubble_up_loop, bubble_down, read_cell, write_cell,
  swap_cells,
}
use alib4c.Pot.Resizing.{IsSized, a_pot_resize-Resized}

read_none :
    (junk : ℕ) (o : Option Block) (i : ℕ) (w : World) → o ≡ none → read_cell junk o i w ≡ fault
unfolding read_cell
read_none junk none i w e = refl
read_none junk (some b) i w e = cc

emptied_faults :
    (junk : ℕ) (p : Pot) (w : World)
    → p.array ≡ none
    → 0 < p.num
    → a_pot_remove_top junk p w ≡ fault
unfolding a_pot_remove_top
emptied_faults junk p w e some_left =
    let n : (p.num == 0) ≡ false = ground arith in rw (n, read_none junk p.array 1 w e)

-- An insert into a pot that holds an item and has no room, when malloc fails, returns NULL but keeps
-- the number of items though the array is gone, so that the next a_pot_remove_top reads through NULL.
pub insert-failed_faults :
    (junk : ℕ) (p : Pot) (x : ℕ) (w : World)
    → IsSized p.num p.alloced p.array
    → 0 < p.num
    → p.alloced ≤ p.num + 1
    → p.num < 2 ^ 59
    → IsLive w.errors
    → head_or_false w.mallocs ≡ false
    → Returns (a_pot_insert junk p x w) λ out v.
      (out.0 ≡ false) × (out.1.num ≡ p.num) × ((u : World) → a_pot_remove_top junk out.1 u ≡ fault)
unfolding a_pot_insert
insert-failed_faults junk p x w s held full small live none_left =
    let ((b, p'), v, run, r) = a_pot_resize-Resized p (p.num + 1) w s (omega arith) live in
    let f : b ≡ false = ground (arith, r.answer) in
    (
      (false, p'),
      v,
      rw (run, f),
      (refl, r.num, λ u. emptied_faults junk p' u (r.failed f).0 (omega (arith, r.num))),
    )

abbrev unused : Before → Pot
unused before = record { num = 0; alloced = 0; before = before; array = none }

-- The first item of a pot is compared with cell 0, which nothing was written to: if it goes before
-- what that cell reads as, the two are swapped, and the item is lost, in that a_pot_remove_top
-- returns what was in cell 0.
pub insert_first_lem :
    (junk : ℕ) (before : Before) (x : ℕ) (w : World)
    → head_or_false w.mallocs ≡ true
    → Returns (a_pot_insert junk (unused before) x w) λ out v.
      (out.0 ≡ true)
      × Returns
          (a_pot_remove_top junk out.1 v)
          λ top u. (top.0 ≡ (if before x junk then junk else x)) × (top.1.num ≡ 0)
unfolding a_pot_insert a_pot_resize size_to_realloc double_loop reallocated_pot a_realloc
    a_realloc_free resized bubble_up bubble_up_loop read_cell write_cell swap_cells a_pot_remove_top
    bubble_down cells_asked
insert_first_lem junk before x w got = elim (Bool-cases (before x junk)) [
  | inl e ↦ (
    (
      true,
      record { num = 1; alloced = 1; before = before; array = some (some x ∷ some junk ∷ []) },
    ),
    (malloc w).1,
    rw (got, e, swap_xor_lem x junk),
    (
      refl,
      (
        (
          junk,
          record { num = 0; alloced = 1; before = before; array = some (some x ∷ some junk ∷ []) },
        ),
        (malloc w).1,
        refl,
        (rw e, refl),
      ),
    ),
  )
  | inr e ↦ (
    (true, record { num = 1; alloced = 1; before = before; array = some (none ∷ some x ∷ []) }),
    (malloc w).1,
    rw (got, e),
    (
      refl,
      (
        (x, record { num = 0; alloced = 1; before = before; array = some (none ∷ some x ∷ []) }),
        (malloc w).1,
        refl,
        (rw e, refl),
      ),
    ),
  )
]

-- ===== src/Tests/Pots.antt =====
-- The heap of a/pot.c, ordered by a_pot_lt_intptr.
use alib4c.Common.{ℕ, ◌<◌, ◌≤◌, ◌≡◌, false, none, some, [], ◌∷◌, refl, arith}
use alib4c.World.{ok, Returns, World}
use alib4c.Pot.{Pot, a_pot_insert, a_pot_remove_top, a_pot_lt_intptr}
use alib4c.Pot.Resizing.{IsSized}
use alib4c.Pot.Rising.{IsPrior}
use alib4c.Pot.Removing.{Removed, a_pot_remove_top-Removed}
use alib4c.Pot.Inserting.{words, IsValid, Inserts, a_pot_insert-Inserts}
use alib4c.Tests.Samples.{ready}

-- an item 7, and no room for another
abbrev full : Pot
full = record { num = 1; alloced = 1; before = a_pot_lt_intptr; array = some (none ∷ some 7 ∷ []) }

full-IsSized : IsSized 1 1 (some (none ∷ some 7 ∷ []))
full-IsSized = (refl, omega arith, omega arith)

lt-IsPrior : IsPrior a_pot_lt_intptr
unfolding a_pot_lt_intptr
lt-IsPrior = record { asym = λ a b h. ground arith; trans = λ a b c h k. ground arith }

full-IsValid : IsValid 0 full
unfolding a_pot_lt_intptr
full-IsValid = record {
  order = lt-IsPrior;
  sized = full-IsSized;
  heap = λ i h l. (let s : i ≡ 1 = omega arith in rw s refl);
}

a_pot_insert-Inserts_example : Returns (a_pot_insert 0 full 3 ready) (Inserts 0 full 3 ready)
unfolding a_pot_lt_intptr
a_pot_insert-Inserts_example =
    a_pot_insert-Inserts 0 full 3 ready full-IsValid (omega arith) refl tt

a_pot_remove_top-Removed_example :
    (q : Pot) × ((w : World) → a_pot_remove_top 0 full w ≡ ok (words 0 full 1, q) w)
    × Removed 0 full q
    × ((i : ℕ) → 0 < i → i ≤ 1 → a_pot_lt_intptr (words 0 full i) (words 0 full 1) ≡ false)
a_pot_remove_top-Removed_example = a_pot_remove_top-Removed 0 full full-IsValid (omega arith)

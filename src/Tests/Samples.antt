-- ===== src/Tests/Samples.antt =====
-- The inputs of the examples: worlds with and without memory, and callbacks on words.
use alib4c.Common.{pos, negsuc, true, [], ◌∷◌, ◌==◌, ltb, if◌then◌else◌, arith}
use alib4c.World.{World, empty, entry, alib}
use alib4c.Collect.{Cmp, IsOrder}

-- three calls of malloc answer
abbrev pub ready : World
ready = record { mallocs = true ∷ true ∷ true ∷ []; errno = pos 12; errors = empty; log = [] }

-- malloc fails, with an error on the stack
abbrev pub exhausted : World
exhausted = record { mallocs = []; errno = pos 12; errors = entry alib (pos 3) empty; log = [] }

abbrev pub word_cmp : Cmp
word_cmp a b = if a == b then pos 0 else if ltb a b then negsuc 0 else pos 1

pub word-IsOrder : IsOrder word_cmp
word-IsOrder = record {
  cmp_refl = λ a. ground arith;
  cmp_swap = λ a b. ground arith;
  cmp_trans = λ a b c p q. ground arith;
  cmp_congr = λ a b c p. ground arith;
}

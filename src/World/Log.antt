-- ===== src/World/Log.antt =====
-- What a log of freed things adds up to.
use alib4c.Common.{ℕ, suc, ◌+◌, List, [], ◌∷◌}
use alib4c.World.{Ptr, Event, key_freed, val_freed, block_freed}

-- the sum of a weight over the keys that a log frees
abbrev pub freed : (Ptr → ℕ) → List Event → ℕ
freed f [] = 0
freed f (key_freed k ∷ log) = f k + freed f log
freed f (val_freed v ∷ log) = freed f log
freed f (block_freed ∷ log) = freed f log

-- the number of blocks that it gives back
abbrev pub blocks_freed : List Event → ℕ
blocks_freed [] = 0
blocks_freed (block_freed ∷ log) = suc (blocks_freed log)
blocks_freed (key_freed k ∷ log) = blocks_freed log
blocks_freed (val_freed v ∷ log) = blocks_freed log

-- the sum of a weight over the values that it frees
abbrev pub vals_freed : (Ptr → ℕ) → List Event → ℕ
vals_freed f [] = 0
vals_freed f (val_freed v ∷ log) = f v + vals_freed f log
vals_freed f (key_freed k ∷ log) = vals_freed f log
vals_freed f (block_freed ∷ log) = vals_freed f log

-- ===== src/Pot/Cells.antt =====
-- The cells of the array of a/pot.c as a function of the index, and the bag of the items.
use alib4c.Common.{
  ℕ, zero, suc, ◌+◌, ◌<◌, ◌≤◌, ◌≡◌, refl, Option, none, some, ◌==◌, if◌then◌else◌, arith, length,
  get_or, set, get_or-set, get_elem?-get_or, length-set,
}
use alib4c.World.{World, ok}
use alib4c.Mem.{Block}
use alib4c.Swap.{swap_xor_lem}
use alib4c.Pot.{Pot, read_cell, write_cell, swap_cells}

abbrev pub word_of : ℕ → Option ℕ → ℕ
word_of junk none = junk
word_of junk (some v) = v

-- what the cell at an index reads as
abbrev pub word_at : ℕ → Block → ℕ → ℕ
word_at junk b i = word_of junk (get_or b i none)

abbrev pub in_array : Pot → Block → Pot
in_array p b = record p { array = some b }

abbrev pub put : (ℕ → ℕ) → ℕ → ℕ → ℕ → ℕ
put f i v j = if i == j then v else f j

-- the sum of the weights of the items
abbrev pub bag : (ℕ → ℕ) → (ℕ → ℕ) → ℕ → ℕ
bag g f zero = 0
bag g f (suc n) = g (f (suc n)) + bag g f n

pub read_cell-word_at :
    (junk : ℕ) (b : Block) (i : ℕ) (w : World)
    → i < length b
    → read_cell junk (some b) i w ≡ ok (word_at junk b i) w
unfolding read_cell
read_cell-word_at junk b i w l = rw (get_elem?-get_or b i none l, read_cell) (go (get_or b i none))
  where
    go : (c : Option ℕ) → ok (elim c [ none ↦ junk | some v ↦ v ]) w ≡ ok (word_of junk c) w
    go none = refl
    go (some v) = refl

pub word_at-set :
    (junk : ℕ) (b : Block) (i v j : ℕ)
    → i < length b
    → word_at junk (set b i (some v)) j ≡ put (word_at junk b) i v j
word_at-set junk b i v j l = ground (arith, get_or-set b i j (some v) none)

pub write_cell-run :
    (p : Pot) (b : Block) (i v : ℕ) (w : World)
    → i < length b
    → write_cell (in_array p b) i v w ≡ ok (in_array p (set b i (some v))) w
unfolding write_cell
write_cell-run p b i v w l = ground arith

abbrev pub swapped : Block → (i j a b : ℕ) → Block
swapped c i j a b = set (set c i (some b)) j (some a)

pub swap_cells-swapped :
    (p : Pot) (c : Block) (i j a b : ℕ) (w : World)
    → i < length c
    → j < length c
    → swap_cells (in_array p c) i j a b w ≡ ok (in_array p (swapped c i j a b)) w
unfolding swap_cells
swap_cells-swapped p c i j a b w l k =
    let k' : j < length (set c i (some b)) = rw (length-set c i (some b)) k in
    rw (swap_xor_lem a b, write_cell-run p c i b w l, write_cell-run p (set c i (some b)) j a w k')

pub bag-beyond : (g f : ℕ → ℕ) (n i v : ℕ) → n < i → bag g (put f i v) n ≡ bag g f n
bag-beyond g f zero i v h = refl
bag-beyond g f (suc n) i v h = ground (arith, bag-beyond g f n i v)

pub bag-put :
    (g f : ℕ → ℕ) (n i v : ℕ) → 0 < i → i ≤ n → bag g (put f i v) n + g (f i) ≡ bag g f n + g v
bag-put g f zero i v h l = absurd (omega arith)
bag-put g f (suc n) i v h l = ground (arith, bag-put g f n i v, bag-beyond g f n i v)

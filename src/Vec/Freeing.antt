-- ===== src/Vec/Freeing.antt =====
-- What a_vec_free of a/old/vec.c gives back.
use alib4c.Common.{
  ℕ, ◌+◌, ◌≡◌, refl, List, [], ◌∷◌, if◌then◌else◌, length, arith, Bool-cases, inl, inr,
}
use alib4c.World.{Ptr, World}
use alib4c.World.Log.{blocks_freed, vals_freed}
use alib4c.Vec.{VecItem, a_vec_item_free, a_vec_free}

-- the sum of a weight over the buffers that the vector owns
abbrev pub owned : (Ptr → ℕ) → List VecItem → ℕ
owned f [] = 0
owned f (i ∷ items) = (if i.free_ptr then f i.buffer.iov_base else 0) + owned f items

item_free-owned :
    (i : VecItem) (f : Ptr → ℕ) (w : World)
    → (blocks_freed (a_vec_item_free i w).log ≡ 1 + blocks_freed w.log)
      × (vals_freed f (a_vec_item_free i w).log
          ≡ (if i.free_ptr then f i.buffer.iov_base else 0) + vals_freed f w.log)
unfolding a_vec_item_free
item_free-owned i f w = elim (Bool-cases i.free_ptr) [
  | inl e ↦ rw e (omega arith, refl)
  | inr e ↦ rw e (omega arith, omega arith)
]

-- Freeing a vector gives back one block for every item, and of the buffers exactly those that were
-- added with `free_ptr`, each as often as it was added.
pub free-owned :
    (items : List VecItem) (f : Ptr → ℕ) (w : World)
    → (blocks_freed (a_vec_free items w).log ≡ length items + blocks_freed w.log)
      × (vals_freed f (a_vec_free items w).log ≡ owned f items + vals_freed f w.log)
unfolding a_vec_free
free-owned [] f w = (omega arith, omega arith)
free-owned (i ∷ items) f w =
    let (b, c) = free-owned items f (a_vec_item_free i w) in
    let (d, e) = item_free-owned i f w in (omega (arith, b, d), omega (arith, c, e))

-- ===== src/Hash/Clearing.antt =====
-- item_free and a_hash_clean of a/hash.c.
use alib4c.Common.{ℕ, ◌+◌, ◌≡◌, refl, ◌∙◌, true, Option, none, some, [], ◌∷◌, arith}
use alib4c.World.{Ptr, World}
use alib4c.World.Log.{freed, blocks_freed}
use alib4c.Hash.{
  Item, Chain, Table, HashTable, item_free, a_hash_clean, list_free, lists_free, table_free,
}
use alib4c.Hash.Buckets.{weight, total}
use alib4c.Hash.Extending.{IsValid, map_of, total_in}

pub freed-item_free :
    (h : HashTable) (it : Item) (w : World) (f : Ptr → ℕ)
    → h.key_free ≡ true
    → freed f (item_free h it w).log ≡ f it.key + freed f w.log
unfolding item_free
freed-item_free h it w f owned = ground arith

pub kept-item_free :
    (h : HashTable) (it : Item) (w : World)
    → blocks_freed (item_free h it w).log ≡ blocks_freed w.log
unfolding item_free
kept-item_free h it w = ground arith

module _ (h : HashTable) (f : Ptr → ℕ) (owned : h.key_free ≡ true) where
  freed-list_free :
      (c : Chain) (w : World) → freed f (list_free h c w).log ≡ weight f c + freed f w.log
  unfolding list_free
  freed-list_free [] w = omega arith
  freed-list_free (it ∷ c) w =
      omega (arith, freed-list_free c (item_free h it w), freed-item_free h it w f owned)

  freed-lists_free :
      (cells : Table) (w : World)
      → freed f (lists_free h cells w).log ≡ total f cells + freed f w.log
  unfolding lists_free
  freed-lists_free [] w = omega arith
  freed-lists_free (c ∷ cells) w =
      omega (arith, freed-lists_free cells (list_free h c w), freed-list_free c w)

  freed-table_free :
      (o : Option Table) (w : World) → freed f (table_free h o w).log ≡ total_in f o + freed f w.log
  unfolding table_free
  freed-table_free none w = omega arith
  freed-table_free (some cells) w = freed-lists_free cells w

module _ (h : HashTable) where
  kept-list_free : (c : Chain) (w : World) → blocks_freed (list_free h c w).log ≡ blocks_freed w.log
  unfolding list_free
  kept-list_free [] w = refl
  kept-list_free (it ∷ c) w = kept-list_free c (item_free h it w) ∙ kept-item_free h it w

  kept-lists_free :
      (cells : Table) (w : World) → blocks_freed (lists_free h cells w).log ≡ blocks_freed w.log
  unfolding lists_free
  kept-lists_free [] w = refl
  kept-lists_free (c ∷ cells) w = kept-lists_free cells (list_free h c w) ∙ kept-list_free c w

  -- the table, if there is one
  abbrev pub table_blocks : Option Table → ℕ
  table_blocks none = 0
  table_blocks (some cells) = 1

  kept-table_free :
      (o : Option Table) (w : World)
      → blocks_freed (table_free h o w).log ≡ table_blocks o + blocks_freed w.log
  unfolding table_free
  kept-table_free none w = omega arith
  kept-table_free (some cells) w = omega (arith, kept-lists_free cells w)

-- a_hash_clean leaves a valid table with an empty map. Where the table owned its keys, it frees
-- each of them once; of the blocks it gives back the table alone, and none of the items.
pub clean-owned :
    (h : HashTable) (w : World)
    → IsValid h
    → let (h', w') = a_hash_clean h w in
      IsValid h'
      × ((q : Ptr) → map_of h' q ≡ none)
      × (h.key_free ≡ true → (f : Ptr → ℕ) → freed f w'.log ≡ total_in f h.table + freed f w.log)
      × (blocks_freed w'.log ≡ table_blocks h h.table + blocks_freed w.log)
unfolding a_hash_clean
clean-owned h w v = (
  record { hashed = v.hashed; stored = (refl, refl); narrow = omega arith },
  λ q. refl,
  λ k f. freed-table_free h f k h.table w,
  kept-table_free h h.table w,
)

-- ===== src/Bintree/Ledger.antt =====
-- What a tree of a/bintree.c owns: each key and each node stands in the tree or was freed, once.
use alib4c.Common.{ℕ, suc, ◌+◌, ◌≡◌, refl, arith, true}
use alib4c.World.{Ptr, null, World}
use alib4c.World.Log.{freed, blocks_freed}
use alib4c.Collect.{IsOrder}
use alib4c.Bintree.{Tree, leaf, node, Bintree, node_free, node_put, join, node_remove, node_axe}
use alib4c.Bintree.Order.{IsOrdered, hang, join-hang, Beyond-of_root}

-- the sum of a weight over the keys of a tree
abbrev pub total : (Ptr → ℕ) → Tree → ℕ
total f leaf = 0
total f (node l k v r) = total f l + f k + total f r

abbrev pub size : Tree → ℕ
size leaf = 0
size (node l k v r) = size l + 1 + size r

total-hang : (f : Ptr → ℕ) (l r : Tree) → total f (hang l r) ≡ total f l + total f r
total-hang f leaf r = omega arith
total-hang f (node ll k v lr) r = omega (arith, total-hang f lr r)

size-hang : (l r : Tree) → size (hang l r) ≡ size l + size r
size-hang leaf r = omega arith
size-hang (node ll k v lr) r = omega (arith, size-hang lr r)

module _ (t : Bintree) where
  errors-node_free : (k v : Ptr) (w : World) → (node_free t k v w).errors ≡ w.errors
  unfolding node_free
  errors-node_free k v w = ground arith

  errors-put_tree :
      (s nl : Tree) (key val : Ptr) (nr : Tree) (w : World)
      → (node_put t s nl key val nr w).1.errors ≡ w.errors
  unfolding node_put
  errors-put_tree leaf nl key val nr w = refl
  errors-put_tree (node l k v r) nl key val nr w = ground (
    arith,
    errors-put_tree l nl key val nr w,
    errors-put_tree r nl key val nr w,
    errors-node_free k v w,
  )

  pub errors-node_put :
      (s : Tree) (key val : Ptr) (w : World)
      → (node_put t s leaf key val leaf w).1.errors ≡ w.errors
  errors-node_put s key val w = errors-put_tree s leaf key val leaf w

  errors-join : (l r : Tree) (w : World) → (join t l r w).1.errors ≡ w.errors
  unfolding join
  errors-join leaf r w = refl
  errors-join (node ll lk lv lr) leaf w = refl
  errors-join (node ll lk lv lr) (node rl rk rv rr) w =
      errors-put_tree (node ll lk lv lr) rl rk rv rr w

  pub errors-node_remove :
      (s : Tree) (key : Ptr) (w : World) → (node_remove t s key w).2.errors ≡ w.errors
  unfolding node_remove
  errors-node_remove leaf key w = refl
  errors-node_remove (node l k v r) key w = ground (
    arith,
    errors-node_remove l key w,
    errors-node_remove r key w,
    errors-join l r w,
    errors-node_free k null (join t l r w).1,
  )

  blocks-node_free :
      (k v : Ptr) (w : World) → blocks_freed (node_free t k v w).log ≡ suc (blocks_freed w.log)
  unfolding node_free
  blocks-node_free k v w = ground arith

  pub blocks-node_put :
      (s : Tree) (key val : Ptr) (w : World)
      → let (s', w') = node_put t s leaf key val leaf w in
        size s' + blocks_freed w'.log ≡ size s + 1 + blocks_freed w.log
  unfolding node_put
  blocks-node_put leaf key val w = omega arith
  blocks-node_put (node l k v r) key val w =
      ground
        (arith, blocks-node_put l key val w, blocks-node_put r key val w, blocks-node_free k v w)

  pub blocks-node_axe :
      (s : Tree) (w : World) → blocks_freed (node_axe t s w).log ≡ size s + blocks_freed w.log
  unfolding node_axe
  blocks-node_axe leaf w = omega arith
  blocks-node_axe (node l k v r) w = omega (
    arith,
    blocks-node_free k v (node_axe t l (node_axe t r w)),
    blocks-node_axe l (node_axe t r w),
    blocks-node_axe r w,
  )

  module _ (f : Ptr → ℕ) (owned : t.key_free ≡ true) where
    freed-node_free :
        (k v : Ptr) (w : World) → freed f (node_free t k v w).log ≡ f k + freed f w.log
    unfolding node_free
    freed-node_free k v w = ground arith

    pub freed-node_put :
        (s : Tree) (key val : Ptr) (w : World)
        → let (s', w') = node_put t s leaf key val leaf w in
          total f s' + freed f w'.log ≡ total f s + f key + freed f w.log
    unfolding node_put
    freed-node_put leaf key val w = omega arith
    freed-node_put (node l k v r) key val w =
        ground
          (arith, freed-node_put l key val w, freed-node_put r key val w, freed-node_free k v w)

    pub freed-node_axe :
        (s : Tree) (w : World) → freed f (node_axe t s w).log ≡ total f s + freed f w.log
    unfolding node_axe
    freed-node_axe leaf w = omega arith
    freed-node_axe (node l k v r) w = omega (
      arith,
      freed-node_free k v (node_axe t l (node_axe t r w)),
      freed-node_axe l (node_axe t r w),
      freed-node_axe r w,
    )

  module _ (o : IsOrder t.key_cmp) where
    pub blocks-node_remove :
        (s : Tree) (key : Ptr) (w : World)
        → IsOrdered t.key_cmp s
        → let (x, s', w') = node_remove t s key w in
          size s' + blocks_freed w'.log ≡ size s + blocks_freed w.log
    unfolding node_remove
    blocks-node_remove leaf key w h = refl
    blocks-node_remove (node l k v r) key w h = ground (
      arith,
      blocks-node_remove l key w h.2,
      blocks-node_remove r key w h.3,
      join-hang t l r w (Beyond-of_root t o k l r h.0 h.1),
      size-hang l r,
      blocks-node_free k 0 w,
    )

    pub freed-node_remove :
        (f : Ptr → ℕ) (owned : t.key_free ≡ true) (s : Tree) (key : Ptr) (w : World)
        → IsOrdered t.key_cmp s
        → let (x, s', w') = node_remove t s key w in
          total f s' + freed f w'.log ≡ total f s + freed f w.log
    unfolding node_remove
    freed-node_remove f owned leaf key w h = refl
    freed-node_remove f owned (node l k v r) key w h = ground (
      arith,
      freed-node_remove f owned l key w h.2,
      freed-node_remove f owned r key w h.3,
      join-hang t l r w (Beyond-of_root t o k l r h.0 h.1),
      total-hang f l r,
      freed-node_free f owned k 0 w,
    )

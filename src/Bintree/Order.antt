-- ===== src/Bintree/Order.antt =====
-- The order of the keys in a tree of a/bintree.c, and that put and remove keep it.
use alib4c.Common.{◌≡◌, refl, ap, arith, Sign, neg, nil, plus, sign}
use alib4c.World.{Ptr, World}
use alib4c.Collect.{Cmp, IsOrder}
use alib4c.Bintree.{Tree, leaf, node, Bintree, node_put, node_remove, join}

-- every key of the tree satisfies `P`
abbrev pub All : (Ptr → Type 0) → Tree → Type 0
All P leaf = Unit
All P (node l k v r) = All P l × P k × All P r

pub All-imp : {P Q : Ptr → Type 0} → ((k : Ptr) → P k → Q k) → (t : Tree) → All P t → All Q t
All-imp f leaf a = tt
All-imp f (node l k v r) (pl, pk, pr) = (All-imp f l pl, f k pk, All-imp f r pr)

-- The keys that a node's comparison sends to the left, and those that it sends to the right.
abbrev pub Left : Cmp → Ptr → Tree → Type 0
Left cmp k t = All (λ x. sign (cmp k x) ≡ neg) t

abbrev pub Right : Cmp → Ptr → Tree → Type 0
Right cmp k t = All (λ x. sign (cmp k x) ≡ plus) t

abbrev pub IsOrdered : Cmp → Tree → Type 0
IsOrdered cmp leaf = Unit
IsOrdered cmp (node l k v r) = Left cmp k l × Right cmp k r × IsOrdered cmp l × IsOrdered cmp r

-- `r` below the last right child of `l`
abbrev pub hang : Tree → Tree → Tree
hang leaf r = r
hang (node a k v b) r = node a k v (hang b r)

All-hang : (P : Ptr → Type 0) (l r : Tree) → All P l → All P r → All P (hang l r)
All-hang P leaf r a b = b
All-hang P (node ll k v lr) r a b = (a.0, a.1, All-hang P lr r a.2 b)

module _ (t : Bintree) where
  -- every key of the first tree sends the whole of the second to the right
  abbrev pub Beyond : Tree → Tree → Type 0
  Beyond l r = All (λ x. Right t.key_cmp x r) l

  node_put-hang :
      (l rl : Tree) (rk rv : Ptr) (rr : Tree) (w : World)
      → Beyond l (node rl rk rv rr)
      → node_put t l rl rk rv rr w ≡ (hang l (node rl rk rv rr), w)
  unfolding node_put
  node_put-hang leaf rl rk rv rr w b = refl
  node_put-hang (node ll lk lv lr) rl rk rv rr w b =
      ground (arith, node_put-hang lr rl rk rv rr w b.2)

  hang_leaf : (l : Tree) → hang l leaf ≡ l
  hang_leaf leaf = refl
  hang_leaf (node a k v b) = ap (node a k v) (hang_leaf b)

  pub join-hang : (l r : Tree) (w : World) → Beyond l r → join t l r w ≡ (hang l r, w)
  unfolding join
  join-hang leaf r w b = refl
  join-hang (node ll lk lv lr) leaf w b = rw (hang_leaf lr)
  join-hang (node ll lk lv lr) (node rl rk rv rr) w b =
      node_put-hang (node ll lk lv lr) rl rk rv rr w b

  pub All-put :
      (P : Ptr → Type 0) (s : Tree) (key val : Ptr) (w : World)
      → All P s
      → P key
      → All P (node_put t s leaf key val leaf w).0
  unfolding node_put
  All-put P leaf key val w a p = (tt, p, tt)
  All-put P (node l k v r) key val w a p =
      ground (arith, All-put P l key val w, All-put P r key val w)

  module _ (o : IsOrder t.key_cmp) where
    -- the keys left of a node lie beyond the keys right of it
    pub Beyond-of_root :
        (k : Ptr) (l r : Tree) → Left t.key_cmp k l → Right t.key_cmp k r → Beyond l r
    Beyond-of_root k l r a b =
        All-imp
          (λ x h.
            All-imp (λ y g. ground (arith, o.cmp_swap k y, o.cmp_trans y k x, o.cmp_swap y x)) r b)
          l a

    hang-IsOrdered :
        (l r : Tree)
        → IsOrdered t.key_cmp l
        → IsOrdered t.key_cmp r
        → Beyond l r
        → IsOrdered t.key_cmp (hang l r)
    hang-IsOrdered leaf r a b c = b
    hang-IsOrdered (node ll lk lv lr) r a b c =
        (a.0, All-hang _ lr r a.1 c.1, a.2, hang-IsOrdered lr r a.3 b c.2)

    All-congr :
        (c : Sign) (k key : Ptr) (s : Tree)
        → sign (t.key_cmp k key) ≡ nil
        → All (λ x. sign (t.key_cmp k x) ≡ c) s
        → All (λ x. sign (t.key_cmp key x) ≡ c) s
    All-congr c k key s e a = All-imp (λ x h. ground (arith, o.cmp_congr k key x)) s a

    pub node_put-IsOrdered :
        (s : Tree) (key val : Ptr) (w : World)
        → IsOrdered t.key_cmp s
        → IsOrdered t.key_cmp (node_put t s leaf key val leaf w).0
    unfolding node_put
    node_put-IsOrdered leaf key val w h = (tt, tt, tt, tt)
    node_put-IsOrdered (node l k v r) key val w h = ground (
      arith,
      node_put-IsOrdered l key val w,
      node_put-IsOrdered r key val w,
      All-put (λ x. sign (t.key_cmp k x) ≡ neg) l key val w,
      All-put (λ x. sign (t.key_cmp k x) ≡ plus) r key val w,
      All-congr neg k key l,
      All-congr plus k key r,
    )

    All-node_remove :
        (P : Ptr → Type 0) (s : Tree) (key : Ptr) (w : World)
        → IsOrdered t.key_cmp s
        → All P s
        → All P (node_remove t s key w).1
    unfolding node_remove
    All-node_remove P leaf key w h a = tt
    All-node_remove P (node l k v r) key w h a = ground (
      arith,
      All-node_remove P l key w h.2,
      All-node_remove P r key w h.3,
      All-hang P l r a.0 a.2,
      join-hang l r w (Beyond-of_root k l r h.0 h.1),
    )

    pub node_remove-IsOrdered :
        (s : Tree) (key : Ptr) (w : World)
        → IsOrdered t.key_cmp s
        → IsOrdered t.key_cmp (node_remove t s key w).1
    unfolding node_remove
    node_remove-IsOrdered leaf key w h = tt
    node_remove-IsOrdered (node l k v r) key w h = ground (
      arith,
      node_remove-IsOrdered l key w,
      node_remove-IsOrdered r key w,
      All-node_remove (λ x. sign (t.key_cmp k x) ≡ neg) l key w h.2,
      All-node_remove (λ x. sign (t.key_cmp k x) ≡ plus) r key w h.3,
      hang-IsOrdered l r h.2 h.3 (Beyond-of_root k l r h.0 h.1),
      join-hang l r w (Beyond-of_root k l r h.0 h.1),
    )

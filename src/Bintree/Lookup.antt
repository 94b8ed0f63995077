-- ===== src/Bintree/Lookup.antt =====
-- The tree of a/bintree.c as a finite map: a_bintree_get after a_bintree_put and a_bintree_remove.
use alib4c.Common.{◌≡◌, refl, arith, Option, none, some, Sign, neg, nil, plus, sign}
use alib4c.World.{Ptr, null, World}
use alib4c.Collect.{Cmp, IsOrder}
use alib4c.Bintree.{Tree, leaf, node, Bintree, node_put, node_get, node_remove}
use alib4c.Bintree.Order.{All, All-imp, Left, Right, IsOrdered, hang, join-hang, Beyond-of_root}

-- The value under a key, if there is one. Two keys are one where the comparison answers 0.
abbrev pub find : Cmp → Tree → Ptr → Option Ptr
find cmp leaf key = none
find cmp (node l k v r) key = elim (sign (cmp k key)) [
  | neg ↦ find cmp l key
  | plus ↦ find cmp r key
  | nil ↦ some v
]

-- `none` read as NULL
abbrev pub or_null : Option Ptr → Ptr
or_null none = null
or_null (some v) = v

-- a map, changed at the keys that compare as equal to `key`
abbrev pub update : Cmp → (Ptr → Option Ptr) → Ptr → Option Ptr → Ptr → Option Ptr
update cmp f key x q = elim (sign (cmp key q)) [ nil ↦ x | _ ↦ f q ]

pub node_get-find :
    (t : Bintree) (s : Tree) (key : Ptr) → node_get t s key ≡ or_null (find t.key_cmp s key)
unfolding node_get
node_get-find t leaf key = refl
node_get-find t (node l k v r) key = ground (arith, node_get-find t l key, node_get-find t r key)

module _ (cmp : Cmp) (q : Ptr) where
  find_below : (s : Tree) → All (λ x. sign (cmp x q) ≡ neg) s → find cmp s q ≡ none
  find_below leaf a = refl
  find_below (node l k v r) a = ground (arith, find_below l a.0)

  find-hang_left :
      (l r : Tree) → All (λ x. sign (cmp x q) ≡ neg) r → find cmp (hang l r) q ≡ find cmp l q
  find-hang_left leaf r a = find_below r a
  find-hang_left (node ll k v lr) r a = ground (arith, find-hang_left lr r a)

  find-hang_right :
      (l r : Tree) → All (λ x. sign (cmp x q) ≡ plus) l → find cmp (hang l r) q ≡ find cmp r q
  find-hang_right leaf r a = refl
  find-hang_right (node ll k v lr) r a = ground (arith, find-hang_right lr r a.2)

module _ (t : Bintree) (o : IsOrder t.key_cmp) where
  cmp_congr_right :
      (a b c : Ptr) → sign (t.key_cmp a b) ≡ nil → sign (t.key_cmp c a) ≡ sign (t.key_cmp c b)
  cmp_congr_right a b c e = ground (arith, o.cmp_swap a c, o.cmp_swap b c, o.cmp_congr a b c)

  pub find-node_put :
      (s : Tree) (key val q : Ptr) (w : World)
      → find t.key_cmp (node_put t s leaf key val leaf w).0 q
        ≡ update t.key_cmp (find t.key_cmp s) key (some val) q
  unfolding node_put
  find-node_put leaf key val q w = ground arith
  find-node_put (node l k v r) key val q w = ground (
    arith,
    find-node_put l key val q w,
    find-node_put r key val q w,
    cmp_congr_right key q k,
    o.cmp_congr k key q,
  )

  find-hang :
      (l r : Tree) (k v q : Ptr) (c : Sign)
      → Left t.key_cmp k l
      → Right t.key_cmp k r
      → sign (t.key_cmp k q) ≡ c
      → find t.key_cmp (hang l r) q ≡ update t.key_cmp (find t.key_cmp (node l k v r)) k none q
  find-hang l r k v q neg a b e =
      ground (arith, find-hang_left t.key_cmp q l r (All-imp (λ y g. before y g) r b))
    where
      before : (y : Ptr) → sign (t.key_cmp k y) ≡ plus → sign (t.key_cmp y q) ≡ neg
      before y g = ground (arith, o.cmp_swap k y, o.cmp_trans y k q)
  find-hang l r k v q plus a b e =
      ground (arith, find-hang_right t.key_cmp q l r (All-imp (λ x h. above x h) l a))
    where
      above : (x : Ptr) → sign (t.key_cmp k x) ≡ neg → sign (t.key_cmp x q) ≡ plus
      above x h = ground (arith, o.cmp_swap k q, o.cmp_trans q k x, o.cmp_swap q x)
  find-hang l r k v q nil a b e = ground (
    arith,
    find-hang_right t.key_cmp q l r (All-imp (λ x h. above x h) l a),
    find_below t.key_cmp q r (All-imp (λ y g. before y g) r b),
  )
    where
      above : (x : Ptr) → sign (t.key_cmp k x) ≡ neg → sign (t.key_cmp x q) ≡ plus
      above x h = ground (arith, o.cmp_congr k q x, o.cmp_swap q x)

      before : (y : Ptr) → sign (t.key_cmp k y) ≡ plus → sign (t.key_cmp y q) ≡ neg
      before y g = ground (arith, o.cmp_congr k q y, o.cmp_swap q y)

  pub find-node_remove :
      (s : Tree) (key q : Ptr) (w : World)
      → IsOrdered t.key_cmp s
      → find t.key_cmp (node_remove t s key w).1 q ≡ update t.key_cmp (find t.key_cmp s) key none q
  unfolding node_remove
  find-node_remove leaf key q w h = ground arith
  find-node_remove (node l k v r) key q w h = ground (
    arith,
    find-node_remove l key q w h.2,
    find-node_remove r key q w h.3,
    join-hang t l r w (Beyond-of_root t o k l r h.0 h.1),
    find-hang l r k v q (sign (t.key_cmp k q)) h.0 h.1 refl,
    cmp_congr_right key q k,
    o.cmp_congr k key q,
  )

  pub removed-find :
      (s : Tree) (key : Ptr) (w : World)
      → (node_remove t s key w).0 ≡ or_null (find t.key_cmp s key)
  unfolding node_remove
  removed-find leaf key w = refl
  removed-find (node l k v r) key w = ground (arith, removed-find l key w, removed-find r key w)

-- ===== src/Bintree.antt =====
-- The search tree of a/bintree.c. A node owned by one pointer is a constructor, and a function
-- that writes through the pointer returns the new tree.
pub mod Client
pub mod Ledger
pub mod Lookup
pub mod Methods
pub mod Order
use alib4c.Common.{
  ℤ, Bool, true, false, Option, none, some, ◌&&◌, not, ◌==◌, if◌then◌else◌, Sign, neg, nil, plus,
  sign,
}
use alib4c.World.{
  Ptr, null, Event, key_freed, val_freed, block_freed, World, M, ok, ◌>>=◌, emit, emit_if, alib,
}
use alib4c.Error.{success, other, a_error_code_ret}
use alib4c.Mem.{a_malloc}
use alib4c.Collect.{Cmp}

-- `leaf` is NULL.
pub data Tree : Type 0 where
  leaf : Tree
  node : Tree → Ptr → Ptr → Tree → Tree

-- For `key_free` and `val_free`: whether the pointer is set.
pub record Bintree : Type 0 where
  pub root : Tree
  pub key_cmp : Cmp
  pub key_free : Bool
  pub val_free : Bool

-- the assignments of a_bintree_init
unfoldable pub tree_fields : Cmp → Bool → Bool → Bintree
tree_fields cmp kf vf = record { root = leaf; key_cmp = cmp; key_free = kf; val_free = vf }

-- `none` is NULL.
unfoldable pub a_bintree_init : Option Bintree → Cmp → Bool → Bool → Option Bintree
a_bintree_init none cmp kf vf = none
a_bintree_init (some t) cmp kf vf = some (tree_fields cmp kf vf)

unfoldable pub node_init : Ptr → Ptr → Tree
node_init key val = node leaf key val leaf

unfoldable pub node_free : Bintree → Ptr → Ptr → World → World
node_free t key val w =
    emit block_freed (emit_if t.val_free (val_freed val) (emit_if t.key_free (key_freed key) w))

-- Puts the node of the four given fields below `root`; where the C code finds the child pointer NULL
-- it stores the node there, which is the clause for `leaf`.
unfoldable pub node_put : Bintree → Tree → Tree → Ptr → Ptr → Tree → World → Tree × World
node_put t leaf nl nk nv nr w = (node nl nk nv nr, w)
node_put t (node l k v r) nl nk nv nr w = elim (sign (t.key_cmp k nk)) [
  | neg ↦ (let (l', w') = node_put t l nl nk nv nr w in (node l' k v r, w'))
  | plus ↦ (let (r', w') = node_put t r nl nk nv nr w in (node l k v r', w'))
  | nil ↦ (node l nk nv r, node_free t k v w)
]

unfoldable pub a_bintree_put : Bintree → Ptr → Ptr → M (ℤ × Bintree)
unfolding node_init
a_bintree_put t key val w =
    (a_malloc 32 >>= λ got. elim got [
      | none ↦ a_error_code_ret alib other (other, t)
      | some b ↦ λ v.
          let (root', w') = node_put t t.root leaf key val leaf v in
          ok (success, record t { root = root' }) w'
    ])
      w

unfoldable pub node_get : Bintree → Tree → Ptr → Ptr
node_get t leaf key = null
node_get t (node l k v r) key = elim (sign (t.key_cmp k key)) [
  | neg ↦ node_get t l key
  | plus ↦ node_get t r key
  | nil ↦ v
]

unfoldable pub a_bintree_get : Bintree → Ptr → Ptr
a_bintree_get t key = node_get t t.root key

-- What takes the place of a removed node: the right child is put below the left one.
unfoldable pub join : Bintree → Tree → Tree → World → Tree × World
join t leaf r w = (r, w)
join t (node ll lk lv lr) leaf w = (node ll lk lv lr, w)
join t (node ll lk lv lr) (node rl rk rv rr) w = node_put t (node ll lk lv lr) rl rk rv rr w

-- The value, the tree in place of `*root_ptr`, and the world.
unfoldable pub node_remove : Bintree → Tree → Ptr → World → Ptr × Tree × World
unfolding join
node_remove t leaf key w = (null, leaf, w)
node_remove t (node l k v r) key w = elim (sign (t.key_cmp k key)) [
  | neg ↦ (let (x, l', w') = node_remove t l key w in (x, node l' k v r, w'))
  | plus ↦ (let (x, r', w') = node_remove t r key w in (x, node l k v r', w'))
  | nil ↦ (let (s, w') = join t l r w in (v, s, node_free t k null w'))
]

unfoldable pub a_bintree_remove : Bintree → Ptr → World → Ptr × Bintree × World
a_bintree_remove t key w =
    let (x, root', w') = node_remove t t.root key w in (x, record t { root = root' }, w')

unfoldable pub a_bintree_delete : Bintree → Ptr → World → Bintree × World
a_bintree_delete t key w =
    let (x, root', w') = node_remove t t.root key w in
    (record t { root = root' }, emit_if (not (x == null) && t.val_free) (val_freed x) w')

unfoldable pub node_axe : Bintree → Tree → World → World
node_axe t leaf w = w
node_axe t (node l k v r) w = node_free t k v (node_axe t l (node_axe t r w))

unfoldable pub a_bintree_axe : Bintree → World → Bintree × World
a_bintree_axe t w = (record t { root = leaf }, node_axe t t.root w)

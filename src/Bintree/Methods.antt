-- ===== src/Bintree/Methods.antt =====
-- The functions of a/bintree.h on whole trees: the order kept, the map they implement, and what
-- becomes of the keys and nodes that the tree owns.
use alib4c.Common.{
  ℕ, ◌+◌, ◌≡◌, refl, ◌∙◌, ap, sym, arith, ℤ, Bool, true, false, Option, none, some, Bool-cases, inl,
  inr, if◌then◌else◌,
}
use alib4c.World.{Ptr, World, Returns, malloc, head_or_false}
use alib4c.World.Log.{freed, blocks_freed}
use alib4c.Error.{success, other}
use alib4c.Error.Live.{IsLive, reported, reported-IsLive, error_ret-pushed, error_code_ret-reported}
use alib4c.Mem.{Block, a_malloc}
use alib4c.Collect.{Cmp, IsOrder}
use alib4c.Bintree.{
  leaf, Bintree, node_put, tree_fields, a_bintree_put, a_bintree_get, a_bintree_remove,
  a_bintree_axe,
}
use alib4c.Bintree.Order.{IsOrdered, node_put-IsOrdered, node_remove-IsOrdered}
use alib4c.Bintree.Lookup.{
  find, or_null, update, node_get-find, find-node_put, find-node_remove, removed-find,
}
use alib4c.Bintree.Ledger.{
  total, size, errors-node_put, blocks-node_put, freed-node_put, blocks-node_remove,
  freed-node_remove, blocks-node_axe, freed-node_axe,
}

pub record IsValid (t : Bintree) : Type 0 where
  pub order : IsOrder t.key_cmp
  pub ordered : IsOrdered t.key_cmp t.root

-- the map that the tree stands for
abbrev pub view : Bintree → Ptr → Option Ptr
view t = find t.key_cmp t.root

-- what a_bintree_put returned and left
pub record Puts (t : Bintree) (key val : Ptr) (w : World) (out : ℤ × Bintree) (v : World)
    : Type 0 where
  pub code : out.0 ≡ (if head_or_false w.mallocs then success else other)
  pub failed : head_or_false w.mallocs ≡ false → out.1 ≡ t
  pub valid : IsValid out.1
  pub same_cmp : out.1.key_cmp ≡ t.key_cmp
  pub reads :
      (q : Ptr)
      → view out.1 q
        ≡ (if head_or_false w.mallocs then update t.key_cmp (view t) key (some val) q else view t q)
  pub live : IsLive v.errors

-- On a valid tree and a live error stack a_bintree_put returns. With malloc at hand it reports success and the map is
-- updated at the key; when malloc fails it reports A_ERROR_OTHER and the tree is as it was. Both
-- ways the tree is valid and the error stack live.
pub a_bintree_put-Puts :
    (t : Bintree) (key val : Ptr) (w : World)
    → IsValid t
    → IsLive w.errors
    → Returns (a_bintree_put t key val w) (Puts t key val w)
unfolding a_bintree_put a_malloc
a_bintree_put-Puts t key val w valid live = elim (Bool-cases (head_or_false w.mallocs)) [
  | inl e ↦
      let (root', w') = node_put t t.root leaf key val leaf (malloc w).1 in
      (
        (success, record t { root = root' }),
        w',
        rw e,
        record {
          code = rw e;
          failed = λ f. cc;
          valid = record {
            order = valid.order;
            ordered = node_put-IsOrdered t valid.order t.root key val (malloc w).1 valid.ordered;
          };
          same_cmp = refl;
          reads = λ q. rw e (find-node_put t valid.order t.root key val q (malloc w).1);
          live = rw (errors-node_put t t.root key val (malloc w).1) live;
        },
      )
  | inr e ↦ (
    (other, t),
    reported (malloc w).1,
    rw (e, error_ret-pushed {A = Option Block} none (malloc w).1 live)
        (error_code_ret-reported (other, t) (malloc w).1 live),
    record {
      code = rw e;
      failed = λ f. refl;
      valid = valid;
      same_cmp = refl;
      reads = λ q. rw e;
      live = reported-IsLive (malloc w).1 live;
    },
  )
]

-- A new tree is valid and empty.
pub init-view :
    (cmp : Cmp) (kf vf : Bool)
    → IsOrder cmp
    → IsValid (tree_fields cmp kf vf) × ((q : Ptr) → view (tree_fields cmp kf vf) q ≡ none)
unfolding tree_fields
init-view cmp kf vf o = (record { order = o; ordered = tt }, λ q. refl)

-- On a valid tree and a live error stack, with malloc at hand, a_bintree_put of `key` returns a tree
-- in which a_bintree_get reads `val` under each key that compares as equal to `key`, and under any
-- other key what the map held before, NULL where it held nothing.
pub a_bintree_get-put :
    (t : Bintree) (key val : Ptr) (w : World)
    → IsValid t
    → IsLive w.errors
    → head_or_false w.mallocs ≡ true
    → Returns (a_bintree_put t key val w) λ out v.
      (q : Ptr) → a_bintree_get out.1 q ≡ or_null (update t.key_cmp (view t) key (some val) q)
unfolding a_bintree_get
a_bintree_get-put t key val w valid live got =
    let (out, v, run, p) = a_bintree_put-Puts t key val w valid live in
    (out, v, run, λ q. node_get-find out.1 out.1.root q ∙ ap or_null (rw got at (p.reads q)))

-- On a valid tree a_bintree_remove returns what a_bintree_get reads under the key, and leaves a valid
-- tree whose map has lost the keys that compare as equal to it, and no other.
pub remove-get :
    (t : Bintree) (key : Ptr) (w : World)
    → IsValid t
    → let (x, t', w') = a_bintree_remove t key w in
      (x ≡ a_bintree_get t key)
      × IsValid t'
      × ((q : Ptr) → view t' q ≡ update t.key_cmp (view t) key none q)
unfolding a_bintree_remove a_bintree_get
remove-get t key w valid = (
  removed-find t valid.order t.root key w ∙ sym (node_get-find t t.root key),
  record {
    order = valid.order;
    ordered = node_remove-IsOrdered t valid.order t.root key w valid.ordered;
  },
  λ q. find-node_remove t valid.order t.root key q w valid.ordered,
)

-- where the keys of `t` are at some time: in the tree, or freed
abbrev pub ledger : (Ptr → ℕ) → Bintree → World → ℕ
ledger f t w = total f t.root + freed f w.log

-- and its nodes
abbrev pub node_ledger : Bintree → World → ℕ
node_ledger t w = size t.root + blocks_freed w.log

-- On a valid tree that owns its keys a_bintree_remove neither loses a key nor frees one twice: for
-- any weight of the keys, the weight of those in the tree and those freed stays what it was. The same
-- holds of the nodes.
pub remove-ledger :
    (t : Bintree) (key : Ptr) (w : World)
    → IsValid t
    → t.key_free ≡ true
    → let (x, t', w') = a_bintree_remove t key w in
      ((f : Ptr → ℕ) → ledger f t' w' ≡ ledger f t w) × (node_ledger t' w' ≡ node_ledger t w)
unfolding a_bintree_remove
remove-ledger t key w valid owned = (
  λ f. freed-node_remove t valid.order f owned t.root key w valid.ordered,
  blocks-node_remove t valid.order t.root key w valid.ordered,
)

-- With malloc at hand, a_bintree_put on a tree that owns its keys accounts for each key: the new one
-- is in the tree, and a key that it replaced is freed once. One node is in the tree or freed more
-- than before.
pub put-ledger :
    (t : Bintree) (key val : Ptr) (w : World)
    → t.key_free ≡ true
    → head_or_false w.mallocs ≡ true
    → Returns (a_bintree_put t key val w) λ out v.
      ((f : Ptr → ℕ) → ledger f out.1 v ≡ ledger f t w + f key)
      × (node_ledger out.1 v ≡ node_ledger t w + 1)
unfolding a_bintree_put a_malloc
put-ledger t key val w owned got =
    let (root', w') = node_put t t.root leaf key val leaf (malloc w).1 in
    (
      (success, record t { root = root' }),
      w',
      rw got,
      (
        λ f. omega (arith, freed-node_put t f owned t.root key val (malloc w).1),
        omega (arith, blocks-node_put t t.root key val (malloc w).1),
      ),
    )

-- On a tree that owns its keys a_bintree_axe leaves an empty tree, and frees each node and each key
-- once.
pub axe-ledger :
    (t : Bintree) (w : World)
    → t.key_free ≡ true
    → let (t', w') = a_bintree_axe t w in
      (t'.root ≡ leaf)
      × ((f : Ptr → ℕ) → freed f w'.log ≡ total f t.root + freed f w.log)
      × (blocks_freed w'.log ≡ size t.root + blocks_freed w.log)
unfolding a_bintree_axe
axe-ledger t w owned = (refl, λ f. freed-node_axe t f owned t.root w, blocks-node_axe t t.root w)

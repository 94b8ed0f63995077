-- ===== src/Hash/Removing.antt =====
-- a_hash_remove and a_hash_delete of a/hash.c.
use alib4c.Common.{
  ℕ, ◌+◌, ◌<◌, ◌≡◌, ◌≢◌, refl, sym, ap, ◌∙◌, true, Option, none, some, [], ◌∷◌, arith, length, set,
  set-get_or,
}
use alib4c.World.{Ptr, null, World, Returns, ok, emit_if, val_freed}
use alib4c.World.Log.{freed, blocks_freed}
use alib4c.Collect.{Eq}
use alib4c.Hash.{
  Item, Chain, Table, HashTable, item_free, item_list_find, item_list_remove, drop_item,
  a_hash_remove, a_hash_delete,
}
use alib4c.Hash.Reduce.{slot}
use alib4c.Hash.Chain.{val_of, val_of-find, removed-found}
use alib4c.Hash.Buckets.{
  chain, entries-set, remove-IsPlaced, view-remove, length-remove, weight, total-set,
}
use alib4c.Hash.Adding.{slot-inside}
use alib4c.Hash.Extending.{IsValid, map_of, total_in}
use alib4c.Hash.Putting.{update, in_table}
use alib4c.Hash.Methods.{or_null, found, here}
use alib4c.Hash.Clearing.{freed-item_free, kept-item_free}

-- what a_hash_remove returned and left
pub record Removes (h : HashTable) (key : Ptr) (w : World) (out : Ptr × HashTable) (v : World)
    : Type 0 where
  pub value : out.0 ≡ or_null (map_of h key)
  pub reads : (q : Ptr) → map_of out.1 q ≡ update h.equal_func (map_of h) key none q
  pub valid : IsValid out.1
  pub errors : v.errors ≡ w.errors
  pub counted : out.1.count ≡ h.count
  pub there : out.1.table ≢ none
  pub owned :
      h.key_free ≡ true
      → (f : Ptr → ℕ) → total_in f out.1.table + freed f v.log ≡ total_in f h.table + freed f w.log
  pub kept : blocks_freed v.log ≡ blocks_freed w.log

remove_absent :
    (eq : Eq) (g : ℕ) (k : Ptr) (c : Chain)
    → item_list_find eq g k c ≡ none
    → (item_list_remove eq g k c).1 ≡ c
unfolding item_list_find item_list_remove
remove_absent eq g k [] h = refl
remove_absent eq g k (it ∷ c) h = ground (arith, remove_absent eq g k c)

errors-item_free : (h : HashTable) (it : Item) (w : World) → (item_free h it w).errors ≡ w.errors
unfolding item_free
errors-item_free h it w = ground arith

module _ (h : HashTable) (cells : Table) (v : IsValid (in_table h cells)) (key : Ptr)
    (w : World) where
  abbrev place : ℕ
  place = slot (h.hash_func key) h.bits

  abbrev left : Chain
  left =
      (item_list_remove h.equal_func (h.hash_func key) key
        (chain cells (slot (h.hash_func key) h.bits))).1

  abbrev after : Table
  after = set cells place left

  inside : slot (h.hash_func key) h.bits < length cells
  inside =
      slot-inside (in_table h cells) cells v.stored.0 (h.hash_func key) (v.hashed.hash_range key)

  after-IsValid : IsValid (in_table h after)
  after-IsValid = record {
    hashed = v.hashed;
    stored = (
      remove-IsPlaced h.equal_func h.bits cells v.stored.0 h.hash_func v.hashed (h.hash_func key)
          key inside,
      omega (
        arith,
        entries-set cells place left inside,
        length-remove h.equal_func (h.hash_func key) key (chain cells place),
        v.stored.1,
      ),
      v.stored.2,
      v.stored.3,
    );
    narrow = v.narrow;
  }

  after-reads :
      (q : Ptr)
      → map_of (in_table h after) q ≡ update h.equal_func (map_of (in_table h cells)) key none q
  after-reads q = ground (
    arith,
    view-remove h.equal_func h.bits cells v.stored.0 h.hash_func v.hashed (h.hash_func key) key
        inside (h.hash_func q) q,
    v.hashed.hash-eq key q,
  )

  weight-remove :
      (f : Ptr → ℕ) (c : Chain) (it : Item)
      → item_list_find h.equal_func (h.hash_func key) key c ≡ some it
      → weight f (item_list_remove h.equal_func (h.hash_func key) key c).1 + f it.key ≡ weight f c
  unfolding item_list_find item_list_remove
  weight-remove f [] it e = cc
  weight-remove f (jt ∷ c) it e = ground (arith, weight-remove f c it)

  drop_item-Removes :
      (o : Option Item)
      → o ≡ item_list_find h.equal_func (h.hash_func key) key (chain cells place)
      → Returns (drop_item (in_table h cells) place o left w) (Removes (in_table h cells) key w)
  unfolding drop_item
  drop_item-Removes none e =
      let gone : left ≡ chain cells place =
        remove_absent h.equal_func (h.hash_func key) key (chain cells place) (sym e) in
      let same : after ≡ cells = rw gone (set-get_or cells place [] inside) in
      (
        (null, in_table h cells),
        w,
        refl,
        record {
          value =
              ap or_null
                (ap val_of e ∙ val_of-find h.equal_func (h.hash_func key) key (chain cells place));
          reads = λ q. ap (λ t. map_of (in_table h t) q) (sym same) ∙ after-reads q;
          valid = v;
          errors = refl;
          counted = refl;
          there = λ n. cc;
          owned = λ k f. refl;
          kept = refl;
        },
      )
  drop_item-Removes (some it) e = (
    (it.val, in_table h after),
    item_free (in_table h cells) (record it { val = null }) w,
    refl,
    record {
      value =
          ap or_null
            (ap val_of e ∙ val_of-find h.equal_func (h.hash_func key) key (chain cells place));
      reads = after-reads;
      valid = after-IsValid;
      errors = errors-item_free (in_table h cells) (record it { val = null }) w;
      counted = refl;
      there = λ n. cc;
      owned = λ k f. omega (
        arith,
        total-set f cells place left inside,
        weight-remove f (chain cells place) it (sym e),
        freed-item_free (in_table h cells) (record it { val = null }) w f k,
      );
      kept = kept-item_free (in_table h cells) (record it { val = null }) w;
    },
  )

  remove_in : Returns (a_hash_remove (in_table h cells) key w) (Removes (in_table h cells) key w)
  unfolding a_hash_remove
  remove_in =
      let is = removed-found h.equal_func (h.hash_func key) key (chain cells place) in
      let (out, w', run, r) =
        drop_item-Removes
          (item_list_remove h.equal_func (h.hash_func key) key (chain cells place)).0 is in
      (out, w', rw (found h cells v key w, here h cells v key w) run, r)

-- On a valid table that a_hash_put has filled, a_hash_remove returns the value under the key, NULL
-- if there is none. The table stays valid, its map has lost the keys equal to `key` and no other,
-- the error stack is as it was, and the count is not changed. Where the table owns its keys, each
-- key is in it or was freed, once; no block is given back.
pub remove-Removes :
    (h : HashTable) (key : Ptr) (w : World)
    → IsValid h
    → h.table ≢ none
    → Returns (a_hash_remove h key w) (Removes h key w)
remove-Removes h key w v there = go h.table v there
  where
    go :
        (o : Option Table)
        → IsValid (record h { table = o })
        → o ≢ none
        → Returns
            (a_hash_remove (record h { table = o }) key w)
            (Removes (record h { table = o }) key w)
    go none v' n = absurd (n refl)
    go (some cells) v' n = remove_in h cells v' key w

-- On a valid table that a_hash_put has filled, a_hash_delete returns. It leaves what a_hash_remove
-- leaves, a valid table whose map has lost the keys equal to `key`, and then hands the value that was
-- under the key, NULL if there was none, to `val_free`, where that is set.
pub delete-Removes :
    (h : HashTable) (key : Ptr) (w : World)
    → IsValid h
    → h.table ≢ none
    → Returns (a_hash_delete h key w) λ h' v.
      IsValid h'
      × ((q : Ptr) → map_of h' q ≡ update h.equal_func (map_of h) key none q)
      × (u : World) × (a_hash_remove h key w ≡ ok (or_null (map_of h key), h') u)
      × (v ≡ emit_if h'.val_free (val_freed (or_null (map_of h key))) u)
unfolding a_hash_delete
delete-Removes h key w v there =
    let ((x, h'), u, run, r) = remove-Removes h key w v there in
    (
      h',
      emit_if h'.val_free (val_freed x) u,
      rw run,
      (
        r.valid,
        r.reads,
        u,
        run ∙ ap (λ y. ok (y, h') u) r.value,
        ap (λ y. emit_if h'.val_free (val_freed y) u) r.value,
      ),
    )

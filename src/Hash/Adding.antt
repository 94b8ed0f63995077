-- ===== src/Hash/Adding.antt =====
-- add_item of a/hash.c: it returns, and what it leaves.
use alib4c.Common.{
  ℕ, ◌+◌, ◌^◌, ◌≤◌, ◌<◌, ◌≡◌, refl, true, Option, none, some, [], ◌∷◌, if◌then◌else◌, arith, length,
  set, get_elem?-get_or,
}
use alib4c.World.{Ptr, World, ok}
use alib4c.World.Log.{freed}
use alib4c.Swap.{swap_xor_lem}
use alib4c.Collect.{Hash, IsHashed}
use alib4c.Hash.{
  Item, Table, HashTable, item_list_find, write_val, item_free, chain_at, add_to, add_item,
}
use alib4c.Hash.Reduce.{slot, hash_reduce-lt, reduced-slot}
use alib4c.Hash.Chain.{same}
use alib4c.Hash.Buckets.{
  chain, IsPlaced, view, entries, entries-set, push-IsPlaced, view-push, write-IsPlaced, view-write,
  length-write_val, total, total-set, weight-write_val,
}

pub chain_at-chain :
    (cells : Table) (i : ℕ) (w : World)
    → i < length cells
    → chain_at (some cells) i w ≡ ok (chain cells i) w
unfolding chain_at
chain_at-chain cells i w h = rw (get_elem?-get_or cells i [] h, chain_at)

-- the duplicate that add_item finds, and what it leaves with and without one
abbrev pub dup_of : HashTable → Table → Item → Option Item
dup_of h cells it = item_list_find h.equal_func it.hash it.key (chain cells (slot it.hash h.bits))

abbrev pub put_in : HashTable → Table → Item → Option Item → Table
put_in h cells it none = set cells (slot it.hash h.bits) (it ∷ chain cells (slot it.hash h.bits))
put_in h cells it (some old) =
    set cells (slot it.hash h.bits)
      (write_val h.equal_func it.hash it.key it.val (chain cells (slot it.hash h.bits)))

-- The key of the new item and the old value are freed.
abbrev pub freed_by : HashTable → Item → Option Item → World → World
freed_by h it none w = w
freed_by h it (some old) w = item_free h (record it { val = old.val }) w

module _ (h : HashTable) (cells : Table) (p : IsPlaced h.equal_func h.bits cells) where
  pub slot-inside : (g : ℕ) → g < 2 ^ 32 → slot g h.bits < length cells
  slot-inside g small = rw p.width (hash_reduce-lt g h.bits small p.narrow).1

  module _ (it : Item) (small : it.hash < 2 ^ 32) where
    add_to-put_in :
        (dup : Option Item) (w : World)
        → add_to h cells it (slot it.hash h.bits) (chain cells (slot it.hash h.bits)) dup w
          ≡ ok (put_in h cells it dup) (freed_by h it dup w)
    unfolding add_to
    add_to-put_in none w = refl
    add_to-put_in (some old) w = rw (swap_xor_lem old.val it.val)

    pub add_item-put_in :
        (w : World)
        → add_item h cells it w
          ≡ ok (put_in h cells it (dup_of h cells it)) (freed_by h it (dup_of h cells it) w)
    unfolding add_item
    add_item-put_in w =
        rw
          (
            reduced-slot it.hash h.bits w small p.narrow,
            chain_at-chain cells (slot it.hash h.bits) w (slot-inside it.hash small),
          )
          (add_to-put_in (dup_of h cells it) w)

    module _ (hf : Hash) (e : IsHashed h.equal_func hf) where
      pub put_in-IsPlaced :
          (dup : Option Item)
          → dup_of h cells it ≡ dup
          → IsPlaced h.equal_func h.bits (put_in h cells it dup)
      put_in-IsPlaced none d =
          push-IsPlaced h.equal_func h.bits cells p hf e it small (slot-inside it.hash small) d
      put_in-IsPlaced (some old) d =
          write-IsPlaced h.equal_func h.bits cells p hf e it small (slot-inside it.hash small)
            it.val

      pub view-put_in :
          (dup : Option Item) (g : ℕ) (k : Ptr)
          → dup_of h cells it ≡ dup
          → view h.equal_func h.bits (put_in h cells it dup) g k ≡ (
              if same h.equal_func it.hash it.key g k
              then some it.val
              else view h.equal_func h.bits cells g k)
      view-put_in none g k d =
          view-push h.equal_func h.bits cells p hf e it small (slot-inside it.hash small) g k
      view-put_in (some old) g k d =
          view-write h.equal_func h.bits cells p hf e it small (slot-inside it.hash small) it.val
            old g k d

    pub entries-put_in : (dup : Option Item) → entries (put_in h cells it dup) ≤ entries cells + 1
    entries-put_in none = omega (
      arith,
      entries-set cells (slot it.hash h.bits) (it ∷ chain cells (slot it.hash h.bits))
          (slot-inside it.hash small),
    )
    entries-put_in (some old) =
        let c = write_val h.equal_func it.hash it.key it.val (chain cells (slot it.hash h.bits)) in
        omega (
          arith,
          entries-set cells (slot it.hash h.bits) c (slot-inside it.hash small),
          length-write_val h.equal_func it.hash it.key it.val (chain cells (slot it.hash h.bits)),
        )

    -- For any weight of the keys: what the table holds and what the log frees gain the new key.
    pub total-put_in :
        (f : Ptr → ℕ) (dup : Option Item) (w : World)
        → h.key_free ≡ true
        → total f (put_in h cells it dup) + freed f (freed_by h it dup w).log
          ≡ total f cells + freed f w.log + f it.key
    unfolding item_free
    total-put_in f none w owned = omega (
      arith,
      total-set f cells (slot it.hash h.bits) (it ∷ chain cells (slot it.hash h.bits))
          (slot-inside it.hash small),
    )
    total-put_in f (some old) w owned =
        let c = write_val h.equal_func it.hash it.key it.val (chain cells (slot it.hash h.bits)) in
        ground (
          arith,
          total-set f cells (slot it.hash h.bits) c (slot-inside it.hash small),
          weight-write_val h.equal_func it.hash it.key f it.val (chain cells (slot it.hash h.bits)),
        )

-- ===== src/Hash/Rehash.antt =====
-- The two loops of extend in a/hash.c, as one loop over the items of the old table.
use alib4c.Common.{
  ℕ, suc, ◌+◌, ◌^◌, ◌≤◌, ◌<◌, ◌≡◌, refl, true, Option, none, some, [], ◌∷◌, if◌then◌else◌, arith,
  length, get_or-set,
}
use alib4c.World.{Ptr, World, ok}
use alib4c.Collect.{Eq, Hash, IsHashed}
use alib4c.Hash.{Item, Chain, Table, HashTable, item_list_find, matches, rehash_chain}
use alib4c.Hash.Reduce.{slot}
use alib4c.Hash.Chain.{occ, find_val, find_val-none}
use alib4c.Hash.Buckets.{
  chain, IsPlaced, view, entries, InRange, entries-set, weight, total, total-set,
}
use alib4c.Hash.Adding.{dup_of, put_in, slot-inside, add_item-put_in, put_in-IsPlaced, view-put_in}

abbrev pub or_else : Option Ptr → Option Ptr → Option Ptr
or_else none b = b
or_else (some v) b = some v

find_none_of_occ :
    (eq : Eq) (g : ℕ) (k : Ptr) (c : Chain) → occ eq g k c ≡ 0 → item_list_find eq g k c ≡ none
unfolding item_list_find
find_none_of_occ eq g k [] h = refl
find_none_of_occ eq g k (it ∷ c) h = ground (arith, find_none_of_occ eq g k c)

matches_self :
    (eq : Eq) (hf : Hash) → IsHashed eq hf → (it : Item) → matches eq it.hash it.key it ≡ true
unfolding matches
matches_self eq hf e it = ground (arith, e.eq_refl it.key)

module _ (h : HashTable) (hf : Hash) (e : IsHashed h.equal_func hf) where
  -- the number of items under a hash and a key in a table, by its home chain
  abbrev held : Table → ℕ → Ptr → ℕ
  held cells g k = occ h.equal_func g k (chain cells (slot g h.bits))

  -- `es` moved to `cells`, without a duplicate
  pub record Moved (es : Chain) (cells : Table) (t : Table) : Type 0 where
    pub placed : IsPlaced h.equal_func h.bits t
    pub reads :
        (g : ℕ) (k : Ptr)
        → view h.equal_func h.bits t g k
          ≡ or_else (find_val h.equal_func g k es) (view h.equal_func h.bits cells g k)
    pub number : entries t ≡ length es + entries cells
    pub weighs : (f : Ptr → ℕ) → total f t ≡ weight f es + total f cells

  occ-push :
      (cells : Table) (it : Item) (g : ℕ) (k : Ptr)
      → slot it.hash h.bits < length cells
      → held (put_in h cells it none) g k
        ≡ (if matches h.equal_func g k it then suc (held cells g k) else held cells g k)
  unfolding matches
  occ-push cells it g k inside =
      rw
        (get_or-set cells (slot it.hash h.bits) (slot g h.bits)
          (it ∷ chain cells (slot it.hash h.bits)) [] inside)
        (ground arith)

  Moved-cons :
      (it : Item) (es : Chain) (cells t : Table)
      → IsPlaced h.equal_func h.bits cells
      → it.hash < 2 ^ 32
      → dup_of h cells it ≡ none
      → ((g : ℕ) (k : Ptr) → occ h.equal_func g k (it ∷ es) + held cells g k ≤ 1)
      → Moved es (put_in h cells it none) t
      → Moved (it ∷ es) cells t
  unfolding matches
  Moved-cons it es cells t p small fresh apart m = record {
    placed = m.placed;
    reads = λ g k. ground (
      arith,
      m.reads g k,
      view-put_in h cells p it small hf e none g k fresh,
      find_val-none h.equal_func g k es,
      apart g k,
    );
    number = omega (
      arith,
      m.number,
      entries-set cells (slot it.hash h.bits) (it ∷ chain cells (slot it.hash h.bits))
          (slot-inside h cells p it.hash small),
    );
    weighs = λ f. omega (
      arith,
      m.weighs f,
      total-set f cells (slot it.hash h.bits) (it ∷ chain cells (slot it.hash h.bits))
          (slot-inside h cells p it.hash small),
    );
  }

  pub rehash_chain-Moved :
      (es : Chain) (cells : Table) (w : World)
      → IsPlaced h.equal_func h.bits cells
      → InRange es
      → ((g : ℕ) (k : Ptr) → occ h.equal_func g k es + held cells g k ≤ 1)
      → (t : Table) × (rehash_chain h es cells w ≡ ok t w) × Moved es cells t
  unfolding rehash_chain
  rehash_chain-Moved [] cells w p small apart = (
    cells,
    refl,
    record { placed = p; reads = λ g k. refl; number = omega arith; weighs = λ f. omega arith },
  )
  rehash_chain-Moved (it ∷ es) cells w p small apart =
      let inside = slot-inside h cells p it.hash small.0 in
      let fresh : dup_of h cells it ≡ none =
        find_none_of_occ h.equal_func it.hash it.key (chain cells (slot it.hash h.bits))
          (ground (arith, apart it.hash it.key, matches_self h.equal_func hf e it)) in
      let next : Table = put_in h cells it none in
      let (t, run, m) =
        rehash_chain-Moved es next w (put_in-IsPlaced h cells p it small.0 hf e none fresh) small.1
          (λ g k. ground (arith, apart g k, occ-push cells it g k inside)) in
      (
        t,
        rw (add_item-put_in h cells p it small.0 w, fresh) run,
        Moved-cons it es cells t p small.0 fresh apart m,
      )

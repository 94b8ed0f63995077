-- ===== src/Hash/Extending.antt =====
-- extend of a/hash.c: what a valid table is, and that growing one keeps its map.
use alib4c.Common.{
  ℕ, ◌+◌, ◌-◌, ◌^◌, ◌≤◌, ◌<◌, ◌≡◌, refl, ap, ◌∙◌, true, false, Option, none, some, [], ◌==◌,
  if◌then◌else◌, arith, replicate,
}
use native.Mathlib.Nat.{one-le-pow}
use alib4c.World.{Ptr, World, Returns, ok, malloc, head_or_false, emit, block_freed}
use alib4c.World.Log.{freed}
use alib4c.Error.{success, other}
use alib4c.Error.Live.{IsLive, reported, get_alib_code-reported}
use alib4c.Mem.Nulls.{malloc_null-nulls}
use alib4c.Collect.{Eq, Hash, IsHashed}
use alib4c.Hash.{Table, HashTable, bits2size, rehash_old, extended, extend}
use alib4c.Hash.Reduce.{slot}
use alib4c.Hash.Buckets.{IsPlaced, view, entries, total}
use alib4c.Hash.Rehash.{Moved, or_else, rehash_chain-Moved}
use alib4c.Hash.Flat.{
  flat, length-flat, weight-flat, total-replicate, InRange-flat, occ-flat, find_val-flat,
  rehash-flat, chains-nulls, replicate-IsPlaced, entries-replicate, view-replicate, occ-replicate,
}

-- A table that is there holds at most `count` items, and at most as many as it has chains.
abbrev pub IsStored : Eq → ℕ → ℕ → Option Table → Type 0
IsStored eq bits count none = (bits ≡ 0) × (count ≡ 0)
IsStored eq bits count (some cells) =
    IsPlaced eq bits cells
    × (entries cells ≤ count)
    × (count ≤ bits2size bits)
    × (count ≡ 0 → bits ≡ 0)

pub record IsValid (h : HashTable) : Type 0 where
  pub hashed : IsHashed h.equal_func h.hash_func
  pub stored : IsStored h.equal_func h.bits h.count h.table
  -- the size of the table is an `int`
  pub narrow : h.bits < 31

-- the map that a table stands for
abbrev pub map_in : Eq → Hash → ℕ → Option Table → Ptr → Option Ptr
map_in eq hf bits none q = none
map_in eq hf bits (some cells) q = view eq bits cells (hf q) q

abbrev pub map_of : HashTable → Ptr → Option Ptr
map_of h = map_in h.equal_func h.hash_func h.bits h.table

abbrev pub entries_in : Option Table → ℕ
entries_in none = 0
entries_in (some cells) = entries cells

abbrev pub total_in : (Ptr → ℕ) → Option Table → ℕ
total_in f none = 0
total_in f (some cells) = total f cells

module _ (h : HashTable) (bits : ℕ) (e : IsHashed h.equal_func h.hash_func) where
  abbrev grown : HashTable
  grown = record h { bits = bits }

  -- the items of a placed table, at another number of bits
  rehash_old-Moved :
      (old : Table) (b : ℕ) (w : World)
      → bits < 31
      → IsPlaced h.equal_func b old
      → (t : Table) × (rehash_old grown (some old) (replicate (2 ^ bits) []) w
          ≡ ok t (emit block_freed w))
        × Moved grown h.hash_func e (flat old) (replicate (2 ^ bits) []) t
  unfolding rehash_old
  rehash_old-Moved old b w few p =
      let (t, run, m) =
        rehash_chain-Moved grown h.hash_func e (flat old) (replicate (2 ^ bits) []) w
          (replicate-IsPlaced h.equal_func bits few) (InRange-flat old p.ranged)
          (λ g k. omega (
            arith,
            occ-flat h.equal_func g k old (slot g b) (p.home g k),
            p.once g k (slot g b),
            occ-replicate h.equal_func (2 ^ bits) (slot g bits) g k,
          )) in
      (t, rw (rehash-flat grown old (replicate (2 ^ bits) []) w, run), m)

  -- `old` moved to a new table: what is in that, and the world
  pub record Grown (old : Option Table) (w : World) (t : Table) (v : World) : Type 0 where
    pub placed : IsPlaced h.equal_func bits t
    pub number : entries t ≡ entries_in old
    pub reads :
        (q : Ptr)
        → view h.equal_func bits t (h.hash_func q) q ≡ map_in h.equal_func h.hash_func h.bits old q
    pub weighs : (f : Ptr → ℕ) → total f t + freed f v.log ≡ total_in f old + freed f w.log
    pub errors : v.errors ≡ w.errors
    pub mallocs : v.mallocs ≡ w.mallocs

  or_else-none : (a : Option Ptr) → or_else a none ≡ a
  or_else-none none = refl
  or_else-none (some v) = refl

  rehash_old-Grown :
      (old : Option Table) (w : World)
      → bits < 31
      → IsStored h.equal_func h.bits h.count old
      → Returns (rehash_old grown old (replicate (2 ^ bits) []) w) (Grown old w)
  unfolding rehash_old
  rehash_old-Grown none w few p = (
    replicate (2 ^ bits) [],
    w,
    refl,
    record {
      placed = replicate-IsPlaced h.equal_func bits few;
      number = entries-replicate (2 ^ bits);
      reads = λ q. view-replicate h.equal_func bits (2 ^ bits) (h.hash_func q) q;
      weighs = λ f. omega (arith, total-replicate f (2 ^ bits));
      errors = refl;
      mallocs = refl;
    },
  )
  rehash_old-Grown (some old) w few p =
      let (t, run, m) = rehash_old-Moved old h.bits w few p.0 in
      (
        t,
        emit block_freed w,
        run,
        record {
          placed = m.placed;
          number = omega (arith, m.number, length-flat old, entries-replicate (2 ^ bits));
          reads = λ q.
              m.reads (h.hash_func q) q
              ∙ ap (or_else _) (view-replicate h.equal_func bits (2 ^ bits) (h.hash_func q) q)
              ∙ or_else-none _
              ∙ find_val-flat h.equal_func (h.hash_func q) q old (slot (h.hash_func q) h.bits)
                  (p.0.home (h.hash_func q) q);
          weighs = λ f. omega (arith, m.weighs f, weight-flat f old, total-replicate f (2 ^ bits));
          errors = refl;
          mallocs = refl;
        },
      )

-- the number of bits that extend asks for
abbrev pub bits_after : HashTable → ℕ
bits_after h = if h.count == 0 then h.bits else h.bits + 1

-- the table that extend leaves
abbrev pub with_table : HashTable → Table → HashTable
with_table h t = record h { bits = bits_after h; table = some t }

bits_restored :
    (h : HashTable)
    → (h.count ≡ 0 → h.bits ≡ 0)
    → (if bits_after h == 0 then bits_after h else bits_after h - 1) ≡ h.bits
bits_restored h z = ground arith

pub IsStored-bits :
    (eq : Eq) (bits count : ℕ) (t : Option Table) → IsStored eq bits count t → count ≡ 0 → bits ≡ 0
IsStored-bits eq bits count none s = λ z. s.0
IsStored-bits eq bits count (some t) s = s.3

module _ (h : HashTable) (w : World) (v : IsValid h) (live : IsLive w.errors) where
  -- On a valid table of fewer than 30 bits, with a live error stack and malloc at hand, extend
  -- reports success: the table has the new number of bits, as many chains, the items of the old
  -- table, no more and no fewer, and reads as before.
  pub extend-Grown :
      h.bits < 30
      → head_or_false w.mallocs ≡ true
      → (t : Table) × (w' : World) × (extend h w ≡ ok (success, with_table h t) w')
        × Grown h (bits_after h) v.hashed h.table (malloc w).1 t w'
  unfolding extend extended
  extend-Grown small got =
      let pos : 0 < 2 ^ bits_after h = one-le-pow (bits_after h) 2 (omega arith) in
      let few : bits_after h < 31 = ground (arith, small) in
      let asked = malloc_null-nulls (2 ^ bits_after h) w pos live in
      let (t, w', run, g) =
        rehash_old-Grown h (bits_after h) v.hashed h.table (malloc w).1 few v.stored in
      (t, w', rw (asked, got, chains-nulls (2 ^ bits_after h) (malloc w).1, run), g)

  -- When malloc fails, extend reports it and leaves the table as it was.
  pub extend-failed :
      head_or_false w.mallocs ≡ false → extend h w ≡ ok (other, h) (reported (malloc w).1)
  unfolding extend extended
  extend-failed none_left =
      let pos : 0 < 2 ^ bits_after h = one-le-pow (bits_after h) 2 (omega arith) in
      let asked = malloc_null-nulls (2 ^ bits_after h) w pos live in
      let restored = bits_restored h (IsStored-bits h.equal_func h.bits h.count h.table v.stored) in
      rw (asked, none_left, get_alib_code-reported (malloc w).1 live, restored)

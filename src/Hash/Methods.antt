-- ===== src/Hash/Methods.antt =====
-- The functions of a/hash.h on whole tables: they return, and act on the map that the table is.
use alib4c.Common.{
  ◌<◌, ℕ, ◌+◌, ◌≤◌, ◌≡◌, ◌≢◌, refl, ap, ◌∙◌, ◌⊎◌, ℤ, Bool, true, false, ◌||◌, Option, none, some,
  ◌==◌, ltb, Bool-cases, inl, inr, arith,
}
use native.Mathlib.Nat.{one-le-pow, pow-suc}
use alib4c.World.{Ptr, null, World, Returns, ok, fault, malloc, head_or_false}
use alib4c.Error.{other}
use alib4c.Error.Live.{IsLive, reported, reported-IsLive, freed-reported}
use alib4c.Collect.{Eq, Hash, IsHashed}
use alib4c.Hash.{
  Item, Table, HashTable, bits2size, reduced, chain_at, val_or_null, table_fields, a_hash_put,
  a_hash_get, a_hash_remove,
}
use alib4c.Hash.Reduce.{slot, reduced-slot}
use alib4c.Hash.Chain.{val_of, val_of-find}
use alib4c.Hash.Buckets.{chain}
use alib4c.Hash.Adding.{chain_at-chain, slot-inside}
use alib4c.Hash.Extending.{
  IsStored, IsValid, map_of, entries_in, bits_after, with_table, Grown, extend-Grown, extend-failed,
  IsStored-bits,
}
use alib4c.Hash.Putting.{Stored, Refused, Puts, in_table, put_item-Puts}

count-le :
    (eq : Eq) (bits count : ℕ) (t : Option Table)
    → IsStored eq bits count t
    → count ≤ bits2size bits
count-le eq bits count none s = rw s.1 (omega arith)
count-le eq bits count (some t) s = s.2

entries-le :
    (eq : Eq) (bits count : ℕ) (t : Option Table) → IsStored eq bits count t → entries_in t ≤ count
entries-le eq bits count none s = omega arith
entries-le eq bits count (some t) s = s.1

module _ (h : HashTable) (v : IsValid h) where
  -- there is room for one more item once extend has been called
  room_after : h.count + 1 ≤ bits2size (bits_after h)
  room_after = ground (
    arith,
    count-le h.equal_func h.bits h.count h.table v.stored,
    pow-suc 2 h.bits,
    one-le-pow h.bits 2,
  )

  Grown-IsValid :
      (t : Table) (w w' : World)
      → Grown h (bits_after h) v.hashed h.table w t w'
      → h.bits < 30
      → IsValid (with_table h t)
  Grown-IsValid t w w' g small = record {
    hashed = v.hashed;
    stored = (
      g.placed,
      omega (arith, g.number, entries-le h.equal_func h.bits h.count h.table v.stored),
      omega (arith, room_after),
      λ z. ground (arith, IsStored-bits h.equal_func h.bits h.count h.table v.stored z),
    );
    narrow = ground arith;
  }

  outcome_before :
      (t : Table) {key val : Ptr} (out : ℤ × HashTable)
      → ((q : Ptr) → map_of (with_table h t) q ≡ map_of h q)
      → Stored (with_table h t) key val out ⊎ Refused (with_table h t) out
      → Stored h key val out ⊎ Refused h out
  outcome_before t {key} {val} out same (inl s) = inl (record {
    code = s.code;
    reads = λ q. ground (arith, s.reads q, same q);
    counted = s.counted;
  })
  outcome_before t out same (inr r) =
      inr (record { code = r.code; reads = λ q. r.reads q ∙ same q; counted = r.counted })

  module _ (key val : Ptr) (w : World) (live : IsLive w.errors) where
    put_grown :
        h.bits < 30
        → ((h.count == 0) || ltb (bits2size h.bits) (h.count + 1)) ≡ true
        → Returns (a_hash_put h key val w) (Puts h key val w)
    unfolding a_hash_put
    put_grown small full = elim (Bool-cases (head_or_false w.mallocs)) [
      | inl e ↦
          let (t, w', run, g) = extend-Grown h w v live small e in
          let (out, w'', run', (o, done, owned, valid, live')) =
            put_item-Puts (record h { bits = bits_after h }) t key val w' (rw g.errors live)
              (Grown-IsValid t (malloc w).1 w' g small) room_after in
          (
            out,
            w'',
            rw (full, run, run'),
            record {
              outcome = outcome_before t out g.reads o;
              answered = λ y z. done (rw g.mallocs z);
              owned = λ k f. omega (arith, owned k f, g.weighs f);
              valid = valid;
              live = live';
            },
          )
      | inr e ↦ (
        (other, h),
        reported (malloc w).1,
        rw (full, extend-failed h w v live e),
        record {
          outcome = inr (record { code = refl; reads = λ q. refl; counted = refl });
          answered = λ y z. cc;
          owned = λ k f. omega (arith, freed-reported f (malloc w).1);
          valid = v;
          live = reported-IsLive (malloc w).1 live;
        },
      )
    ]

-- no call of extend: the table is there, since its count is not 0
put_direct :
    (h : HashTable) (o : Option Table) (key val : Ptr) (w : World)
    → IsValid (record h { table = o })
    → IsLive w.errors
    → ((h.count == 0) || ltb (bits2size h.bits) (h.count + 1)) ≡ false
    → Returns
        (a_hash_put (record h { table = o }) key val w)
        (Puts (record h { table = o }) key val w)
unfolding a_hash_put
put_direct h none key val w v live room = absurd (ground (arith, v.stored.1))
put_direct h (some cells) key val w v live room =
    let (out, w', run, (o, done, owned, valid, live')) =
      put_item-Puts h cells key val w live v (ground arith) in
    (
      out,
      w',
      rw room run,
      record { outcome = o; answered = λ y z. done y; owned = owned; valid = valid; live = live' },
    )

-- On a valid table of fewer than 30 bits and a live error stack a_hash_put returns and leaves the
-- table valid and the stack live. Either it reports success, the map is updated at the keys equal to `key`, and the count is one more; or it reports
-- A_ERROR_OTHER, and map and count are as they were. Where malloc answers twice it is success.
pub a_hash_put-Puts :
    (h : HashTable) (key val : Ptr) (w : World)
    → IsValid h
    → h.bits < 30
    → IsLive w.errors
    → Returns (a_hash_put h key val w) (Puts h key val w)
a_hash_put-Puts h key val w v small live =
    elim (Bool-cases ((h.count == 0) || ltb (bits2size h.bits) (h.count + 1))) [
      | inl full ↦ put_grown h v key val w live small full
      | inr room ↦ put_direct h h.table key val w v live room
    ]

-- A table after a_hash_init is valid and its map is empty.
pub init-map_of :
    (hf : Hash) (eq : Eq) (kf vf : Bool)
    → IsHashed eq hf
    → IsValid (table_fields hf eq kf vf) × ((q : Ptr) → map_of (table_fields hf eq kf vf) q ≡ none)
unfolding table_fields
init-map_of hf eq kf vf e =
    (record { hashed = e; stored = (refl, refl); narrow = omega arith }, λ q. refl)

-- `none` read as NULL
abbrev pub or_null : Option Ptr → Ptr
or_null none = null
or_null (some v) = v

val_or_null-val_of : (o : Option Item) (a : Option Ptr) → val_of o ≡ a → val_or_null o ≡ or_null a
val_or_null-val_of none a h = rw (← h)
val_or_null-val_of (some it) a h = rw (← h)

module _ (h : HashTable) (cells : Table) (v : IsValid (in_table h cells)) (key : Ptr)
    (w : World) where
  abbrev home : ℕ
  home = slot (h.hash_func key) h.bits

  pub found : reduced (h.hash_func key) h.bits w ≡ ok (slot (h.hash_func key) h.bits) w
  found = reduced-slot (h.hash_func key) h.bits w (v.hashed.hash_range key) v.narrow

  pub here :
      chain_at (some cells) (slot (h.hash_func key) h.bits) w
      ≡ ok (chain cells (slot (h.hash_func key) h.bits)) w
  here =
      chain_at-chain cells (slot (h.hash_func key) h.bits) w (
        slot-inside (in_table h cells) cells v.stored.0 (h.hash_func key) (v.hashed.hash_range key))

  get_in : a_hash_get (in_table h cells) key w ≡ ok (or_null (map_of (in_table h cells) key)) w
  unfolding a_hash_get
  get_in =
      rw (found, here)
        (ap (λ x. ok x w)
          (val_or_null-val_of _ _ (
            val_of-find h.equal_func (h.hash_func key) key
              (chain cells (slot (h.hash_func key) h.bits)))))

-- a_hash_get reads the map, and changes nothing, on a valid table that a_hash_put has filled: NULL
-- stands for a key that is not there.
pub get-map_of :
    (h : HashTable) (key : Ptr) (w : World)
    → IsValid h
    → h.table ≢ none
    → a_hash_get h key w ≡ ok (or_null (map_of h key)) w
get-map_of h key w v there = go h.table v there
  where
    go :
        (o : Option Table)
        → IsValid (record h { table = o })
        → o ≢ none
        → a_hash_get (record h { table = o }) key w
          ≡ ok (or_null (map_of (record h { table = o }) key)) w
    go none v' n = absurd (n refl)
    go (some cells) v' n = get_in h cells v' key w

-- On a table that nothing was put in yet, a_hash_get and a_hash_remove read through NULL, whatever
-- the key, though the table is valid.
pub unused_table_faults :
    (hf : Hash) (eq : Eq) (kf vf : Bool) (key : Ptr) (w : World)
    → IsHashed eq hf
    → (a_hash_get (table_fields hf eq kf vf) key w ≡ fault)
      × (a_hash_remove (table_fields hf eq kf vf) key w ≡ fault)
unfolding table_fields a_hash_get a_hash_remove chain_at
unused_table_faults hf eq kf vf key w e =
    let i = reduced-slot (hf key) 0 w (e.hash_range key) (omega arith) in (rw i, rw i)

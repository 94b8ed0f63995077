-- ===== src/Hash/Putting.antt =====
-- a_hash_put of a/hash.c, with and without a call of extend.
use alib4c.Common.{
  ◌<◌, ℕ, ◌+◌, ◌≤◌, ◌≡◌, refl, ◌⊎◌, ℤ, true, false, Option, none, some, if◌then◌else◌, Bool-cases,
  inl, inr, arith,
}
use alib4c.World.{Ptr, World, Returns, ok, malloc, head_or_false, rest}
use alib4c.World.Log.{freed}
use alib4c.Error.{success, other}
use alib4c.Error.Live.{
  IsLive, reported, get_alib_code-reported, reported-IsLive, freed-reported, error_ret-pushed,
}
use alib4c.Mem.{Block, a_malloc}
use alib4c.Collect.{Eq, IsHashed}
use alib4c.Hash.{Item, Table, HashTable, bits2size, item_free, is_success, put_item}
use alib4c.Hash.Buckets.{IsPlaced, entries}
use alib4c.Hash.Adding.{
  dup_of, put_in, freed_by, add_item-put_in, put_in-IsPlaced, view-put_in, entries-put_in,
  total-put_in,
}
use alib4c.Hash.Extending.{IsValid, map_of, total_in}

-- a map, changed at the keys equal to `key`
abbrev pub update : Eq → (Ptr → Option Ptr) → Ptr → Option Ptr → Ptr → Option Ptr
update eq f key x q = if eq key q then x else f q

-- the call stored the pair
pub record Stored (h : HashTable) (key val : Ptr) (out : ℤ × HashTable) : Type 0 where
  pub code : out.0 ≡ success
  pub reads : (q : Ptr) → map_of out.1 q ≡ update h.equal_func (map_of h) key (some val) q
  pub counted : out.1.count ≡ h.count + 1

-- or it failed, and stored nothing
pub record Refused (h : HashTable) (out : ℤ × HashTable) : Type 0 where
  pub code : out.0 ≡ other
  pub reads : (q : Ptr) → map_of out.1 q ≡ map_of h q
  pub counted : out.1.count ≡ h.count

errors-freed_by :
    (h : HashTable) (it : Item) (dup : Option Item) (w : World)
    → (freed_by h it dup w).errors ≡ w.errors
unfolding item_free
errors-freed_by h it none w = refl
errors-freed_by h it (some old) w = ground arith

abbrev pub in_table : HashTable → Table → HashTable
in_table h cells = record h { table = some cells }

abbrev pub item_for : HashTable → Ptr → Ptr → Item
item_for h key val = record { hash = h.hash_func key; key = key; val = val }

module _ (h : HashTable) (cells : Table) (key val : Ptr) (w : World) (live : IsLive w.errors) where
  module _ (e : IsHashed h.equal_func h.hash_func) (p : IsPlaced h.equal_func h.bits cells) where
    abbrev it : Item
    it = item_for h key val

    abbrev dup : Option Item
    dup = dup_of h cells (item_for h key val)

    abbrev stored : HashTable
    stored = record h {
      table = some (put_in h cells (item_for h key val) dup);
      count = h.count + 1;
    }

    put_item-run :
        head_or_false w.mallocs ≡ true
        → put_item (in_table h cells) key val w
          ≡ ok (success, stored) (freed_by (in_table h cells) it dup (malloc w).1)
    unfolding put_item a_malloc
    put_item-run got =
        rw (got, add_item-put_in (in_table h cells) cells p it (e.hash_range key) (malloc w).1)

    put_item-Stored : Stored (in_table h cells) key val (success, stored)
    put_item-Stored = record {
      code = refl;
      reads = λ q. ground (
        arith,
        view-put_in h cells p it (e.hash_range key) h.hash_func e dup (h.hash_func q) q refl,
        e.hash-eq key q,
      );
      counted = refl;
    }

    stored-IsValid :
        entries cells ≤ h.count → h.count + 1 ≤ bits2size h.bits → h.bits < 31 → IsValid stored
    stored-IsValid few room narrow = record {
      hashed = e;
      stored = (
        put_in-IsPlaced h cells p it (e.hash_range key) h.hash_func e dup refl,
        omega (arith, entries-put_in h cells p it (e.hash_range key) dup),
        room,
        λ z. absurd (omega arith),
      );
      narrow = narrow;
    }

  put_item-failed :
      (h' : HashTable)
      → head_or_false w.mallocs ≡ false
      → put_item h' key val w ≡ ok (other, h') (reported (malloc w).1)
  unfolding put_item a_malloc
  put_item-failed h' none_left = rw (
    none_left,
    error_ret-pushed {A = Option Block} none (malloc w).1 live,
    get_alib_code-reported (malloc w).1 live,
  )

-- The keys that the table holds and those freed: `gained` is the new key, if it was stored.
abbrev pub gained : (Ptr → ℕ) → Ptr → ℤ → ℕ
gained f key code = if is_success code then f key else 0

abbrev pub Owns : HashTable → Ptr → World → ℤ × HashTable → World → Type 0
Owns h key w out v =
    h.key_free ≡ true
    → (f : Ptr → ℕ)
    → total_in f out.1.table + freed f v.log
      ≡ total_in f h.table + freed f w.log + gained f key out.0

-- what a_hash_put returned and left
pub record Puts (h : HashTable) (key val : Ptr) (w : World) (out : ℤ × HashTable) (v : World)
    : Type 0 where
  pub outcome : Stored h key val out ⊎ Refused h out
  pub answered :
      head_or_false w.mallocs ≡ true → head_or_false (rest w.mallocs) ≡ true → out.0 ≡ success
  pub owned : Owns h key w out v
  pub valid : IsValid out.1
  pub live : IsLive v.errors

-- the item is put in a table that is there, with room for one more
pub put_item-Puts :
    (h : HashTable) (cells : Table) (key val : Ptr) (w : World)
    → IsLive w.errors
    → IsValid (in_table h cells)
    → h.count + 1 ≤ bits2size h.bits
    → Returns (put_item (in_table h cells) key val w) λ out v'.
      (Stored (in_table h cells) key val out ⊎ Refused (in_table h cells) out)
      × (head_or_false w.mallocs ≡ true → out.0 ≡ success)
      × Owns (in_table h cells) key w out v'
      × IsValid out.1
      × IsLive v'.errors
put_item-Puts h cells key val w live v room = elim (Bool-cases (head_or_false w.mallocs)) [
  | inl e ↦ (
    (success, stored h cells key val w live v.hashed v.stored.0),
    freed_by (in_table h cells) (item_for h key val) (dup_of h cells (item_for h key val))
        (malloc w).1,
    put_item-run h cells key val w live v.hashed v.stored.0 e,
    (
      inl (put_item-Stored h cells key val w live v.hashed v.stored.0),
      λ _. refl,
      λ k f.
          total-put_in (in_table h cells) cells v.stored.0 (item_for h key val)
            (v.hashed.hash_range key) f (dup_of h cells (item_for h key val)) (malloc w).1 k,
      stored-IsValid h cells key val w live v.hashed v.stored.0 v.stored.1 room v.narrow,
      rw
          (errors-freed_by (in_table h cells) (item_for h key val)
            (dup_of h cells (item_for h key val)) (malloc w).1)
          live,
    ),
  )
  | inr e ↦ (
    (other, in_table h cells),
    reported (malloc w).1,
    put_item-failed h cells key val w live (in_table h cells) e,
    (
      inr (record { code = refl; reads = λ q. refl; counted = refl }),
      λ y. cc,
      λ k f. omega (arith, freed-reported f (malloc w).1),
      v,
      reported-IsLive (malloc w).1 live,
    ),
  )
]

-- ===== src/Tests/Tables.antt =====
-- The table of a/hash.c, with the stock hash and equality of words.
use alib4c.Common.{ℕ, ◌+◌, ◌^◌, ◌<◌, ◌≡◌, ◌≢◌, true, some, none, refl, arith}
use alib4c.World.{Ptr, World, Returns, ok}
use alib4c.World.Log.{freed, blocks_freed}
use alib4c.Error.{success}
use alib4c.Collect.{IsHashed}
use alib4c.Collect.Compare.{a_collect_eq_uintptr}
use alib4c.Hash.{
  HashTable, hash_reduce, table_fields, a_hash_put, a_hash_get, a_hash_remove, a_hash_clean,
}
use alib4c.Hash.Digest.{a_hash_joat_ptrval, ptrval-IsHashed}
use alib4c.Hash.Reduce.{slot, hash_reduce-lt}
use alib4c.Hash.Extending.{IsValid, map_of, total_in}
use alib4c.Hash.Putting.{update, Puts}
use alib4c.Hash.Methods.{or_null, init-map_of, a_hash_put-Puts}
use alib4c.Hash.PutGet.{a_hash_get-put}
use alib4c.Hash.Removing.{Removes, remove-Removes}
use alib4c.Hash.Clearing.{table_blocks, clean-owned}
use alib4c.Tests.Samples.{ready, exhausted}

joat-IsHashed : IsHashed a_collect_eq_uintptr a_hash_joat_ptrval
joat-IsHashed = ptrval-IsHashed.1

unused : HashTable
unused = table_fields a_hash_joat_ptrval a_collect_eq_uintptr true true

unused-IsValid : IsValid unused
unfolding unused
unused-IsValid = (init-map_of a_hash_joat_ptrval a_collect_eq_uintptr true true joat-IsHashed).0

unused_small : unused.bits < 30
unfolding unused table_fields
unused_small = omega arith

hash_reduce-lt_example :
    (hash_reduce 0xdead_beef 4 ≡ some (slot 0xdead_beef 4)) × (slot 0xdead_beef 4 < 2 ^ 4)
hash_reduce-lt_example = hash_reduce-lt 0xdead_beef 4 (omega arith) (omega arith)

a_hash_put-Puts_example : Returns (a_hash_put unused 7 70 exhausted) (Puts unused 7 70 exhausted)
a_hash_put-Puts_example = a_hash_put-Puts unused 7 70 exhausted unused-IsValid unused_small tt

a_hash_get-put_example : Returns (a_hash_put unused 7 70 ready) λ out v.
    (out.0 ≡ success)
    × IsValid out.1
    × (out.1.table ≢ none)
    × ((q : Ptr) (u : World)
        → a_hash_get out.1 q u
          ≡ ok (or_null (update unused.equal_func (map_of unused) 7 (some 70) q)) u)
a_hash_get-put_example = a_hash_get-put unused 7 70 ready unused-IsValid unused_small tt refl refl

-- the table with one item
used : HashTable
used = a_hash_get-put_example.0.1

used-IsValid : IsValid used
unfolding used
used-IsValid = a_hash_get-put_example.3.1

used_there : used.table ≢ none
unfolding used
used_there = a_hash_get-put_example.3.2

remove-Removes_example : Returns (a_hash_remove used 7 ready) (Removes used 7 ready)
remove-Removes_example = remove-Removes used 7 ready used-IsValid used_there

clean-owned_example :
    let (h', w') = a_hash_clean used ready in
    IsValid h'
    × ((q : Ptr) → map_of h' q ≡ none)
    × (used.key_free ≡ true
        → (f : Ptr → ℕ) → freed f w'.log ≡ total_in f used.table + freed f ready.log)
    × (blocks_freed w'.log ≡ table_blocks used used.table + blocks_freed ready.log)
clean-owned_example = clean-owned used ready used-IsValid

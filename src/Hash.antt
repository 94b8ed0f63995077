-- ===== src/Hash.antt =====
-- The hash table of a/hash.c. A chain of items is the list of them; `table` is `none` for NULL.
pub mod Adding
pub mod Buckets
pub mod Digest
pub mod Chain
pub mod Clearing
pub mod Extending
pub mod Flat
pub mod Methods
pub mod PutGet
pub mod Putting
pub mod Rehash
pub mod Removing
pub mod Reduce
use alib4c.Common.{
  ℕ, zero, suc, ◌+◌, ◌-◌, ◌*◌, ◌/◌, ◌^◌, ℤ, Bool, true, false, ◌&&◌, ◌||◌, not, Option, none, some,
  List, [], ◌∷◌, ◌==◌, ltb, if◌then◌else◌, get_elem?, set, bit_and, bit_xor,
}
use mathlib.Core.Option
use alib4c.World.{
  Ptr, null, key_freed, val_freed, block_freed, World, M, ok, fault, ◌>>=◌, ◌>>◌, pure, emit,
  emit_if, alib,
}
use alib4c.Error.{success, a_error_get_alib_code, a_error_code_ret, invalid_op}
use alib4c.Mem.{a_malloc, a_malloc_null, word_size}
use alib4c.Collect.{Eq, Hash}
use alib4c.Swap.{swap_xor}

pub record Item : Type 0 where
  pub hash : ℕ
  pub key : Ptr
  pub val : Ptr

abbrev pub Chain : Type 0
Chain = List Item

abbrev pub Table : Type 0
Table = List Chain

-- For `key_free` and `val_free`: whether the pointer is set.
pub record HashTable : Type 0 where
  pub table : Option Table
  pub bits : ℕ
  pub count : ℕ
  pub hash_func : Hash
  pub equal_func : Eq
  pub key_free : Bool
  pub val_free : Bool

-- `(0x1)<<bits`, an `int`: the number is right for fewer than 31 bits, which every table has here
abbrev pub bits2size : ℕ → ℕ
bits2size bits = 2 ^ bits

-- the assignments of a_hash_init
unfoldable pub table_fields : Hash → Eq → Bool → Bool → HashTable
table_fields hf eq kf vf = record {
  table = none;
  bits = 0;
  count = 0;
  hash_func = hf;
  equal_func = eq;
  key_free = kf;
  val_free = vf;
}

-- `none` is NULL.
unfoldable pub a_hash_init : Option HashTable → Hash → Eq → Bool → Bool → M (Option HashTable)
a_hash_init none hf eq kf vf w = a_error_code_ret alib invalid_op none w
a_hash_init (some h) hf eq kf vf w = ok (some (table_fields hf eq kf vf)) w

-- `~((~0) << bits)`; for less than 32 bits
abbrev pub mask : ℕ → ℕ
mask bits = 2 ^ bits - 1

-- `while(val)`; `none` means that the fuel ran out. The shift is that of C for less than 32 bits.
unfoldable pub reduce_loop : ℕ → (bits val ret : ℕ) → Option ℕ
reduce_loop zero bits val ret = none
reduce_loop (suc n) bits val ret =
    let next = reduce_loop n bits (val / 2 ^ bits) (bit_xor ret (bit_and val (mask bits))) in
    if val == 0 then some ret else next

-- A 32-bit value has at most 32 rounds before the test that ends the loop. From 32 bits on the shifts are
-- undefined behaviour, `none`.
unfoldable pub hash_reduce : ℕ → ℕ → Option ℕ
hash_reduce val bits =
    if bits == 0 then some 0 else (if ltb bits 32 then reduce_loop 33 bits val 0 else none)

-- A fault stands for undefined behaviour and for a loop that does not end.
unfoldable pub reduced : ℕ → ℕ → M ℕ
reduced val bits w = elim (hash_reduce val bits) [ none ↦ fault | some i ↦ ok i w ]

-- `hash->table[i]`, a fault where the table is NULL or shorter
unfoldable pub chain_at : Option Table → ℕ → M Chain
chain_at none i w = fault
chain_at (some cells) i w = elim (get_elem? cells i) [ none ↦ fault | some c ↦ ok c w ]

-- the test in item_list_find and item_list_remove
unfoldable pub matches : Eq → ℕ → Ptr → Item → Bool
matches eq hash key it = (it.hash == hash) && eq it.key key

unfoldable pub item_list_find : Eq → ℕ → Ptr → Chain → Option Item
item_list_find eq hash key [] = none
item_list_find eq hash key (it ∷ c) =
    if matches eq hash key it then some it else item_list_find eq hash key c

-- a write of `val` through the pointer that item_list_find returned
unfoldable pub write_val : Eq → ℕ → Ptr → Ptr → Chain → Chain
write_val eq hash key val [] = []
write_val eq hash key val (it ∷ c) =
    if matches eq hash key it then record it { val = val } ∷ c else it ∷ write_val eq hash key val c

unfoldable pub item_list_remove : Eq → ℕ → Ptr → Chain → Option Item × Chain
item_list_remove eq hash key [] = (none, [])
item_list_remove eq hash key (it ∷ c) =
    let (found, c') = item_list_remove eq hash key c in
    if matches eq hash key it then (some it, c) else (found, it ∷ c')

-- The callbacks only: the item itself is not given back.
unfoldable pub item_free : HashTable → Item → World → World
item_free h it w = emit_if h.val_free (val_freed it.val) (emit_if h.key_free (key_freed it.key) w)

unfoldable pub list_free : HashTable → Chain → World → World
list_free h [] w = w
list_free h (it ∷ c) w = list_free h c (item_free h it w)

unfoldable pub lists_free : HashTable → Table → World → World
lists_free h [] w = w
lists_free h (c ∷ cells) w = lists_free h cells (list_free h c w)

-- `if(hash->table)`
unfoldable pub table_free : HashTable → Option Table → World → World
table_free h none w = w
table_free h (some cells) w = emit block_freed (lists_free h cells w)

unfoldable pub a_hash_clean : HashTable → World → HashTable × World
unfolding table_free
a_hash_clean h w = (record h { table = none; bits = 0; count = 0 }, table_free h h.table w)

-- The last part of add_item, once the chain and the duplicate in it are known.
unfoldable pub add_to : HashTable → Table → Item → ℕ → Chain → Option Item → M Table
add_to h cells it i list none w = ok (set cells i (it ∷ list)) w
add_to h cells it i list (some dup) w =
    let (kept, replaced) = swap_xor dup.val it.val in
    ok (set cells i (write_val h.equal_func it.hash it.key kept list))
      (item_free h (record it { val = replaced }) w)

unfoldable pub add_item : HashTable → Table → Item → M Table
unfolding add_to
add_item h cells it w =
    (do
      i ← reduced it.hash h.bits
      list ← chain_at (some cells) i
      add_to h cells it i list (item_list_find h.equal_func it.hash it.key list))
      w

-- The two loops of extend: add_item changes `ptr->ptr`, so the next item is read before.
unfoldable pub rehash_chain : HashTable → Chain → Table → M Table
rehash_chain h [] cells w = ok cells w
rehash_chain h (it ∷ c) cells w = (add_item h cells it >>= rehash_chain h c) w

unfoldable pub rehash : HashTable → Table → Table → M Table
rehash h [] cells w = ok cells w
rehash h (c ∷ old) cells w = (rehash_chain h c cells >>= rehash h old) w

-- A block of NULL pointers read as an array of chains; any other cell is a wild pointer.
unfoldable pub chains : List (Option ℕ) → M Table
chains [] w = ok [] w
chains (some zero ∷ cells) w = (chains cells >>= λ t. pure ([] ∷ t)) w
chains (c ∷ cells) w = fault

-- `a_free(old_table)` behind the rehash of an old table that is not NULL
unfoldable pub rehash_old : HashTable → Option Table → Table → M Table
rehash_old h none cells w = ok cells w
rehash_old h (some old) cells w = (rehash h old cells >>= λ t v. ok t (emit block_freed v)) w

unfoldable pub extended : HashTable → ℕ → Option (List (Option ℕ)) → M (ℤ × HashTable)
extended h bits none w =
    (a_error_get_alib_code >>= λ code.
    pure (code, record h { bits = if bits == 0 then bits else bits - 1 }))
      w
extended h bits (some got) w =
    (do
      fresh ← chains got
      cells ← rehash_old (record h { bits = bits }) h.table fresh
      pure (success, record h { bits = bits; table = some cells }))
      w

unfoldable pub extend : HashTable → M (ℤ × HashTable)
extend h w =
    let bits = if h.count == 0 then h.bits else h.bits + 1 in
    (a_malloc_null (word_size * bits2size bits) >>= extended h bits) w

-- a_hash_put behind the call of extend
unfoldable pub put_item : HashTable → Ptr → Ptr → M (ℤ × HashTable)
put_item h key val w =
    (a_malloc 32 >>= λ got. elim got [
      | none ↦ a_error_get_alib_code >>= λ code. pure (code, h)
      | some b ↦ elim h.table [
        | none ↦ λ v. fault
        | some cells ↦
            add_item h cells (record { hash = h.hash_func key; key = key; val = val }) >>= λ t.
            pure (success, record h { table = some t; count = h.count + 1 })
      ]
    ])
      w

abbrev pub is_success : ℤ → Bool
is_success (ℤ.pos zero) = true
is_success c = false

unfoldable pub a_hash_put : HashTable → Ptr → Ptr → M (ℤ × HashTable)
a_hash_put h key val w =
    if (h.count == 0) || ltb (bits2size h.bits) (h.count + 1)
    then (extend h >>= λ (code, h').
          if is_success code then put_item h' key val else pure (code, h'))
        w
    else put_item h key val w

abbrev pub val_or_null : Option Item → Ptr
val_or_null none = null
val_or_null (some it) = it.val

unfoldable pub a_hash_get : HashTable → Ptr → M Ptr
a_hash_get h key w =
    (do
      i ← reduced (h.hash_func key) h.bits
      list ← chain_at h.table i
      pure (val_or_null (item_list_find h.equal_func (h.hash_func key) key list)))
      w

-- what follows the search in a_hash_remove
unfoldable pub drop_item : HashTable → ℕ → Option Item → Chain → M (Ptr × HashTable)
drop_item h i none list w = ok (null, h) w
drop_item h i (some it) list w =
    ok (it.val, record h { table = Option.map (λ cells. set cells i list) h.table })
      (item_free h (record it { val = null }) w)

unfoldable pub a_hash_remove : HashTable → Ptr → M (Ptr × HashTable)
unfolding drop_item
a_hash_remove h key w =
    (do
      i ← reduced (h.hash_func key) h.bits
      list ← chain_at h.table i
      let r = item_list_remove h.equal_func (h.hash_func key) key list
      drop_item h i r.0 r.1)
      w

unfoldable pub a_hash_delete : HashTable → Ptr → M HashTable
a_hash_delete h key w =
    (a_hash_remove h key >>= λ (val, h') v. ok h' (emit_if h'.val_free (val_freed val) v)) w

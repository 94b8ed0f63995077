-- ===== src/Vec.antt =====
-- The vector of buffers of a/old/vec.c: a chain of items with a tail pointer, a count and a total
-- size, both of type size_t.
pub mod Chain
pub mod Freeing
pub mod Iovecs
use alib4c.Common.{
  ℕ, zero, suc, ◌+◌, ◌-◌, ◌*◌, ◌%◌, ◌^◌, ℤ, Bool, true, false, Option, none, some, List, [], ◌∷◌,
  ◌++◌, ◌==◌, if◌then◌else◌, length, take, replicate,
}
use mathlib.Core.Option
use alib4c.World.{
  Ptr, World, M, ok, fault, ◌>>=◌, pure, malloc, emit, emit_if, val_freed, block_freed,
}

-- `struct iovec`
pub record Iovec : Type 0 where
  pub iov_base : Ptr
  pub iov_len : ℕ

-- `ptr` and `size` of a_vec_item_t are the fields of `buffer`.
pub record VecItem : Type 0 where
  pub buffer : Iovec
  pub free_ptr : Bool

-- The chain from `head` is the list `items`; `tail` holds how many items stand behind the one that
-- the pointer `tail` points to, and is `none` for NULL.
pub record Vec : Type 0 where
  pub items : List VecItem
  pub tail : Option ℕ
  pub num : ℕ
  pub total : ℕ

abbrev pub add64 : ℕ → ℕ → ℕ
add64 m n = (m + n) % 2 ^ 64

abbrev pub a_vec_init : Vec
a_vec_init = record { items = []; tail = none; num = 0; total = 0 }

unfoldable pub a_vec_alloc : M (Option Vec)
a_vec_alloc w = let (got, v) = malloc w in if got then ok (some a_vec_init) v else ok none v

abbrev pub counted : List VecItem → Option ℕ → Vec → VecItem → Vec
counted items tail v i = record {
  items = items;
  tail = tail;
  num = add64 v.num 1;
  total = add64 v.total i.buffer.iov_len;
}

unfoldable pub a_vec_prepend_item : Vec → VecItem → Vec
a_vec_prepend_item v i =
    counted (i ∷ v.items) (if v.num == 0 then some (length v.items) else v.tail) v i

-- `v->tail->next = i` cuts off what stood behind the tail; a fault when the tail is NULL
abbrev pub behind_tail : List VecItem → Option ℕ → VecItem → Option (List VecItem)
behind_tail items none i = none
behind_tail items (some k) i = some (take (length items - k) items ++ i ∷ [])

unfoldable pub a_vec_append_item : Vec → VecItem → Option Vec
a_vec_append_item v i =
    Option.map (λ items. counted items (some 0) v i)
      (if v.num == 0 then some (i ∷ []) else behind_tail v.items v.tail i)

abbrev pub or_fault {ℓ} : {A : Type ℓ} → Option A → M A
or_fault none w = fault
or_fault (some a) w = ok a w

-- The flag is false where the code returns NULL, which it does when malloc fails.
unfoldable pub a_vec_prepend : Vec → Iovec → Bool → M (Bool × Vec)
a_vec_prepend v i free_ptr w =
    let (got, u) = malloc w in
    if got
    then ok (true, a_vec_prepend_item v (record { buffer = i; free_ptr = free_ptr })) u
    else ok (false, v) u

unfoldable pub a_vec_append : Vec → Iovec → Bool → M (Bool × Vec)
a_vec_append v i free_ptr w =
    let (got, u) = malloc w in
    if got
    then (or_fault (a_vec_append_item v (record { buffer = i; free_ptr = free_ptr })) >>= λ r.
          pure (true, r))
        u
    else ok (false, v) u

abbrev pub go_on : (Vec → M (Bool × Vec)) → Bool × Vec → M (Bool × Vec)
go_on next (true, v) = next v
go_on next (false, v) = pure (false, v)

-- from the last buffer to the first
unfoldable pub a_vec_prepend_iovecs : Vec → List Iovec → Bool → M (Bool × Vec)
a_vec_prepend_iovecs v [] free_ptr w = ok (true, v) w
a_vec_prepend_iovecs v (i ∷ iovecs) free_ptr w =
    (a_vec_prepend_iovecs v iovecs free_ptr >>= go_on (λ u. a_vec_prepend u i free_ptr)) w

unfoldable pub a_vec_append_iovecs : Vec → List Iovec → Bool → M (Bool × Vec)
a_vec_append_iovecs v [] free_ptr w = ok (true, v) w
a_vec_append_iovecs v (i ∷ iovecs) free_ptr w =
    (a_vec_append v i free_ptr >>= go_on (λ u. a_vec_append_iovecs u iovecs free_ptr)) w

abbrev pub a_vec_size : Vec → ℕ
a_vec_size v = v.total

abbrev pub a_vec_len : Vec → ℕ
a_vec_len v = v.num

-- A write behind the end of the array is a fault.
unfoldable pub a_vec_to_iovec : List VecItem → List (Option Iovec) → Option (List (Option Iovec))
a_vec_to_iovec [] out = some out
a_vec_to_iovec (i ∷ items) [] = none
a_vec_to_iovec (i ∷ items) (c ∷ out) =
    Option.map (λ r. some i.buffer ∷ r) (a_vec_to_iovec items out)

unfoldable pub a_vec_to_iovec_alloc : Vec → M (Option (List (Option Iovec)))
a_vec_to_iovec_alloc v w =
    let (got, u) = malloc w in
    if got
    then (or_fault (a_vec_to_iovec v.items (replicate v.num none)) >>= λ r. pure (some r)) u
    else ok none u

-- The array of a_vec_writev is on the stack. `writev` is the system call.
unfoldable pub a_vec_writev : (List (Option Iovec) → ℕ → M ℤ) → Vec → M ℤ
a_vec_writev writev v w =
    (or_fault (a_vec_to_iovec v.items (replicate v.num none)) >>= λ r. writev r v.num) w

unfoldable pub a_vec_item_free : VecItem → World → World
a_vec_item_free i w = emit block_freed (emit_if i.free_ptr (val_freed i.buffer.iov_base) w)

unfoldable pub a_vec_free : List VecItem → World → World
a_vec_free [] w = w
a_vec_free (i ∷ items) w = a_vec_free items (a_vec_item_free i w)

-- the loop of a_iovec_size_end
unfoldable pub a_iovec_size : ℕ → List Iovec → ℕ
a_iovec_size size [] = size
a_iovec_size size (i ∷ iovecs) = a_iovec_size (add64 size i.iov_len) iovecs

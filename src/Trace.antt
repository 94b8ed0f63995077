-- ===== src/Trace.antt =====
-- The list of errors of a/old/error.c, which a_error_str turns into a text, and the allocation
-- functions that the file has of its own.
pub mod Silent
pub mod Strings
use alib4c.Common.{
  ℕ, zero, suc, ◌+◌, Bool, true, false, ◌&&◌, not, Option, none, some, List, [], ◌∷◌, ◌++◌, ◌==◌,
  if◌then◌else◌, length,
}
use mathlib.Core.Option
use alib4c.World.{
  Ptr, null, World, Run, M, ok, fault, ◌>>=◌, ◌>>◌, pure, malloc, emit, emit_if, val_freed,
  block_freed,
}
use alib4c.Mem.{Block, fresh, resized, memcpy, c_string}
use alib4c.Util.{string_block, orig_length, strcat_or_fault}

-- A module: `add` makes its argument from what the variable arguments hold, and gives NULL when it
-- cannot; `string` appends the text of an argument to a string, and gives NULL when it cannot. The
-- Booleans say whether the fields `free_arg` and `string` are set.
pub record Module : Type 0 where
  pub add : ℕ → M Ptr
  pub string : Ptr → Option (List ℕ) → M (Option (List ℕ))
  pub has_free_arg : Bool
  pub has_string : Bool

-- `error_mod` is the field `mod`, none for NULL.
pub record TraceItem : Type 0 where
  pub error_mod : Option Module
  pub arg : Ptr

-- a_error_stack_t
pub record Trace : Type 0 where
  pub items : List TraceItem
  pub malloc_failed : Bool

abbrev pub has_arg : Ptr → Bool
has_arg p = not (p == null)

-- the test of free_item, `mod` set or not
abbrev pub frees_arg : Option Module → Bool
frees_arg none = false
frees_arg (some m) = m.has_free_arg

unfoldable pub free_item : TraceItem → World → World
free_item item w =
    emit block_freed (emit_if (has_arg item.arg && frees_arg item.error_mod) (val_freed item.arg) w)

unfoldable pub free_stack : List TraceItem → World → World
free_stack [] w = w
free_stack (item ∷ items) w = free_stack items (free_item item w)

unfoldable pub malloc_error : Trace → World → Trace × World
malloc_error t w = (record { items = []; malloc_failed = true }, free_stack t.items w)

-- alloc_stack_item clears the three fields.
abbrev pub new_item : TraceItem
new_item = record { error_mod = none; arg = null }

-- `if((item->arg = mod->add(args))) push(thread_stack, item); else free(item);`
unfoldable pub push_or_free : Trace → Ptr → M Trace
push_or_free t arg w =
    if has_arg arg
    then ok (record t { items = record new_item { arg = arg } ∷ t.items }) w
    else ok t (emit block_freed w)

-- The loop: a module, and what its `add` reads from the variable arguments.
unfoldable pub add_loop : Trace → List (Module × ℕ) → M Trace
add_loop t [] w = ok t w
add_loop t ((m, value) ∷ more) w =
    let (got, v) = malloc w in
    if got
    then (m.add value >>= push_or_free t >>= λ u. add_loop u more) v
    else (let (u, v') = malloc_error t v in ok u v')

unfoldable pub a_error_add_vargs : Trace → List (Module × ℕ) → M Trace
a_error_add_vargs t modules w = if t.malloc_failed then ok t w else add_loop t modules w

-- What `string` of the module of an item makes of the text; none is an item whose module, or whose
-- module's `string`, is NULL.
abbrev pub text_of : TraceItem → Option (List ℕ) → M (Bool × Option (List ℕ))
text_of item out w = elim item.error_mod [
  | none ↦ ok (true, out) w
  | some m ↦
      if m.has_string
      then (m.string item.arg out >>= λ more. elim more [
        | none ↦ pure (false, none)
        | some s ↦ pure (true, some s)
      ])
          w
      else ok (true, out) w
]

-- The loop of a_error_str. A NULL from `string` frees the rest of the stack, the item included.
unfoldable pub str_loop : List TraceItem → Option (List ℕ) → M (Option (List ℕ))
str_loop [] out w = ok out w
str_loop (item ∷ items) out w =
    (text_of item out >>= λ (good, more).
    if good
    then (λ v. str_loop items more (free_item item v))
    else (λ v. ok none (free_stack (item ∷ items) v)))
      w

unfoldable pub a_error_str : Trace → M (Option (List ℕ) × Trace)
a_error_str t w =
    if t.malloc_failed
    then ok (none, t) w
    else (str_loop t.items none >>= λ out. pure (out, record t { items = [] })) w

unfoldable pub a_error_clear : Trace → World → Trace × World
a_error_clear t w = (record t { items = [] }, free_stack t.items w)

-- `free` of a pointer that may be NULL
abbrev pub free_block : Option Block → World → World
free_block none w = w
free_block (some b) w = emit block_freed w

-- Unlike a_realloc it frees the block when realloc fails.
unfoldable pub a_error_realloc : Option Block → ℕ → M (Option Block)
a_error_realloc b size w =
    if size == 0
    then ok none (free_block b w)
    else (let (got, v) = malloc w in
        if got
        then ok (some (resized size (elim b [ none ↦ [] | some cells ↦ cells ]))) v
        else ok none (free_block b v))

unfoldable pub a_error_strcat_realloc : Option (List ℕ) → Option (List ℕ) → M (Option Block)
a_error_strcat_realloc orig none w = ok (string_block orig) w
a_error_strcat_realloc orig (some add) w =
    (a_error_realloc (string_block orig) (orig_length orig + length add + 1) >>= λ out.
    strcat_or_fault out add)
      w

unfoldable pub a_error_memdup : Option Block → ℕ → M (Option Block)
a_error_memdup none in_len w = ok none w
a_error_memdup (some b) in_len w =
    let (got, v) = malloc w in
    if got then ok (some (memcpy in_len b (fresh in_len))) v else ok none v

-- ===== src/Error.antt =====
-- The error stack of a/error.c and a/error.h.in.
pub mod Live
pub mod Texts
use alib4c.Common.{ℤ, pos, Bool, true, false, if◌then◌else◌}
use alib4c.World.{
  ErrorMod, alib, no_error, perror, stack_alloc, ErrorStack, empty, static_alloc_error, entry,
  dangling, block_freed, World, Run, ok, fault, M, ◌>>=◌, ◌>>◌, pure, malloc, emit,
}

-- A_ERROR_SUCCESS, A_ERROR_INVALID_OP and A_ERROR_OTHER
abbrev pub success : ℤ
success = pos 0

abbrev pub invalid_op : ℤ
invalid_op = pos 3

abbrev pub other : ℤ
other = pos 6

-- Only the module `stack` has a `code_free`, so freeing a node frees the nodes below it and itself.
unfoldable pub a_error_stack_free : ErrorStack → M (Unit {0})
a_error_stack_free empty w = ok tt w
a_error_stack_free static_alloc_error w = ok tt w
a_error_stack_free (entry m c prev) w =
    (a_error_stack_free prev >> (λ v. ok tt (emit block_freed v))) w
a_error_stack_free dangling w = fault

unfoldable pub a_error_stack : ErrorMod → ℤ → ErrorStack → M ErrorStack
a_error_stack m c prev w =
    let (got, v) = malloc w in
    if got then ok (entry m c prev) v else (a_error_stack_free prev >> pure static_alloc_error) v

-- `mod->getcode(mod)`: NULL, a fault, for all modules but `perror`
abbrev pub getcode : ErrorMod → M ℤ
getcode perror w = ok w.errno w
getcode m w = fault

abbrev pub getcode_if : Bool → ErrorMod → ℤ → M ℤ
getcode_if b m code = if b then getcode m else pure code

-- The value that the C pointer `stack` has left once its nodes are freed.
abbrev pub after_free : ErrorStack → ErrorStack
after_free (entry m c prev) = dangling
after_free s = s

abbrev pub a_error_get_stack : M ErrorStack
a_error_get_stack w = ok w.errors w

abbrev pub a_error_set_stack : ErrorStack → M ErrorStack
a_error_set_stack s w = ok s (record w { errors = s })

unfoldable pub a_error_stack_macro_helper : ErrorMod → Bool → ℤ → Bool → M (Unit {0})
a_error_stack_macro_helper m b code start w =
    (do
      old ← a_error_get_stack
      stack ← (if start then a_error_stack_free old >> pure (after_free old) else pure old)
      c ← getcode_if b m code
      s ← a_error_stack m c stack
      stored ← a_error_set_stack s
      pure tt)
      w

-- `a_error_ret(mod, val)` and `a_error_code_ret(mod, code, val)`
abbrev pub a_error_ret {ℓ} : {A : Type ℓ} → ErrorMod → A → M A
a_error_ret m val = a_error_stack_macro_helper m true success false >> pure val

abbrev pub a_error_code_ret {ℓ} : {A : Type ℓ} → ErrorMod → ℤ → A → M A
a_error_code_ret m code val = a_error_stack_macro_helper m false code false >> pure val

alib_code_of : ErrorStack → M ℤ
alib_code_of empty = pure success
alib_code_of (entry alib c prev) = pure c
alib_code_of (entry m c prev) = a_error_code_ret alib other other
alib_code_of static_alloc_error = a_error_code_ret alib other other
alib_code_of dangling = λ w. fault

unfoldable pub a_error_get_alib_code : M ℤ
unfolding alib_code_of
a_error_get_alib_code w = (a_error_get_stack >>= alib_code_of) w

-- ===== src/Error/Texts.antt =====
-- The texts and the codes that the modules of a/error.c give, as they are built on Unix.
use Prim.Native.Char.{code}
use Prim.Native.String.{String}
use alib4c.Common.{
  ℕ, ◌+◌, ◌-◌, ◌%◌, ◌^◌, ℤ, pos, negsuc, Bool, true, false, Option, none, some, List, [], ◌∷◌, ltb,
  if◌then◌else◌, get_or,
}
use alib4c.World.{
  ErrorMod, alib, no_error, perror, stack_alloc, ErrorStack, empty, static_alloc_error, entry,
  dangling, World,
}

-- the bytes of a text
abbrev pub bytes : String → List ℕ
bytes String.[] = []
bytes (String.◌∷◌ c s) = code c ∷ bytes s

-- A module with the code that goes with it: the module NULL, one without a getstr, a plain module with a
-- number, the module `stack` with a stack.
pub data Subject : Type 0 where
  null_mod : Subject
  no_getstr : Subject
  coded : ErrorMod → ℤ → Subject
  stacked : ErrorStack → Subject

unfoldable pub error_val2str : List (List ℕ)
error_val2str =
    bytes "Success"
    ∷ bytes "Not Implemented"
    ∷ bytes "Unknown"
    ∷ bytes "Invalid operand"
    ∷ bytes "Operand too small"
    ∷ bytes "Operand too large"
    ∷ bytes "Other Library"
    ∷ bytes "Empty"
    ∷ []

-- A_ERROR_MAX
abbrev pub error_max : ℕ
error_max = 7

unfoldable pub val_get : ℤ → List ℕ
val_get (pos n) =
    if ltb error_max n then bytes "Invalid a_error value" else get_or error_val2str n []
val_get (negsuc n) = bytes "Invalid a_error value"

-- the 32 bits of `(int)code`
abbrev pub int_bits : ℤ → ℕ
int_bits (pos n) = n % 2 ^ 32
int_bits (negsuc n) = 2 ^ 32 - (n % 2 ^ 32 + 1)

-- `strerror` is the function of the C library, by the bits of its argument.
module _ (strerror : ℕ → List ℕ) where
  -- `mod->getstr` of the modules whose codes are numbers
  unfoldable pub getstr : ErrorMod → ℤ → List ℕ
  getstr alib c = val_get c
  getstr no_error c = []
  getstr perror c = strerror (int_bits c)
  getstr stack_alloc c = bytes "unable to allocate error stack memory while handling error"

  -- A read of a freed node is undefined behaviour, `none`.
  unfoldable pub stack_getstr : ErrorStack → Option (List ℕ)
  stack_getstr empty = some (bytes "Null error stack passed to a_strerr")
  stack_getstr static_alloc_error = some (getstr stack_alloc (pos 0))
  stack_getstr (entry m c prev) = some (getstr m c)
  stack_getstr dangling = none

  -- The flag says whether `free_func` is given; what it is set to is always a_error_free_none here.
  unfoldable pub a_error_strerr : Bool → Subject → Option (List ℕ)
  a_error_strerr false subject =
      some (bytes "internal error a_error_strerr received no free function pointer")
  a_error_strerr true null_mod =
      some (bytes "internal error a_error_strerr received no a_error module")
  a_error_strerr true no_getstr =
      some (bytes "internal error a_error_strerr received a_error module with null getstr")
  a_error_strerr true (coded m c) = some (getstr m c)
  a_error_strerr true (stacked s) = stack_getstr s

-- The modules without their codes.
pub data ModName : Type 0 where
  null_name : ModName
  plain : ErrorMod → ModName
  stack : ModName

-- A module with the code that its getcode gives: errno, the stack of the program, or else 0.
unfoldable pub a_error_getcode : ModName → World → Subject
a_error_getcode null_name w = null_mod
a_error_getcode (plain perror) w = coded perror w.errno
a_error_getcode (plain m) w = coded m (pos 0)
a_error_getcode stack w = stacked w.errors

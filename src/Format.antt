-- ===== src/Format.antt =====
-- The functions of a/util.c that size a formatted string and print it to a block.
pub mod Sizes
use alib4c.Common.{
  ℕ, zero, suc, ◌+◌, ◌*◌, ◌%◌, ◌^◌, Bool, true, false, Option, none, some, List, [], ◌∷◌, ◌==◌,
  if◌then◌else◌, length,
}
use mathlib.Core.Option
use alib4c.World.{World, Run, M, ok, fault, ◌>>=◌, pure, perror}
use alib4c.Error.{a_error_ret}
use alib4c.Mem.{Block, memcpy, c_string, a_malloc, a_free}

-- vsnprintf with the format and the arguments of the caller, by the size that it is told: what it
-- returns, `none` for a negative number, and the string that it leaves.
abbrev pub Vsnprintf : Type 0
Vsnprintf = ℕ → Option ℕ × List ℕ

abbrev pub needed : Option ℕ × List ℕ → ℕ
needed (none, text) = 0
needed (some n, text) = length text + 1

unfoldable pub a_vsprintf_try_len : Vsnprintf → ℕ → ℕ
a_vsprintf_try_len vsnprintf try_len = needed (vsnprintf try_len)

-- `none` is a loop that does not end within the fuel.
unfoldable pub find_loop : ℕ → Vsnprintf → ℕ → Option ℕ
find_loop zero vsnprintf try_len = none
find_loop (suc n) vsnprintf try_len =
    let msg_len = a_vsprintf_try_len vsnprintf try_len in
    let more = find_loop n vsnprintf (try_len * 2) in if msg_len == 0 then more else some msg_len

-- The test of the first call, `msg_len > 1`. A failing vsnprintf gives -1, as the C library has it; of
-- another negative result the source would take the size_t for a length.
abbrev pub or_search : Option ℕ → Option ℕ → Option ℕ
or_search none search = search
or_search (some zero) search = search
or_search (some (suc n)) search = some (suc n + 1)

-- `fmt_len` is strlen(fmt). a_sprintf_find_len is the same on variable arguments.
unfoldable pub a_vsprintf_find_len : ℕ → Vsnprintf → ℕ → Option ℕ
a_vsprintf_find_len fuel vsnprintf fmt_len =
    or_search (vsnprintf 0).0 (find_loop fuel vsnprintf (fmt_len * 2))

-- what vsnprintf leaves in the block, or the way out by the label `error`
abbrev pub printed : Option ℕ × List ℕ → Block → M (Option Block)
printed (some n, text) out w = ok (some (memcpy (length text + 1) (c_string text) out)) w
printed (none, text) out w =
    (a_error_ret perror none >>= λ res. a_free (some out) true >>= λ done. pure res) w

abbrev pub print_to : Vsnprintf → ℕ → M (Option Block)
print_to vsnprintf len w =
    (a_malloc len >>= λ got. elim got [ none ↦ pure none | some out ↦ printed (vsnprintf len) out ])
      w

-- `len` is an unsigned int. A search that does not end is none; a_sprintf_malloc is the same on
-- variable arguments.
unfoldable pub a_vsprintf_malloc : ℕ → Vsnprintf → ℕ → World → Option (Run (Option Block))
a_vsprintf_malloc fuel vsnprintf fmt_len w =
    Option.map (λ len. print_to vsnprintf (len % 2 ^ 32) w)
      (a_vsprintf_find_len fuel vsnprintf fmt_len)

-- ===== src/Resolve.antt =====
-- Name resolution, a/resolve.c, as it is built where inet_pton and inet_ntop exist. An address is a
-- number; the module of socket errors is the one of errno there.
pub mod Names
pub mod Numbers
use alib4c.Common.{
  ℕ, zero, suc, ◌+◌, ◌%◌, ◌^◌, ℤ, pos, Bool, true, false, Option, none, some, List, [], ◌∷◌, ◌==◌,
  ltb, leb, if◌then◌else◌, length,
}
use mathlib.Core.Option
use alib4c.World.{World, M, ok, fault, ◌>>=◌, pure, alib, perror}
use alib4c.Error.{success, invalid_op, other, a_error_ret, a_error_code_ret}
use alib4c.Mem.{Block, memcpy, c_string, a_malloc}

-- The functions of the system: gethostbyname, gethostbyaddr with the size it is told, inet_pton and
-- inet_ntop. `addr_size` is the size of a pointer, which `sizeof(addr)` is.
pub record Resolver : Type 0 where
  pub gethostbyname : List ℕ → Option ℕ
  pub gethostbyaddr : ℕ → ℕ → Option (List ℕ)
  pub inet_pton : List ℕ → Option ℕ
  pub inet_ntop : ℕ → List ℕ
  pub addr_size : ℕ

-- A_ERROR_UNKNOWN and A_ERROR_OP_SMALL
abbrev pub unknown : ℤ
unknown = pos 2

abbrev pub op_small : ℤ
op_small = pos 4

-- A write behind the end of the buffer is a fault.
unfoldable pub strcpy : List ℕ → Block → M (Option Block)
strcpy s out w =
    if leb (length s + 1) (length out)
    then ok (some (memcpy (length s + 1) (c_string s) out)) w
    else fault

module _ (r : Resolver) where
  abbrev pub converted : ℤ → Option ℕ → ℕ → ℤ × ℕ
  converted code none addr = (code, addr)
  converted code (some a) addr = (success, a)

  -- the code, and what `*addr` then is
  unfoldable pub a_inet_aton_no_error : List ℕ → ℕ → ℤ × ℕ
  a_inet_aton_no_error name addr = converted unknown (r.inet_pton name) addr

  unfoldable pub a_inet_aton : List ℕ → ℕ → M (ℤ × ℕ)
  a_inet_aton name addr w = elim (r.inet_pton name) [
    | none ↦ a_error_ret perror (other, addr) w
    | some a ↦ ok (success, a) w
  ]

  abbrev pub is_zero : ℤ → Bool
  is_zero (pos zero) = true
  is_zero _ = false

  abbrev pub copied : Option ℕ → ℕ → M (ℤ × Option ℕ)
  copied none addr w = a_error_code_ret perror other (other, some addr) w
  copied (some a) addr w = ok (success, some a) w

  -- The pointers may be NULL.
  unfoldable pub a_resolve : Option (List ℕ) → Option ℕ → M (ℤ × Option ℕ)
  a_resolve none addr w = a_error_code_ret alib invalid_op (invalid_op, addr) w
  a_resolve (some name) none w = a_error_code_ret alib invalid_op (invalid_op, none) w
  a_resolve (some name) (some addr) w =
      let (code, a) = a_inet_aton_no_error name addr in
      if is_zero code then ok (success, some a) w else copied (r.gethostbyname name) a w

  -- `out` is none for NULL.
  unfoldable pub a_inet_ntoa : ℕ → Option Block → ℕ → M (Option Block)
  a_inet_ntoa addr none out_len w =
      (a_malloc 16 >>= λ got. elim got [
        | none ↦ pure none
        | some out ↦ strcpy (r.inet_ntop addr) out
      ])
        w
  a_inet_ntoa addr (some out) out_len w =
      if ltb out_len 16
      then a_error_code_ret alib op_small none w
      else strcpy (r.inet_ntop addr) out w

  -- The part that a_reverse_resolve and a_reverse_resolve_or_ip share. The second component is what
  -- `*out_in` then is.
  unfoldable pub name_out : List ℕ → Option Block → ℕ → M (Option Block × ℕ)
  name_out name none out_in w =
      let size = (length name + 1) % 2 ^ 32 in
      (a_malloc size >>= λ got. elim got [
        | none ↦ pure (none, size)
        | some out ↦ strcpy name out >>= λ res. pure (res, size)
      ])
        w
  name_out name (some out) out_in w =
      let addr_len = length name % 2 ^ 32 in
      if leb out_in ((addr_len + 1) % 2 ^ 32)
      then a_error_code_ret alib op_small (none, addr_len) w
      else (strcpy name out >>= λ res. pure (res, out_in)) w

  unfoldable pub a_reverse_resolve : ℕ → Option Block → ℕ → M (Option Block × ℕ)
  a_reverse_resolve addr out out_in w = elim (r.gethostbyaddr addr r.addr_size) [
    | none ↦ a_error_ret perror (none, out_in) w
    | some name ↦ name_out name out out_in w
  ]

  unfoldable pub a_reverse_resolve_or_ip : ℕ → Option Block → ℕ → M (Option Block × ℕ)
  a_reverse_resolve_or_ip addr out out_len w = elim (r.gethostbyaddr addr r.addr_size) [
    | none ↦ (a_inet_ntoa addr out out_len >>= λ res. pure (res, out_len)) w
    | some name ↦ name_out name out out_len w
  ]

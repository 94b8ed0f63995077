-- ===== src/Resolve/Names.antt =====
-- What a_reverse_resolve of a/resolve.c gives, and the buffers that it refuses.
use alib4c.Common.{
  ℕ, ◌+◌, ◌%◌, ◌^◌, ◌<◌, ◌≡◌, ◌≢◌, refl, Option, none, some, List, leb, if◌then◌else◌, length,
  arith, Bool-cases, inl, inr,
}
use alib4c.World.{World, ok, alib, perror, ◌>>=◌, pure}
use alib4c.Error.Live.{IsLive, pushed, error_ret-pushed, error_code_ret-pushed}
use alib4c.Mem.{Block}
use alib4c.Resolve.{
  Resolver, op_small, name_out, a_reverse_resolve, a_inet_ntoa, a_reverse_resolve_or_ip,
}
use alib4c.Resolve.Numbers.{holding, strcpy-holding}

-- On a live error stack, for an address that has a name shorter than 2^32 - 1 bytes, and a buffer whose
-- size is the one given, a_reverse_resolve leaves the name in the buffer if it is larger than the name
-- and its terminator. It refuses any other buffer, one that has just this size too, with
-- A_ERROR_OP_SMALL and the length of the name as the size, before it writes.
pub reverse_resolve-holding :
    (r : Resolver) (addr : ℕ) (name : List ℕ) (out : Block) (w : World)
    → IsLive w.errors
    → r.gethostbyaddr addr r.addr_size ≡ some name
    → length name + 1 < 2 ^ 32
    → a_reverse_resolve r addr (some out) (length out) w ≡ (
        if leb (length out) (length name + 1)
        then ok (none, length name) (pushed alib op_small w)
        else ok (some (holding name out), length out) w)
unfolding a_reverse_resolve name_out
reverse_resolve-holding r addr name out w live e h =
    let a : (length name + 1) % 2 ^ 32 ≡ length name + 1 = omega (arith, h) in
    let b : length name % 2 ^ 32 ≡ length name = omega (arith, h) in
    elim (Bool-cases (leb (length out) (length name + 1))) [
      | inl c ↦
          rw (a_reverse_resolve, e, b, a, c)
            (error_code_ret-pushed alib op_small (none, length name) w live)
      | inr c ↦
          rw (a_reverse_resolve, e, b, a, c, strcpy-holding name out w (ground (arith, c))) refl
    ]

-- gethostbyaddr takes an internet address of 4 bytes and fails on another size. Where a pointer does
-- not have that size, a_reverse_resolve, on a live error stack, returns NULL for every address and
-- reports errno, and a_reverse_resolve_or_ip is a_inet_ntoa.
pub reverse_resolve_never :
    (r : Resolver) (addr : ℕ) (out : Option Block) (out_in : ℕ) (w : World)
    → IsLive w.errors
    → ((a n : ℕ) → n ≢ 4 → r.gethostbyaddr a n ≡ none)
    → r.addr_size ≢ 4
    → (a_reverse_resolve r addr out out_in w ≡ ok (none, out_in) (pushed perror w.errno w))
      × (a_reverse_resolve_or_ip r addr out out_in w
          ≡ (a_inet_ntoa r addr out out_in >>= λ res. pure (res, out_in)) w)
unfolding a_reverse_resolve a_reverse_resolve_or_ip
reverse_resolve_never r addr out out_in w live h n = (
  rw (a_reverse_resolve, h addr r.addr_size n) (error_ret-pushed (none, out_in) w live),
  rw (a_reverse_resolve_or_ip, h addr r.addr_size n) refl,
)

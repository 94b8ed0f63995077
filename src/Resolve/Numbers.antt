-- ===== src/Resolve/Numbers.antt =====
-- What a_resolve and a_inet_ntoa of a/resolve.c give.
use alib4c.Common.{
  ℕ, ◌+◌, ◌≤◌, ◌≡◌, refl, ap, sym, ℤ, true, Option, none, some, List, [], ◌∷◌, ◌++◌, ltb, leb,
  if◌then◌else◌, length, arith, Bool-cases, inl, inr, drop,
}
use alib4c.World.{World, Run, ok, malloc, head_or_false, alib, perror}
use alib4c.Error.{success, invalid_op, other}
use alib4c.Error.Live.{IsLive, pushed, error_ret-pushed, error_code_ret-pushed}
use alib4c.Mem.{Block, fresh, memcpy, c_string, a_malloc}
use alib4c.Util.Concat.{length-fresh}
use alib4c.Resolve.{
  Resolver, op_small, unknown, strcpy, converted, a_inet_aton_no_error, is_zero, copied, a_resolve,
  a_inet_ntoa,
}

-- The address of a name: what inet_pton reads, or else what gethostbyname finds.
abbrev pub address_of : Resolver → List ℕ → Option ℕ
address_of r name = elim (r.inet_pton name) [ none ↦ r.gethostbyname name | some a ↦ some a ]

-- success with the address stored, or A_ERROR_OTHER, reported, with the old address kept
abbrev pub resolved : Option ℕ → ℕ → World → Run (ℤ × Option ℕ)
resolved none addr w = ok (other, some addr) (pushed perror other w)
resolved (some a) addr w = ok (success, some a) w

-- On a live error stack, a_resolve stores the address of a name, taken from its digits or else from
-- the resolver, and returns success; where there is none it keeps the old address, reports and returns
-- A_ERROR_OTHER; on a NULL pointer it reports and returns A_ERROR_INVALID_OP.
pub resolve-address_of :
    (r : Resolver) (w : World)
    → IsLive w.errors
    → ((name : List ℕ) (addr : ℕ)
        → a_resolve r (some name) (some addr) w ≡ resolved (address_of r name) addr w)
      × ((addr : Option ℕ)
          → a_resolve r none addr w ≡ ok (invalid_op, addr) (pushed alib invalid_op w))
      × ((name : List ℕ)
          → a_resolve r (some name) none w ≡ ok (invalid_op, none) (pushed alib invalid_op w))
unfolding a_resolve a_inet_aton_no_error
resolve-address_of r w live = (
  (λ name addr. go addr (r.inet_pton name) (r.gethostbyname name)),
  (λ addr. error_code_ret-pushed alib invalid_op (invalid_op, addr) w live),
  (λ name. error_code_ret-pushed alib invalid_op (invalid_op, none) w live),
)
  where
    go :
        (addr : ℕ) (p b : Option ℕ)
        → (if is_zero r (converted r unknown p addr).0
            then ok (success, some (converted r unknown p addr).1) w
            else copied r b (converted r unknown p addr).1 w)
          ≡ resolved (elim p [ none ↦ b | some a ↦ some a ]) addr w
    go addr (some a) b = refl
    go addr none (some a) = refl
    go addr none none = error_code_ret-pushed perror other (other, some addr) w live

-- the start of a buffer after a string was copied to it, and the rest as it was
abbrev pub holding : List ℕ → Block → Block
holding s out = c_string s ++ drop (length s + 1) out

memcpy-append :
    (b out : Block) → length b ≤ length out → memcpy (length b) b out ≡ b ++ drop (length b) out
unfolding memcpy
memcpy-append [] out h = refl
memcpy-append (c ∷ b) [] h = absurd (omega (arith, h))
memcpy-append (c ∷ b) (d ∷ out) h = ap (λ r. c ∷ r) (memcpy-append b out (omega (arith, h)))

length-c_string : (s : List ℕ) → length (c_string s) ≡ length s + 1
length-c_string [] = refl
length-c_string (b ∷ s) = omega (arith, length-c_string s)

-- Copying a string to a buffer that is large enough does not run over its end.
pub strcpy-holding :
    (s : List ℕ) (out : Block) (w : World)
    → length s + 1 ≤ length out
    → strcpy s out w ≡ ok (some (holding s out)) w
unfolding strcpy
strcpy-holding s out w h =
    let fits : leb (length s + 1) (length out) ≡ true = ground arith in
    rw (fits, sym (length-c_string s), memcpy-append (c_string s) out (rw (length-c_string s) h))
      refl

-- Where the dotted quad of an address has at most 15 bytes, and on a live error stack, a_inet_ntoa writes
-- it, with its terminator, to a buffer of 16
-- bytes or more; it refuses a smaller one with A_ERROR_OP_SMALL, before it writes; without a buffer it
-- makes one of 16 bytes, or reports that malloc failed and returns NULL.
pub inet_ntoa-holding :
    (r : Resolver) (addr : ℕ) (out : Block) (w : World)
    → IsLive w.errors
    → length (r.inet_ntop addr) ≤ 15
    → (a_inet_ntoa r addr (some out) (length out) w ≡ (
        if ltb (length out) 16
        then ok none (pushed alib op_small w)
        else ok (some (holding (r.inet_ntop addr) out)) w))
      × (a_inet_ntoa r addr none 0 w ≡ (
          if head_or_false w.mallocs
          then ok (some (holding (r.inet_ntop addr) (fresh 16))) (malloc w).1
          else ok none (pushed perror w.errno (malloc w).1)))
unfolding a_inet_ntoa a_malloc
inet_ntoa-holding r addr out w live h = (
  elim (Bool-cases (ltb (length out) 16)) [
    | inl e ↦ rw e (error_code_ret-pushed alib op_small none w live)
    | inr e ↦ rw e (strcpy-holding (r.inet_ntop addr) out w (ground (arith, e, h)))
  ],
  elim (Bool-cases (head_or_false w.mallocs)) [
    | inl e ↦ rw e (
        strcpy-holding (r.inet_ntop addr) (fresh 16) (malloc w).1
          (omega (arith, h, length-fresh 16)))
    | inr e ↦ rw (e, error_ret-pushed {A = Option Block} none (malloc w).1 live) refl
  ],
)

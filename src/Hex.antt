-- ===== src/Hex.antt =====
-- Hexadecimal and binary text: mem2hex and hex2mem_len of a/to_do/util.c, a_debug_u64_to_str of
-- a/debug.c.
pub mod RoundTrip
pub mod Binary
use alib4c.Common.{
  ℕ, zero, suc, ◌+◌, ◌-◌, ◌*◌, ◌/◌, ◌%◌, ◌^◌, Bool, true, false, not, ◌&&◌, ◌||◌, Option, none,
  some, List, [], ◌∷◌, ◌==◌, ltb, leb, if◌then◌else◌, length,
}
use mathlib.Core.Option
use alib4c.World.{M, ok, died, malloc}

-- a digit of "%02x"
unfoldable pub hex_digit : ℕ → ℕ
hex_digit d = if ltb d 10 then b'0' + d else b'a' + d - 10

unfoldable pub mem2hex : List ℕ → List ℕ
mem2hex [] = []
mem2hex (b ∷ m) = hex_digit (b / 16) ∷ hex_digit (b % 16) ∷ mem2hex m

abbrev pub between : ℕ → ℕ → ℕ → Bool
between a c b = leb a c && leb c b

-- what a byte counts as in base 16, if it is a digit
unfoldable pub hex_value : ℕ → Option ℕ
hex_value c =
    if between b'0' c b'9'
    then some (c - b'0')
    else (if between b'a' c b'f'
        then some (c + 10 - b'a')
        else (if between b'A' c b'F' then some (c + 10 - b'A') else none))

-- isspace in the C locale
abbrev pub is_space : ℕ → Bool
is_space c = (c == 32) || between 9 c 13

-- strtoul of one byte, and of two, in base 16: space, then a sign, then digits up to the first byte
-- that is none
unfoldable pub strtoul_one : ℕ → ℕ
strtoul_one b = elim (hex_value b) [ none ↦ 0 | some d ↦ d ]

unfoldable pub strtoul_two : ℕ → ℕ → ℕ
strtoul_two a b = elim (hex_value a) [
  | some h ↦ elim (hex_value b) [ none ↦ h | some d ↦ h * 16 + d ]
  | none ↦
      if a == b'-'
      then (2 ^ 64 - strtoul_one b) % 2 ^ 64
      else (if is_space a || (a == b'+') then strtoul_one b else 0)
]

-- `none` is the end by die_perror, where strtoul returns ULONG_MAX.
unfoldable pub hex2mem_len : List ℕ → Option (List ℕ)
hex2mem_len [] = some []
hex2mem_len (a ∷ []) = some []
hex2mem_len (a ∷ b ∷ s) =
    let more = hex2mem_len s in
    if strtoul_two a b == 2 ^ 64 - 1
    then none
    else Option.map (λ m. (strtoul_two a b % 256) ∷ m) more

unfoldable pub hex2mem_len_malloc : List ℕ → M (List ℕ)
hex2mem_len_malloc s w =
    let (got, v) = malloc w in
    if got then (elim (hex2mem_len s) [ none ↦ died | some m ↦ ok m v ]) else died

-- the loop of a_debug_u64_to_str, `k` rounds before its end
unfoldable pub u64_loop : ℕ → ℕ → List ℕ
u64_loop zero num = []
u64_loop (suc k) num =
    (if num / 2 ^ 63 % 2 == 0 then b'0' else b'1') ∷ u64_loop k (num * 2 % 2 ^ 64)

unfoldable pub a_debug_u64_to_str : ℕ → List ℕ
a_debug_u64_to_str num = u64_loop 64 num

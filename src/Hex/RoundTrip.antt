-- ===== src/Hex/RoundTrip.antt =====
-- A block of memory printed as hexadecimal digits and read back.
use alib4c.Common.{
  ℕ, ◌+◌, ◌-◌, ◌*◌, ◌/◌, ◌%◌, ◌^◌, ◌≤◌, ◌<◌, ◌≡◌, refl, ◌∙◌, true, false, Option, none, some, List,
  [], ◌∷◌, arith, length, ◌==◌, Bool-cases, inl, inr, if◌then◌else◌,
}
use mathlib.Core.Option
use alib4c.World.{World, ok, malloc, head_or_false}
use alib4c.Hex.{hex_digit, mem2hex, hex_value, strtoul_two, hex2mem_len, hex2mem_len_malloc}

abbrev pub AllBytes : List ℕ → Type 0
AllBytes [] = Unit
AllBytes (b ∷ m) = (b < 256) × AllBytes m

hex_value-hex_digit : (d : ℕ) → d < 16 → hex_value (hex_digit d) ≡ some d
unfolding hex_digit hex_value
hex_value-hex_digit d h = ground arith

strtoul_two-digits :
    (h l : ℕ) → h < 16 → l < 16 → strtoul_two (hex_digit h) (hex_digit l) ≡ h * 16 + l
unfolding strtoul_two
strtoul_two-digits h l p q = rw (hex_value-hex_digit h p, hex_value-hex_digit l q, strtoul_two) refl

hex2mem-mem2hex : (m : List ℕ) → AllBytes m → hex2mem_len (mem2hex m) ≡ some m
unfolding hex2mem_len mem2hex
hex2mem-mem2hex [] h = refl
hex2mem-mem2hex (b ∷ m) h =
    let same : b / 16 * 16 + b % 16 ≡ b = omega arith in
    let read : strtoul_two (hex_digit (b / 16)) (hex_digit (b % 16)) ≡ b =
      strtoul_two-digits (b / 16) (b % 16) (omega (arith, h.0)) (omega arith) ∙ same in
    let small : (b == 2 ^ 64 - 1) ≡ false = ground (arith, h.0) in
    let byte : b % 256 ≡ b = omega (arith, h.0) in
    rw (read, small, byte, hex2mem-mem2hex m h.1) refl

length-mem2hex : (m : List ℕ) → length (mem2hex m) ≡ 2 * length m
unfolding mem2hex
length-mem2hex [] = refl
length-mem2hex (b ∷ m) = omega (arith, length-mem2hex m)

-- mem2hex writes two digits for each byte, and where malloc answers, hex2mem_len_malloc of them is
-- the memory as it was.
pub hex2mem-mem2hex_lem :
    (m : List ℕ) (w : World)
    → AllBytes m
    → head_or_false w.mallocs ≡ true
    → (hex2mem_len_malloc (mem2hex m) w ≡ ok m (malloc w).1) × (length (mem2hex m) ≡ 2 * length m)
unfolding hex2mem_len_malloc
hex2mem-mem2hex_lem m w h got = (rw (got, hex2mem-mem2hex m h) refl, length-mem2hex m)

abbrev Fits : List ℕ → Option (List ℕ) → Type 0
Fits s none = Unit
Fits s (some m) = (2 * length m ≤ length s) × AllBytes m

read-Fits :
    (s : List ℕ) (a b v : ℕ) (o : Option (List ℕ))
    → Fits s o
    → Fits (a ∷ b ∷ s) (if v == 2 ^ 64 - 1 then none else Option.map (λ m. (v % 256) ∷ m) o)
read-Fits s a b v none h = elim (Bool-cases (v == 2 ^ 64 - 1)) [ inl e ↦ rw e tt | inr e ↦ rw e tt ]
read-Fits s a b v (some m) h = elim (Bool-cases (v == 2 ^ 64 - 1)) [
  | inl e ↦ rw e tt
  | inr e ↦ rw e (omega (arith, h.0), (omega arith, h.1))
]

hex2mem-Fits : (s : List ℕ) → Fits s (hex2mem_len s)
unfolding hex2mem_len
hex2mem-Fits [] = (omega arith, tt)
hex2mem-Fits (a ∷ []) = (omega arith, tt)
hex2mem-Fits (a ∷ b ∷ s) = read-Fits s a b (strtoul_two a b) (hex2mem_len s) (hex2mem-Fits s)

-- Whatever the digits, hex2mem_len writes bytes, and no more of them than hex2mem_len_malloc asked
-- room for: half the length, rounded down.
pub hex2mem-fits : (s m : List ℕ) → hex2mem_len s ≡ some m → (length m ≤ length s / 2) × AllBytes m
hex2mem-fits s m e = let f : Fits s (some m) = rw e at (hex2mem-Fits s) in (omega (arith, f.0), f.1)

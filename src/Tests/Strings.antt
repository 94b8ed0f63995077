-- ===== src/Tests/Strings.antt =====
-- Strings for the helpers of a/util.c, a/to_do/util.c and a/debug.c.
use alib4c.Common.{◌+◌, ℕ, ◌*◌, ◌≡◌, refl, List, [], ◌∷◌, length, arith}
use alib4c.World.{Returns, ok, malloc}
use alib4c.Escape.{escape_colon, unescape_colon}
use alib4c.Escape.Laws.{Guarded, colons, unescape-escape}
use alib4c.Hex.{hex2mem_len_malloc, mem2hex}
use alib4c.Hex.RoundTrip.{hex2mem-mem2hex_lem}
use alib4c.Tests.Samples.{ready}

-- "a:b"
abbrev a_colon_b : List ℕ
a_colon_b = b'a' ∷ b':' ∷ b'b' ∷ []

unescape-escape_example : Returns (escape_colon a_colon_b ready) λ t v.
    (length t ≡ length a_colon_b + colons a_colon_b) × Guarded 0 t × (unescape_colon t ≡ a_colon_b)
unescape-escape_example =
    unescape-escape a_colon_b ready (ground arith, (ground arith, (ground arith, tt))) (omega arith)
      refl refl

abbrev two_bytes : List ℕ
two_bytes = 7 ∷ 255 ∷ []

hex2mem-mem2hex_lem_example :
    (hex2mem_len_malloc (mem2hex two_bytes) ready ≡ ok two_bytes (malloc ready).1)
    × (length (mem2hex two_bytes) ≡ 2 * length two_bytes)
hex2mem-mem2hex_lem_example =
    hex2mem-mem2hex_lem two_bytes ready (omega arith, (omega arith, tt)) refl

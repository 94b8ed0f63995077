-- ===== src/Util.antt =====
-- The string helpers of a/util.c. A string is the list of its bytes before the terminator, and a
-- pointer into it is an offset.
pub mod Basename
pub mod Barename
pub mod Chomp
pub mod Concat
use alib4c.Common.{
  ℕ, zero, suc, ◌+◌, ◌-◌, ◌%◌, ◌^◌, Bool, true, false, ◌&&◌, ◌||◌, not, Option, none, some, List,
  [], ◌∷◌, ◌++◌, ◌==◌, if◌then◌else◌, length, set, take, drop, byte_at,
}
use mathlib.Core.Option
use mathlib.Core.List.{map}
use alib4c.World.{World, M, ok, fault, ◌>>=◌, pure}
use alib4c.Mem.{Block, a_malloc, a_realloc, a_realloc_free, memcpy, c_string}

-- strchr and strrchr
unfoldable pub strchr : List ℕ → ℕ → Option ℕ
strchr [] c = none
strchr (b ∷ s) c = let found = strchr s c in if b == c then some 0 else Option.map suc found

unfoldable pub strrchr : List ℕ → ℕ → Option ℕ
strrchr [] c = none
strrchr (b ∷ s) c = elim (strrchr s c) [
  | some k ↦ some (suc k)
  | none ↦ if b == c then some 0 else none
]

-- `a || b` on pointers that may be NULL
abbrev pub or_ptr : Option ℕ → Option ℕ → Option ℕ
or_ptr none p = p
or_ptr (some k) p = some k

abbrev pub last_separator : List ℕ → Option ℕ
last_separator path = or_ptr (or_ptr (strrchr path b'/') (strrchr path b'\\')) (strchr path b':')

-- the offset of the result, `tmp + 1`
abbrev pub behind : Option ℕ → ℕ
behind none = 0
behind (some k) = suc k

unfoldable pub a_basename : List ℕ → List ℕ
a_basename path = drop (behind (last_separator path)) path

-- the part of a_barename that follows strrchr
unfoldable pub strip : Option ℕ → Block → M (Option Block)
strip none out w = ok (some out) w
strip (some k) out w = a_realloc_free (some (set out k (some 0))) (k + 1) w

unfoldable pub a_barename : List ℕ → M (Option Block)
a_barename path w =
    (let base = a_basename path in
        a_malloc (length base + 1) >>= λ got. elim got [
          | none ↦ pure none
          | some out ↦ strip (strrchr base b'.') (memcpy (length base + 1) (c_string base) out)
        ])
      w

abbrev pub is_space : ℕ → Bool
is_space c = (c == b' ') || (c == 12) || (c == b'\n') || (c == b'\r') || (c == b'\t') || (c == 11)

-- The loop of a_chomp over a string of which `k` bytes may be left: a write of the terminator cuts it.
unfoldable pub chomp_loop : ℕ → List ℕ → List ℕ
chomp_loop zero s = s
chomp_loop (suc k) s =
    let rest = chomp_loop k (take k s) in if is_space (byte_at s k) then rest else s

unfoldable pub a_chomp : List ℕ → List ℕ
a_chomp s = chomp_loop (length s) s

-- A fault on the empty string, where the byte before it is read.
unfoldable pub a_strchomp : List ℕ → Option (List ℕ)
a_strchomp [] = none
a_strchomp (b ∷ s) =
    let last = byte_at (b ∷ s) (length s) in
    if (last == b'\n') || (last == b' ') || (last == b'\t')
    then some (take (length s) (b ∷ s))
    else some (b ∷ s)

-- strcat reads the block up to its terminator and then writes; a cell that was never written, or the
-- end of the block, is a fault.
unfoldable pub strcat : Block → Block → Option Block
strcat [] add = none
strcat (none ∷ out) add = none
strcat (some zero ∷ out) add = some (memcpy (length add) add (some zero ∷ out))
strcat (some (suc c) ∷ out) add = elim (strcat out add) [
  | none ↦ none
  | some r ↦ some (some (suc c) ∷ r)
]

abbrev pub string_block : Option (List ℕ) → Option Block
string_block s = Option.map c_string s

-- `if(orig) orig_len = strlen(orig)`
abbrev pub orig_length : Option (List ℕ) → ℕ
orig_length none = 0
orig_length (some s) = length s

abbrev pub strcat_or_fault : Option Block → List ℕ → M (Option Block)
strcat_or_fault none add w = ok none w
strcat_or_fault (some out) add w = elim (strcat out (c_string add)) [
  | none ↦ fault
  | some r ↦ ok (some r) w
]

unfoldable pub a_strcat_realloc : Option (List ℕ) → Option (List ℕ) → M (Option Block)
a_strcat_realloc orig none w = ok (string_block orig) w
a_strcat_realloc orig (some add) w =
    (a_realloc (string_block orig) (orig_length orig + length add + 1) >>= λ (out, live).
    strcat_or_fault out add)
      w

-- `memcpy(a + a_len, b, b_len)`
unfoldable pub memcpy_at : ℕ → Block → Block → Block
memcpy_at zero src out = memcpy (length src) src out
memcpy_at (suc n) src [] = []
memcpy_at (suc n) src (c ∷ out) = c ∷ memcpy_at n src out

unfoldable pub memcat_realloc : Option Block → ℕ → Block → M (Option Block)
memcat_realloc a a_len b w =
    (a_realloc a (a_len + length b) >>= λ (out, live). pure (Option.map (memcpy_at a_len b) out)) w

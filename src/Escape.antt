-- ===== src/Escape.antt =====
-- The escapes of colons of a/to_do/util.c. A string is the list of its bytes before the terminator.
pub mod Laws
use alib4c.Common.{
  ℕ, zero, suc, ◌+◌, ◌*◌, Bool, true, false, not, ◌&&◌, Option, none, some, List, [], ◌∷◌, ◌==◌,
  if◌then◌else◌, ◌%◌, ◌^◌, ltb, take, drop, byte_at, length,
}
use alib4c.World.{World, M, Run, ok, fault, died, ◌>>=◌, malloc}

abbrev pub colon : ℕ
colon = b':'

abbrev pub backslash : ℕ
backslash = b'\\'

-- the bytes that the loop of escape_colon writes
unfoldable pub escaped : List ℕ → List ℕ
escaped [] = []
escaped (c ∷ s) = if c == colon then backslash ∷ c ∷ escaped s else c ∷ escaped s

-- `sizeof(char) * (strlen(in)*2 + 1)` of a size_t
unfoldable pub room : List ℕ → ℕ
room s = (length s * 2 + 1) % 2 ^ 64

-- xmalloc of the room, the loop and the terminator, where a write behind the room is a fault, and
-- xrealloc to the size of the result, which keeps what is written. Either ends the process when the
-- allocator fails.
unfoldable pub escape_colon : List ℕ → M (List ℕ)
escape_colon s w =
    let (got, v) = malloc w in
    let (again, u) = malloc v in
    let out = escaped s in
    if not got
    then died
    else (if ltb (room s) (length out + 1)
        then fault
        else (if not again then died else ok (take (length out) out) u))

-- `leading` reads on, `following` is where the next byte that is kept goes.
unfoldable pub unescape_colon : List ℕ → List ℕ
unescape_colon [] = []
unescape_colon (c ∷ s) = if c == backslash then unescape_colon s else c ∷ unescape_colon s

-- strchr(in, ':') as an offset
unfoldable pub find_colon : List ℕ → Option ℕ
find_colon [] = none
find_colon (c ∷ s) =
    if c == colon then some 0 else (elim (find_colon s) [ none ↦ none | some k ↦ some (suc k) ])

-- `ptr > in && *(ptr - 1) != '\\'`
abbrev pub again : List ℕ → Option ℕ → Bool
again s none = false
again s (some zero) = false
again s (some (suc k)) = not (byte_at s k == backslash)

-- The loop of clip_at_colon, which ends with `ptr`; `none` means that the fuel ran out.
unfoldable pub clip_loop : ℕ → List ℕ → Option (Option ℕ)
clip_loop zero s = none
clip_loop (suc n) s =
    let next = clip_loop n s in if again s (find_colon s) then next else some (find_colon s)

-- What is left in `in`, and the string at the pointer that is returned, NULL where no colon is.
unfoldable pub clipped : List ℕ → Option ℕ → List ℕ × Option (List ℕ)
clipped s none = (s, none)
clipped s (some k) = (unescape_colon (take k s), some (drop (suc k) s))

-- `none` is a loop that does not end within the fuel.
unfoldable pub clip_at_colon : ℕ → List ℕ → Option (List ℕ × Option (List ℕ))
clip_at_colon n s = elim (clip_loop n s) [ none ↦ none | some p ↦ some (clipped s p) ]

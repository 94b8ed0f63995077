-- ===== src/Buffers.antt =====
-- write_buf and read_buf of old/buffers.c.
pub mod Reading
pub mod Writing
use alib4c.Common.{
  ℕ, zero, suc, ◌+◌, ◌-◌, Bool, true, false, Option, none, some, List, [], ◌∷◌, ◌++◌, ◌==◌,
  if◌then◌else◌, ltb, ◌^◌, length, take, drop,
}
use mathlib.Core.Option
use mathlib.Core.List.{map}
use alib4c.World.{World, Run, M, ok, fault, malloc, emit_if, block_freed}
use alib4c.Mem.{Block, resized}
use alib4c.Util.{memcpy_at}

-- the first number that an int does not hold
abbrev pub int_limit : ℕ
int_limit = 2 ^ 31

-- What write answers: of its `i`-th call, asked for a number of bytes, how many it took,
-- which are not more than it was asked for; `none` is -1.
abbrev pub Writes : Type 0
Writes = ℕ → ℕ → Option ℕ

-- How write_buf ends: with a status, by handing write an address before the buffer, on a buffer whose
-- length the int `len` does not hold, or, in the model only, when the fuel is used up.
pub data Written : Type 0 where
  returned_zero : List ℕ → Written
  returned_error : Written
  outside : Written
  too_long : Written
  running : Written

-- the bytes that a call of write takes
abbrev pub taken : Option ℕ → ℕ → List ℕ → List ℕ
taken none offset buf = []
taken (some k) offset buf = take k (drop offset buf)

-- `writelen != len`
abbrev pub is_whole : Option ℕ → ℕ → Bool
is_whole none len = false
is_whole (some k) len = k == len

-- `tmp += writelen; len -= writelen;`
abbrev pub advanced : Option ℕ → ℕ → ℕ → Option (ℕ × ℕ)
advanced (some k) tmp len = some (tmp + k, len - k)
advanced none zero len = none
advanced none (suc tmp) len = some (tmp, len + 1)

-- The loop. `i` counts the calls of write, `sent` is what they took.
unfoldable pub write_loop : ℕ → Writes → List ℕ → ℕ → ℕ → ℕ → Option ℕ → List ℕ → Written
write_loop zero writes buf i tmp len writelen sent = running
write_loop (suc n) writes buf i tmp len writelen sent =
    if is_whole writelen len then returned_zero sent else elim (advanced writelen tmp len) [
      | none ↦ outside
      | some moved ↦
          let got = writes i moved.1 in
          write_loop n writes buf (suc i) moved.0 moved.1 got (sent ++ taken got moved.0 buf)
    ]

abbrev pub after_first : ℕ → Writes → List ℕ → Option ℕ → Written
after_first fuel writes buf none = returned_error
after_first fuel writes buf (some k) =
    write_loop fuel writes buf 1 0 (length buf) (some k) (taken (some k) 0 buf)

unfoldable pub write_buf : ℕ → Writes → List ℕ → Written
write_buf fuel writes buf =
    if ltb (length buf) int_limit
    then after_first fuel writes buf (writes 0 (length buf))
    else too_long

-- `free(buf)` of a pointer that may be NULL
abbrev pub free_buf : Option Block → World → World
free_buf none w = w
free_buf (some b) w = emit_if true block_freed w

abbrev pub cells : Option Block → Block
cells none = []
cells (some b) = b

-- A sum that an int does not hold is undefined behaviour.
unfoldable pub in_int : ℕ → M (Option Block) → M (Option Block)
in_int n rest w = if ltb n int_limit then rest w else fault

-- The last realloc, of `tmp + 1` bytes, and the terminator.
unfoldable pub finish : Option Block → M (Option Block)
finish buf = in_int (length (cells buf) + 1) (λ w.
    let (got, v) = malloc w in
    if got
    then ok
        (some (
          memcpy_at (length (cells buf)) (some 0 ∷ [])
            (resized (length (cells buf) + 1) (cells buf))))
        v
    else ok none (free_buf buf v))

abbrev pub or_freed : Bool × World → Option Block → M (Option Block) → Run (Option Block)
or_freed (true, v) buf rest = rest v
or_freed (false, v) buf rest = ok none (free_buf buf v)

-- The list holds what the coming calls of read give: -1 is `none`, and at the end of the file there is
-- nothing more. `tmp` is the length of the buffer, and `tmp + readlen` is an int.
unfoldable pub read_loop : List (Option (List ℕ)) → Option Block → M (Option Block)
read_loop [] buf w = finish buf w
read_loop (none ∷ reads) buf w = ok none (free_buf buf w)
read_loop (some [] ∷ reads) buf w = finish buf w
read_loop (some (c ∷ chunk) ∷ reads) buf w =
    in_int (length (cells buf) + length (c ∷ chunk))
      (λ u. or_freed (malloc u) buf (
        read_loop reads (
          some (
            memcpy_at (length (cells buf)) (map some (c ∷ chunk))
              (resized (length (cells buf) + length (c ∷ chunk)) (cells buf))))))
      w

-- A first read that fails returns NULL like a later one: there is nothing to free then.
unfoldable pub read_buf : List (Option (List ℕ)) → M (Option Block)
read_buf reads w = read_loop reads none w

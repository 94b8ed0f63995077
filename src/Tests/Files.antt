-- ===== src/Tests/Files.antt =====
-- A vector of two buffers, a file system of one directory, a slow reader and writer, and a resolver of
-- one name.
use alib4c.Common.{
  ℕ, zero, suc, ◌≡◌, ◌==◌, refl, true, Option, none, some, List, [], ◌∷◌, arith, if◌then◌else◌,
}
use alib4c.World.{Returns}
use alib4c.Vec.{Iovec, Vec, a_vec_append_iovecs}
use alib4c.Vec.Chain.{IsVec}
use alib4c.Vec.Iovecs.{Appended, items_of, append_iovecs-Appended}
use alib4c.Buffers.{Writes, write_buf, returned_zero, read_loop}
use alib4c.Buffers.Writing.{Progresses, write_buf-sends}
use alib4c.Buffers.Reading.{Ends, read_loop-Ends}
use alib4c.Tests.Samples.{ready}

abbrev two_buffers : List Iovec
two_buffers = record { iov_base = 100; iov_len = 3 } ∷ record { iov_base = 200; iov_len = 5 } ∷ []

abbrev two_items : Vec
two_items = record { items = items_of true two_buffers; tail = some 0; num = 2; total = 8 }

two_items-IsVec : IsVec two_items
two_items-IsVec = record { last = refl; count = refl; sizes = refl }

append_iovecs-Appended_example :
    Returns
      (a_vec_append_iovecs two_items two_buffers true ready)
      (Appended two_items two_buffers true)
append_iovecs-Appended_example =
    append_iovecs-Appended two_items two_buffers true ready two_items-IsVec (omega arith)

-- one byte a call
abbrev slow : Writes
slow i zero = some 0
slow i (suc n) = some 1

slow-Progresses : Progresses slow
slow-Progresses i zero = (0, refl, omega arith, λ h. absurd (omega (arith, h)))
slow-Progresses i (suc n) = (1, refl, omega arith, λ h. omega arith)

write_buf-sends_example : write_buf 3 slow (7 ∷ 8 ∷ []) ≡ returned_zero (7 ∷ 8 ∷ [])
write_buf-sends_example =
    write_buf-sends 3 slow (7 ∷ 8 ∷ []) slow-Progresses (omega arith) (omega arith)

-- one byte, and then errors
abbrev broken : Writes
broken i n = if i == 0 then some 1 else none

-- two chunks and the end of the file
abbrev two_chunks : List (Option (List ℕ))
two_chunks = some (7 ∷ 8 ∷ []) ∷ some (9 ∷ []) ∷ []

read_loop-Ends_example :
    Returns (read_loop two_chunks (some (some 6 ∷ [])) ready) (Ends two_chunks (some 6 ∷ []) ready)
read_loop-Ends_example = read_loop-Ends two_chunks (some 6 ∷ []) ready (omega arith)

-- ===== src/Trace/Strings.antt =====
-- The allocation functions of a/old/error.c.
use alib4c.Common.{
  ℕ, ◌+◌, ◌≡◌, refl, false, none, some, List, ◌++◌, ◌==◌, if◌then◌else◌, length, arith, Bool-cases,
  inl, inr, Lacks,
}
use alib4c.World.{World, ok, emit, block_freed, malloc, head_or_false}
use alib4c.Mem.{fresh, c_string}
use alib4c.Util.{strcat_or_fault}
use alib4c.Util.Concat.{
  resized-append, length-fresh, length-c_string, strcat-c_string, map-c_string, room,
}
use alib4c.Trace.{a_error_realloc, a_error_strcat_realloc}

-- Appending to a string gives the two strings one behind the other; when realloc fails the result is
-- NULL and the first string is freed, once.
pub error_strcat_realloc-append :
    (orig add : List ℕ) (w : World)
    → Lacks 0 orig
    → a_error_strcat_realloc (some orig) (some add) w ≡ (
        if head_or_false w.mallocs
        then ok (some (c_string (orig ++ add))) (malloc w).1
        else ok none (emit block_freed (malloc w).1))
unfolding a_error_strcat_realloc a_error_realloc
error_strcat_realloc-append orig add w h =
    let p : (length orig + length add + 1 == 0) ≡ false = ground arith in
    elim (Bool-cases (head_or_false w.mallocs)) [
      | inl e ↦
          rw
            (
              p,
              e,
              room orig add,
              resized-append (c_string orig) (length add),
              strcat_or_fault,
              strcat-c_string orig (fresh (length add)) (c_string add) h
                  (omega (arith, length-c_string add, length-fresh (length add))),
              map-c_string orig add,
            )
            refl
      | inr e ↦ rw (p, e) refl
    ]

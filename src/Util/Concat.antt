-- ===== src/Util/Concat.antt =====
-- The results of a_strcat_realloc and memcat_realloc of a/util.c.
use alib4c.Common.{
  ℕ, zero, suc, ◌+◌, ◌≡◌, refl, ap, none, some, List, [], ◌∷◌, ◌++◌, ◌==◌, arith, true, false,
  length, length-replicate, Lacks,
}
use native.Mathlib.Nat.{zero-add, suc-add}
use mathlib.Core.List.{map}
use alib4c.World.{World, head_or_false, ok, fault, malloc}
use alib4c.Mem.{Block, fresh, resized, memcpy, c_string, a_realloc}
use alib4c.Util.{strcat, a_strcat_realloc, strcat_or_fault, memcpy_at}

resized-nil : (n : ℕ) → resized n [] ≡ fresh n
unfolding resized
resized-nil zero = refl
resized-nil (suc n) = ap (λ b. none ∷ b) (resized-nil n)

pub resized-append : (b : Block) (n : ℕ) → resized (length b + n) b ≡ b ++ fresh n
unfolding resized
resized-append [] n = rw (zero-add n) (resized-nil n)
resized-append (c ∷ b) n = rw (suc-add (length b) n) (ap (λ r. c ∷ r) (resized-append b n))

pub memcpy-fresh : (b out : Block) → length b ≡ length out → memcpy (length b) b out ≡ b
unfolding memcpy
memcpy-fresh [] [] h = refl
memcpy-fresh [] (d ∷ out) h = absurd (omega (arith, h))
memcpy-fresh (c ∷ b) [] h = absurd (omega (arith, h))
memcpy-fresh (c ∷ b) (d ∷ out) h = ap (λ r. c ∷ r) (memcpy-fresh b out (omega (arith, h)))

pub memcpy_at-append :
    (a b out : Block) → length b ≡ length out → memcpy_at (length a) b (a ++ out) ≡ a ++ b
unfolding memcpy_at
memcpy_at-append [] b out h = memcpy-fresh b out h
memcpy_at-append (c ∷ a) b out h = ap (λ r. c ∷ r) (memcpy_at-append a b out h)

pub length-fresh : (n : ℕ) → length (fresh n) ≡ n
length-fresh n = length-replicate n none

-- what strcat makes of a string in a block of the size a_realloc gave it
pub strcat-c_string :
    (s : List ℕ) (out add : Block)
    → Lacks 0 s
    → length add ≡ suc (length out)
    → strcat (c_string s ++ out) add ≡ some (map some s ++ add)
unfolding strcat
strcat-c_string [] out add h e = ap some (memcpy-fresh add (some 0 ∷ out) e)
strcat-c_string (zero ∷ s) out add (h, g) e = absurd (h refl)
strcat-c_string (suc b ∷ s) out add (h, g) e = rw (strcat-c_string s out add g e) refl

pub map-c_string : (s t : List ℕ) → map some s ++ c_string t ≡ c_string (s ++ t)
map-c_string [] t = refl
map-c_string (b ∷ s) t = ap (λ r. some b ∷ r) (map-c_string s t)

pub length-c_string : (s : List ℕ) → length (c_string s) ≡ length s + 1
length-c_string [] = refl
length-c_string (b ∷ s) = omega (arith, length-c_string s)

pub room : (s t : List ℕ) → length s + length t + 1 ≡ length (c_string s) + length t
room s t = rw (length-c_string s) (omega arith)

some_room : (n : ℕ) → 0 + n + 1 ≡ suc n
some_room n = omega arith

-- With memory to be had, appending to a string gives the two strings one behind the other in one
-- block, and appending to NULL reads the new block before it was ever written.
pub strcat_realloc-append :
    (orig add : List ℕ) (w : World)
    → Lacks 0 orig
    → head_or_false w.mallocs ≡ true
    → (a_strcat_realloc (some orig) (some add) w ≡ ok (some (c_string (orig ++ add))) (malloc w).1)
      × (a_strcat_realloc none (some add) w ≡ fault)
unfolding a_strcat_realloc a_realloc strcat resized
strcat_realloc-append orig add w h e =
    let p : (length orig + length add + 1 == 0) ≡ false = ground arith in
    let q : (0 + length add + 1 == 0) ≡ false = ground arith in
    (
      rw
          (
            p,
            e,
            room orig add,
            resized-append (c_string orig) (length add),
            strcat_or_fault,
            strcat-c_string orig (fresh (length add)) (c_string add) h
                (omega (arith, length-c_string add, length-fresh (length add))),
            map-c_string orig add,
          )
          refl,
      rw (q, e, some_room (length add), strcat_or_fault) refl,
    )

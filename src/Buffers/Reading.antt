-- ===== src/Buffers/Reading.antt =====
-- What read_buf of old/buffers.c returns and what it gives back.
use alib4c.Common.{
  ℕ, zero, suc, ◌+◌, ◌<◌, ltb, ◌≡◌, ◌⊎◌, refl, ap, sym, ◌∙◌, true, Option, none, some, List, [],
  ◌∷◌, ◌++◌, length, replicate, arith, Bool-cases, inl, inr,
}
use mathlib.Core.Option
use mathlib.Core.List.{map, append_assoc}
use alib4c.World.{M, World, Returns, emit, block_freed, malloc, head_or_false, rest}
use alib4c.World.Log.{blocks_freed}
use alib4c.Mem.{Block, fresh, resized, c_string}
use alib4c.Util.{memcpy_at}
use alib4c.Util.Concat.{memcpy_at-append, resized-append, length-fresh}
use alib4c.Buffers.{int_limit, in_int, cells, finish, or_freed, read_loop, read_buf}

-- what the reads give up to the end of the file; `none` when one of them fails before it
abbrev pub contents : List (Option (List ℕ)) → Option (List ℕ)
contents [] = some []
contents (none ∷ reads) = none
contents (some [] ∷ reads) = some []
contents (some (c ∷ chunk) ∷ reads) = Option.map (λ s. (c ∷ chunk) ++ s) (contents reads)

-- a block that grew by another
grown : (a b : Block) → memcpy_at (length a) b (resized (length a + length b) a) ≡ a ++ b
grown a b =
    rw (resized-append a (length b))
      (memcpy_at-append a b (fresh (length b)) (sym (length-fresh (length b))))

length-map : (s : List ℕ) → length (map some s) ≡ length s
length-map [] = refl
length-map (c ∷ s) = ap suc (length-map s)

grown_string :
    (a : Block) (s : List ℕ)
    → memcpy_at (length a) (map some s) (resized (length a + length s) a) ≡ a ++ map some s
grown_string a s = rw (sym (length-map s)) (grown a (map some s))

length-grown : (a : Block) (s : List ℕ) → length (a ++ map some s) ≡ length a + length s
length-grown [] s = length-map s ∙ omega arith
length-grown (c ∷ a) s = omega (arith, length-grown a s)

map-c_string : (a : Block) (s t : List ℕ) → (a ++ map some s) ++ c_string t ≡ a ++ c_string (s ++ t)
map-c_string a s t = append_assoc a (map some s) (c_string t) ∙ ap (λ b. a ++ b) (go s)
  where
    go : (s : List ℕ) → map some s ++ c_string t ≡ c_string (s ++ t)
    go [] = refl
    go (c ∷ s) = ap (λ b. some c ∷ b) (go s)

-- the number of the bytes that the reads give up to the end of the file
abbrev pub amount : List (Option (List ℕ)) → ℕ
amount [] = 0
amount (none ∷ reads) = 0
amount (some [] ∷ reads) = 0
amount (some (c ∷ chunk) ∷ reads) = length (c ∷ chunk) + amount reads

in_int-run :
    (n : ℕ) (go_on : M (Option Block)) (w : World) → n < int_limit → in_int n go_on w ≡ go_on w
unfolding in_int
in_int-run n go_on w h = let e : ltb n int_limit ≡ true = ground (arith, h) in rw e refl

-- From a buffer `b`: NULL, with the buffer freed once, or what was read behind `b`, with nothing freed.
abbrev pub Ends : List (Option (List ℕ)) → Block → World → Option Block → World → Type 0
Ends reads b w out v =
    ((out ≡ none) × (blocks_freed v.log ≡ suc (blocks_freed w.log)))
    ⊎ ((s : List ℕ) × (contents reads ≡ some s) × (out ≡ some (b ++ c_string s)) × (v.log ≡ w.log))

finish-Ends :
    (reads : List (Option (List ℕ))) (b : Block) (w : World)
    → contents reads ≡ some []
    → length b + 1 < int_limit
    → Returns (finish (some b) w) (Ends reads b w)
unfolding finish
finish-Ends reads b w e small =
    rw (in_int-run (length b + 1) _ w small) (elim (Bool-cases (head_or_false w.mallocs)) [
      | inl h ↦ (
        some (b ++ c_string []),
        (malloc w).1,
        rw (h, grown b (some 0 ∷ [])) refl,
        inr ([], e, refl, refl),
      )
      | inr h ↦ (none, emit block_freed (malloc w).1, rw h refl, inl (refl, refl))
    ])

-- Whatever malloc and read answer, read_buf with a buffer in hand ends, if the buffer, what the reads give
-- up to the end of the file and the terminator are less than 2^31 bytes. It ends in NULL with that buffer
-- freed, once, or in the buffer followed by all that the reads gave up to the end of the file and a
-- terminator, with nothing freed.
pub read_loop-Ends :
    (reads : List (Option (List ℕ))) (b : Block) (w : World)
    → length b + amount reads + 1 < int_limit
    → Returns (read_loop reads (some b) w) (Ends reads b w)
unfolding read_loop
read_loop-Ends [] b w small = finish-Ends [] b w refl (omega (arith, small))
read_loop-Ends (none ∷ reads) b w small = (none, emit block_freed w, refl, inl (refl, refl))
read_loop-Ends (some [] ∷ reads) b w small =
    finish-Ends (some [] ∷ reads) b w refl (omega (arith, small))
read_loop-Ends (some (c ∷ chunk) ∷ reads) b w small =
    let n = length b + length (c ∷ chunk) in
    rw (in_int-run n _ w (omega (arith, small))) (elim (Bool-cases (head_or_false w.mallocs)) [
      | inl h ↦
          let long : length (b ++ map some (c ∷ chunk)) ≡ length b + length (c ∷ chunk) =
            length-grown b (c ∷ chunk) in
          let (out, v, e, r) =
            read_loop-Ends reads (b ++ map some (c ∷ chunk)) (malloc w).1
              (omega (arith, long, small)) in
          (out, v, rw (or_freed, h, grown_string b (c ∷ chunk)) e, longer out v r)
      | inr h ↦ (none, emit block_freed (malloc w).1, rw (or_freed, h) refl, inl (refl, refl))
    ])
  where
    longer :
        (out : Option Block) (v : World)
        → Ends reads (b ++ map some (c ∷ chunk)) (malloc w).1 out v
        → Ends (some (c ∷ chunk) ∷ reads) b w out v
    longer out v (inl r) = inl r
    longer out v (inr (s, p, q, l)) =
        inr ((c ∷ chunk) ++ s, rw p refl, q ∙ ap some (map-c_string b (c ∷ chunk) s), l)

-- what the run gives when neither malloc nor read fails
abbrev Whole : Option Block → List ℕ → World → Option Block → World → Type 0
Whole buf s w out v = (out ≡ some (cells buf ++ c_string s)) × (v.log ≡ w.log)

abbrev bytes_of : Option (List ℕ) → List ℕ
bytes_of none = []
bytes_of (some s) = s

finish-Whole :
    (buf : Option Block) (s : List ℕ) (w : World)
    → some [] ≡ some s
    → length (cells buf) + 1 < int_limit
    → head_or_false w.mallocs ≡ true
    → Returns (finish buf w) (Whole buf s w)
unfolding finish
finish-Whole buf s w e small h =
    let none_read : [] ≡ s = ap bytes_of e in
    rw (in_int-run (length (cells buf) + 1) _ w small) (
      some (cells buf ++ some 0 ∷ []),
      (malloc w).1,
      rw (h, grown (cells buf) (some 0 ∷ [])) refl,
      (rw (sym none_read) refl, refl),
    )

read_loop-contents :
    (reads : List (Option (List ℕ))) (buf : Option Block) (s : List ℕ) (n : ℕ) (w : World)
    → contents reads ≡ some s
    → length (cells buf) + amount reads + 1 < int_limit
    → length reads < n
    → w.mallocs ≡ replicate n true
    → Returns (read_loop reads buf w) (Whole buf s w)
unfolding read_loop
read_loop-contents reads buf s zero w e small f h = absurd (omega (arith, f))
read_loop-contents [] buf s (suc n) w e small f h =
    finish-Whole buf s w e (omega (arith, small)) (ap head_or_false h)
read_loop-contents (none ∷ reads) buf s (suc n) w e small f h = absurd (cc e)
read_loop-contents (some [] ∷ reads) buf s (suc n) w e small f h =
    finish-Whole buf s w e (omega (arith, small)) (ap head_or_false h)
read_loop-contents (some (c ∷ chunk) ∷ reads) buf s (suc n) w e small f h =
    go
      (λ t k.
        read_loop-contents reads (some (cells buf ++ map some (c ∷ chunk))) t n (malloc w).1 k
          (omega (arith, length-grown (cells buf) (c ∷ chunk), small)) (omega (arith, f))
          (ap rest h))
      (contents reads) refl
  where
    after : Block
    after = cells buf ++ map some (c ∷ chunk)

    go :
        ((t : List ℕ)
          → contents reads ≡ some t
          → Returns (read_loop reads (some after) (malloc w).1) (Whole (some after) t (malloc w).1))
        → (o : Option (List ℕ)) → contents reads ≡ o
        → Returns (read_loop (some (c ∷ chunk) ∷ reads) buf w) (Whole buf s w)
    go more none k = absurd (cc (rw k at e))
    go more (some t) k =
        let (out, v, r, (q, l)) = more t k in
        (
          out,
          v,
          rw
              (
                in_int-run (length (cells buf) + length (c ∷ chunk)) _ w (omega (arith, small)),
                or_freed,
                ap head_or_false h,
                grown_string (cells buf) (c ∷ chunk),
              )
              r,
          (
            q
                ∙ ap some (map-c_string (cells buf) (c ∷ chunk) t)
                ∙ ap (λ u. some (cells buf ++ c_string u)) (ap bytes_of (rw k at e)),
            l,
          ),
        )

-- With memory to be had, and less than 2^31 bytes with the terminator, read_buf returns what the reads give up to the end of the file, and a
-- terminator, and gives nothing back.
pub read_buf-contents :
    (reads : List (Option (List ℕ))) (s : List ℕ) (n : ℕ) (w : World)
    → contents reads ≡ some s
    → amount reads + 1 < int_limit
    → length reads < n
    → w.mallocs ≡ replicate n true
    → Returns (read_buf reads w) (λ out v. (out ≡ some (c_string s)) × (v.log ≡ w.log))
unfolding read_buf
read_buf-contents reads s n w e small f h =
    read_loop-contents reads none s n w e (omega (arith, small)) f h

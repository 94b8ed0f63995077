-- ===== src/Vec/Iovecs.antt =====
-- The functions of a/old/vec.c that take and give arrays of buffers.
use alib4c.Common.{
  ℕ, suc, ◌+◌, ◌%◌, ◌^◌, ◌<◌, ◌≡◌, refl, ap, sym, ◌∙◌, Bool, true, false, none, some, List, [], ◌∷◌,
  ◌++◌, ◌==◌, length, length-append, replicate, arith, Bool-cases, inl, inr,
}
use mathlib.Core.List.{map, append-nil, append_assoc}
use alib4c.World.{World, Returns, ok, malloc, head_or_false}
use alib4c.Vec.{
  Iovec, VecItem, Vec, add64, a_vec_prepend_item, a_vec_prepend, a_vec_append, a_vec_prepend_iovecs,
  a_vec_append_iovecs, a_vec_size, a_vec_to_iovec, a_vec_to_iovec_alloc, a_iovec_size,
}
use alib4c.Vec.Chain.{IsVec, HasRoom, sum_sizes, prepend_item-IsVec, append_item-IsVec}

abbrev item_of : Bool → Iovec → VecItem
item_of f i = record { buffer = i; free_ptr = f }

-- the items for an array of buffers
abbrev pub items_of : Bool → List Iovec → List VecItem
items_of f [] = []
items_of f (i ∷ iovecs) = item_of f i ∷ items_of f iovecs

-- The last buffers of the array, all of them when the flag is true, stand in their order in front of
-- the items of `v`.
abbrev pub Prepended : Vec → List Iovec → Bool → Bool × Vec → World → Type 0
Prepended v iovecs f (good, u) w =
    IsVec u
    × (skipped : List Iovec) × (added : List Iovec) × (iovecs ≡ skipped ++ added)
    × (u.items ≡ items_of f added ++ v.items)
    × (good ≡ (length skipped == 0))

-- The first buffers of the array stand in their order behind the items of `v`.
abbrev pub Appended : Vec → List Iovec → Bool → Bool × Vec → World → Type 0
Appended v iovecs f (good, u) w =
    IsVec u
    × (added : List Iovec) × (skipped : List Iovec) × (iovecs ≡ added ++ skipped)
    × (u.items ≡ v.items ++ items_of f added)
    × (good ≡ (length skipped == 0))

length-items_of : (f : Bool) (iovecs : List Iovec) → length (items_of f iovecs) ≡ length iovecs
length-items_of f [] = refl
length-items_of f (i ∷ iovecs) = ap suc (length-items_of f iovecs)

prepend-Prepended :
    (v : Vec) (i : Iovec) (f : Bool) (w : World)
    → IsVec v
    → HasRoom v
    → Returns (a_vec_prepend v i f w) (Prepended v (i ∷ []) f)
unfolding a_vec_prepend
prepend-Prepended v i f w h r =
    let (g, e) = prepend_item-IsVec v (item_of f i) h r in
    elim (Bool-cases (head_or_false w.mallocs)) [
      | inl c ↦ (
        (true, a_vec_prepend_item v (item_of f i)),
        (malloc w).1,
        rw c refl,
        (g, [], i ∷ [], refl, e, refl),
      )
      | inr c ↦ ((false, v), (malloc w).1, rw c refl, (h, i ∷ [], [], refl, refl, refl))
    ]

append-Appended :
    (v : Vec) (i : Iovec) (f : Bool) (w : World)
    → IsVec v
    → HasRoom v
    → Returns (a_vec_append v i f w) (Appended v (i ∷ []) f)
unfolding a_vec_append
append-Appended v i f w h r =
    let (u, c, g, e) = append_item-IsVec v (item_of f i) h r in
    elim (Bool-cases (head_or_false w.mallocs)) [
      | inl b ↦ ((true, u), (malloc w).1, rw (b, c) refl, (g, i ∷ [], [], refl, e, refl))
      | inr b ↦ (
        (false, v),
        (malloc w).1,
        rw b refl,
        (h, [], i ∷ [], refl, sym (append-nil v.items), refl),
      )
    ]

items_of-append : (f : Bool) (a b : List Iovec) → items_of f (a ++ b) ≡ items_of f a ++ items_of f b
items_of-append f [] b = refl
items_of-append f (i ∷ a) b = ap (λ r. item_of f i ∷ r) (items_of-append f a b)

-- Whatever malloc answers, prepending an array to a vector that stays below 2^64 items gives a vector
-- again. It prepends the last buffers of the array, in their order, and the flag says whether these
-- are all of them.
pub prepend_iovecs-Prepended :
    (v : Vec) (iovecs : List Iovec) (f : Bool) (w : World)
    → IsVec v
    → length iovecs + length v.items < 2 ^ 64
    → Returns (a_vec_prepend_iovecs v iovecs f w) (Prepended v iovecs f)
unfolding a_vec_prepend_iovecs
prepend_iovecs-Prepended v [] f w h r = ((true, v), w, refl, (h, [], [], refl, refl, refl))
prepend_iovecs-Prepended v (i ∷ iovecs) f w h r =
    go (prepend_iovecs-Prepended v iovecs f w h (omega (arith, r)))
  where
    room :
        (u : Vec) (added : List Iovec)
        → iovecs ≡ added
        → u.items ≡ items_of f added ++ v.items
        → HasRoom u
    room u added p q =
        rw (q, length-append (items_of f added) v.items, length-items_of f added, sym p)
          (omega (arith, r))

    go :
        Returns (a_vec_prepend_iovecs v iovecs f w) (Prepended v iovecs f)
        → Returns (a_vec_prepend_iovecs v (i ∷ iovecs) f w) (Prepended v (i ∷ iovecs) f)
    go ((false, u), w1, e, (g, skipped, added, p, q, c)) =
        ((false, u), w1, rw e refl, (g, i ∷ skipped, added, ap (λ l. i ∷ l) p, q, ground arith))
    go ((true, u), w1, e, (g, s ∷ skipped, added, p, q, c)) = absurd (ground (arith, c))
    go ((true, u), w1, e, (g, [], added, p, q, c)) =
        let ((good, t), w2, k, (g2, s2, a2, p2, q2, c2)) =
          prepend-Prepended u i f w1 g (room u added p q) in
        (
          (good, t),
          w2,
          rw e k,
          (
            g2,
            s2,
            a2 ++ added,
            ap (λ l. i ∷ l) p ∙ ap (λ l. l ++ added) p2 ∙ append_assoc s2 a2 added,
            q2
                ∙ ap (λ l. items_of f a2 ++ l) q
                ∙ sym (append_assoc (items_of f a2) (items_of f added) v.items)
                ∙ ap (λ l. l ++ v.items) (sym (items_of-append f a2 added)),
            c2,
          ),
        )

-- Whatever malloc answers, appending an array to a vector that stays below 2^64 items gives a vector
-- again. It appends the first buffers of the array, in their order, and the flag says whether these
-- are all of them.
pub append_iovecs-Appended :
    (v : Vec) (iovecs : List Iovec) (f : Bool) (w : World)
    → IsVec v
    → length iovecs + length v.items < 2 ^ 64
    → Returns (a_vec_append_iovecs v iovecs f w) (Appended v iovecs f)
unfolding a_vec_append_iovecs
append_iovecs-Appended v [] f w h r =
    ((true, v), w, refl, (h, [], [], refl, sym (append-nil v.items), refl))
append_iovecs-Appended v (i ∷ iovecs) f w h r =
    go (λ u w1 g room. append_iovecs-Appended u iovecs f w1 g room)
      (append-Appended v i f w h (omega (arith, r)))
  where
    room :
        (u : Vec) (added : List Iovec)
        → i ∷ [] ≡ added
        → u.items ≡ v.items ++ items_of f added
        → length iovecs + length u.items < 2 ^ 64
    room u added p q = rw (q, length-append v.items (items_of f added), sym p) (omega (arith, r))

    go :
        ((u : Vec) (w1 : World)
          → IsVec u
          → length iovecs + length u.items < 2 ^ 64
          → Returns (a_vec_append_iovecs u iovecs f w1) (Appended u iovecs f))
        → Returns (a_vec_append v i f w) (Appended v (i ∷ []) f)
        → Returns (a_vec_append_iovecs v (i ∷ iovecs) f w) (Appended v (i ∷ iovecs) f)
    go rec ((false, u), w1, e, (g, added, [], p, q, c)) = absurd (ground (arith, c))
    go rec ((false, u), w1, e, (g, added, s ∷ skipped, p, q, c)) = (
      (false, u),
      w1,
      rw e refl,
      (
        g,
        added,
        (s ∷ skipped) ++ iovecs,
        ap (λ l. l ++ iovecs) p ∙ append_assoc added (s ∷ skipped) iovecs,
        q,
        ground arith,
      ),
    )
    go rec ((true, u), w1, e, (g, added, s ∷ skipped, p, q, c)) = absurd (ground (arith, c))
    go rec ((true, u), w1, e, (g, added, [], p, q, c)) =
        let p' : i ∷ [] ≡ added = p ∙ append-nil added in
        let ((good, t), w2, k, (g2, a2, s2, p2, q2, c2)) = rec u w1 g (room u added p' q) in
        (
          (good, t),
          w2,
          rw e k,
          (
            g2,
            added ++ a2,
            s2,
            ap (λ l. l ++ iovecs) p' ∙ ap (λ l. added ++ l) p2 ∙ sym (append_assoc added a2 s2),
            q2
                ∙ ap (λ l. l ++ items_of f a2) q
                ∙ append_assoc v.items (items_of f added) (items_of f a2)
                ∙ ap (λ l. v.items ++ l) (sym (items_of-append f added a2)),
            c2,
          ),
        )

abbrev pub buffers : List VecItem → List Iovec
buffers [] = []
buffers (i ∷ items) = i.buffer ∷ buffers items

to_iovec-buffers :
    (items : List VecItem)
    → a_vec_to_iovec items (replicate (length items) none) ≡ some (map some (buffers items))
unfolding a_vec_to_iovec
to_iovec-buffers [] = refl
to_iovec-buffers (i ∷ items) = rw (to_iovec-buffers items) refl

iovec_size-sum :
    (items : List VecItem) (n : ℕ)
    → a_iovec_size (n % 2 ^ 64) (buffers items) ≡ (n + sum_sizes items) % 2 ^ 64
unfolding a_iovec_size
iovec_size-sum [] n = omega arith
iovec_size-sum (i ∷ items) n =
    let p : add64 (n % 2 ^ 64) i.buffer.iov_len ≡ (n + i.buffer.iov_len) % 2 ^ 64 = omega arith in
    ap (λ m. a_iovec_size m (buffers items)) p
    ∙ iovec_size-sum items (n + i.buffer.iov_len)
    ∙ ap (λ m. m % 2 ^ 64) (omega arith)

-- The array that a_vec_to_iovec_alloc makes of such a vector, when malloc succeeds, holds the buffers
-- of the chain in their order, none of its cells is left unwritten, and the sum of its lengths, as
-- a_iovec_size takes it, is what a_vec_size says.
pub to_iovec-iovec_size :
    (v : Vec) (w : World)
    → IsVec v
    → head_or_false w.mallocs ≡ true
    → (a_vec_to_iovec_alloc v w ≡ ok (some (map some (buffers v.items))) (malloc w).1)
      × (a_iovec_size 0 (buffers v.items) ≡ a_vec_size v)
unfolding a_vec_to_iovec_alloc
to_iovec-iovec_size v w h e = (
  rw (e, h.count, to_iovec-buffers v.items) refl,
  rw h.sizes (iovec_size-sum v.items 0 ∙ ap (λ n. n % 2 ^ 64) (omega arith)),
)

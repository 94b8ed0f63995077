-- ===== src/Vec/Chain.antt =====
-- What holds of every vector that a/old/vec.c builds.
use alib4c.Common.{
  ℕ, ◌+◌, ◌-◌, ◌%◌, ◌^◌, ◌<◌, ◌≡◌, refl, ap, ◌∙◌, false, Option, none, some, List, [], ◌∷◌, ◌++◌,
  ◌==◌, if◌then◌else◌, length, take, length-append, arith,
}
use native.Mathlib.Nat.{sub-zero}
use alib4c.Vec.{
  VecItem, Vec, add64, a_vec_init, counted, a_vec_prepend_item, behind_tail, a_vec_append_item,
}

abbrev pub sum_sizes : List VecItem → ℕ
sum_sizes [] = 0
sum_sizes (i ∷ items) = i.buffer.iov_len + sum_sizes items

sum_sizes-append : (a b : List VecItem) → sum_sizes (a ++ b) ≡ sum_sizes a + sum_sizes b
sum_sizes-append [] b = omega arith
sum_sizes-append (i ∷ a) b = omega (arith, sum_sizes-append a b)

abbrev pub TailIsLast : List VecItem → Option ℕ → Type 0
TailIsLast [] t = t ≡ none
TailIsLast (i ∷ items) t = t ≡ some 0

-- The tail points to the last item, and the count and the total are those of the chain.
pub record IsVec (v : Vec) : Type 0 where
  pub last : TailIsLast v.items v.tail
  pub count : v.num ≡ length v.items
  pub sizes : v.total ≡ sum_sizes v.items % 2 ^ 64

-- one more item fits in a size_t
abbrev pub HasRoom : Vec → Type 0
HasRoom v = length v.items + 1 < 2 ^ 64

pub init-IsVec : IsVec a_vec_init
init-IsVec = record { last = refl; count = refl; sizes = refl }

take_whole : (items : List VecItem) → take (length items - 0) items ≡ items
take_whole items = rw (sub-zero (length items)) (go items)
  where
    go : (items : List VecItem) → take (length items) items ≡ items
    go [] = refl
    go (i ∷ items) = ap (λ r. i ∷ r) (go items)

add64-mod : (s m : ℕ) → add64 (s % 2 ^ 64) m ≡ (m + s) % 2 ^ 64
add64-mod s m = omega arith

-- Prepending to such a vector gives such a vector, whose chain has the new item in front.
pub prepend_item-IsVec :
    (v : Vec) (i : VecItem)
    → IsVec v
    → HasRoom v
    → IsVec (a_vec_prepend_item v i) × ((a_vec_prepend_item v i).items ≡ i ∷ v.items)
unfolding a_vec_prepend_item
prepend_item-IsVec v i h r = (
  record {
    last = prepend_last v.items v.tail v.num h.last h.count;
    count = rw h.count (omega (arith, r));
    sizes = rw h.sizes (add64-mod (sum_sizes v.items) i.buffer.iov_len);
  },
  refl,
)
  where
    prepend_last :
        (items : List VecItem) (t : Option ℕ) (n : ℕ)
        → TailIsLast items t
        → n ≡ length items
        → (if n == 0 then some (length items) else t) ≡ some 0
    prepend_last [] t n e c = rw c refl
    prepend_last (j ∷ items) t n e c =
        let p : (n == 0) ≡ false = ground (arith, c) in rw (p, e) refl

-- Appending to such a vector gives such a vector, whose chain has the new item at the end.
pub append_item-IsVec :
    (v : Vec) (i : VecItem)
    → IsVec v
    → HasRoom v
    → (u : Vec) × (a_vec_append_item v i ≡ some u) × IsVec u × (u.items ≡ v.items ++ i ∷ [])
unfolding a_vec_append_item
append_item-IsVec v i h r = (
  counted (v.items ++ i ∷ []) (some 0) v i,
  rw (appended v.items v.tail v.num h.last h.count) refl,
  record {
    last = last_of v.items;
    count = rw h.count (omega (arith, r, length-append v.items (i ∷ [])));
    sizes = rw h.sizes (
        add64-mod (sum_sizes v.items) i.buffer.iov_len
        ∙ ap (λ n. n % 2 ^ 64) (omega (arith, sum_sizes-append v.items (i ∷ []))));
  },
  refl,
)
  where
    appended :
        (items : List VecItem) (t : Option ℕ) (n : ℕ)
        → TailIsLast items t
        → n ≡ length items
        → (if n == 0 then some (i ∷ []) else behind_tail items t i) ≡ some (items ++ i ∷ [])
    appended [] t n e c = rw c refl
    appended (j ∷ items) t n e c =
        let p : (n == 0) ≡ false = ground (arith, c) in
        rw (p, e, behind_tail, take_whole (j ∷ items)) refl

    last_of : (items : List VecItem) → TailIsLast (items ++ i ∷ []) (some 0)
    last_of [] = refl
    last_of (j ∷ items) = refl

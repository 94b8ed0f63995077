-- ===== src/LinkedList/Links.antt =====
-- What a list of a/list.c stands for: the items that its pointers lead through.
use alib4c.Common.{ℕ, ◌+◌, ◌≡◌, ◌≢◌, List, [], ◌∷◌, ◌++◌, arith}
use alib4c.World.{Ptr, null}
use alib4c.LinkedList.{Memory, write}

-- the item is none of the list
abbrev pub Absent : Ptr → List Ptr → Type 0
Absent x [] = Unit
Absent x (y ∷ ys) = (x ≢ y) × Absent x ys

-- From `p` the pointers lead through the distinct items `xs` to NULL.
abbrev pub Links : Memory → ℕ → Ptr → List Ptr → Type 0
Links m off p [] = p ≡ null
Links m off p (x ∷ xs) = (p ≡ x + off) × (p ≢ null) × Absent x xs × Links m off (m p) xs

-- the address of the last item's link
abbrev pub last : ℕ → Ptr → List Ptr → Ptr
last off y [] = y + off
last off y (z ∷ zs) = last off z zs

-- A write to an item that is not on the list leaves the list as it is.
pub Links-write :
    (m : Memory) (off : ℕ) (p : Ptr) (xs : List Ptr) (x v : Ptr)
    → Absent x xs
    → Links m off p xs
    → Links (write m (x + off) v) off p xs
unfolding write
Links-write m off p [] x v a h = h
Links-write m off p (y ∷ xs) x v a h = ground (arith, Links-write m off (m p) xs x v a.1 h.3)

Absent-append : (x y : Ptr) (ys : List Ptr) → Absent x ys → x ≢ y → Absent x (ys ++ y ∷ [])
Absent-append x y [] a n = (n, tt)
Absent-append x y (z ∷ ys) a n = (a.0, Absent-append x y ys a.1 n)

last-Absent : (off : ℕ) (x y : Ptr) (ys : List Ptr) → Absent x (y ∷ ys) → x + off ≢ last off y ys
last-Absent off x y [] a = omega arith
last-Absent off x y (z ∷ ys) a = last-Absent off x z ys a.1

-- Linking a new item behind the last one.
pub Links-snoc :
    (m : Memory) (off : ℕ) (p y : Ptr) (ys : List Ptr) (x : Ptr)
    → Links m off p (y ∷ ys)
    → Absent x (y ∷ ys)
    → x + off ≢ null
    → Links (write (write m (x + off) null) (last off y ys) (x + off)) off p ((y ∷ ys) ++ x ∷ [])
unfolding write
Links-snoc m off p y [] x h a n = ground arith
Links-snoc m off p y (z ∷ ys) x h a n = ground (
  arith,
  Links-snoc m off (m p) z ys x h.3 a.1 n,
  last-Absent off y z ys h.2,
  Absent-append y x (z ∷ ys) h.2,
)

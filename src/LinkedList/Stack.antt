-- ===== src/LinkedList/Stack.antt =====
-- a_list_prepend and a_list_decap of a/list.c: a last-in, first-out stack, and what becomes of the
-- tail that a queue needs.
use alib4c.Common.{ℕ, suc, ◌+◌, ◌^◌, ◌<◌, ◌≡◌, ◌≢◌, refl, none, some, List, [], ◌∷◌, arith, length}
use alib4c.World.{Ptr, null}
use alib4c.LinkedList.{Memory, write, Handle, a_list_append, a_list_prepend, a_list_decap}
use alib4c.LinkedList.Links.{Absent, Links, Links-write}
use alib4c.LinkedList.Queue.{IsQueue}

-- A queue, but for its tail.
pub record IsStack (m : Memory) (l : Handle) (xs : List Ptr) : Type 0 where
  pub links : Links m l.offset l.head xs
  pub count : l.count ≡ length xs

-- the memory and the list after a prepend
abbrev pub linked_first : Memory → Handle → Ptr → Memory
linked_first m l x = write m (x + l.offset) l.head

abbrev pub prepended : Handle → Ptr → ℕ → Handle
prepended l x n = record l { head = x + l.offset; count = n }

prepend_run :
    (m : Memory) (l : Handle) (x : Ptr) (n : ℕ)
    → l.count ≡ n
    → n + 1 < 2 ^ 32
    → x + l.offset ≢ null
    → a_list_prepend m l x ≡ some (linked_first m l x, prepended l x (n + 1), n + 1)
unfolding a_list_prepend
prepend_run m l x n c small li = ground arith

prepended-Links :
    (m : Memory) (l : Handle) (x : Ptr) (xs : List Ptr)
    → Links m l.offset l.head xs
    → Absent x xs
    → x + l.offset ≢ null
    → Links (linked_first m l x) l.offset (x + l.offset) (x ∷ xs)
prepended-Links m l x xs h a n =
    let new : linked_first m l x (x + l.offset) ≡ l.head = unfold write in ground arith in
    (refl, n, a, rw new (Links-write m l.offset l.head xs x l.head a h))

-- On a stack of fewer than 2^32 - 1 items, a_list_prepend of an item that is not on it, its link not
-- at NULL, puts the item first and returns the new number of items.
pub prepend-IsStack :
    (m : Memory) (l : Handle) (x : Ptr) (xs : List Ptr)
    → IsStack m l xs
    → Absent x xs
    → x + l.offset ≢ null
    → length xs + 1 < 2 ^ 32
    → (a_list_prepend m l x
        ≡ some (linked_first m l x, prepended l x (length xs + 1), length xs + 1))
      × IsStack (linked_first m l x) (prepended l x (length xs + 1)) (x ∷ xs)
prepend-IsStack m l x xs s a n small = (
  prepend_run m l x (length xs) s.count small n,
  record { links = prepended-Links m l x xs s.links a n; count = omega arith },
)

-- On a stack with an item, a_list_decap returns the first item and leaves the stack of the others.
pub decap-IsStack :
    (m : Memory) (l : Handle) (x : Ptr) (xs : List Ptr)
    → IsStack m l (x ∷ xs)
    → (l' : Handle) × (a_list_decap m l ≡ some (x, l')) × IsStack m l' xs
unfolding a_list_decap
decap-IsStack m l x [] s = (
  record l { head = null; tail = null; count = 0 },
  ground arith,
  record { links = refl; count = refl },
)
decap-IsStack m l x (y ∷ ys) s = (
  record l { head = m l.head; count = suc (length ys) },
  ground arith,
  record { links = s.links.3; count = refl },
)

-- On a queue of at least one and fewer than 2^32 - 1 items, a_list_prepend of an item that is not on
-- it, its link not at NULL, returns the new number of items and leaves a queue with the item first.
pub prepend-IsQueue :
    (m : Memory) (l : Handle) (x y : Ptr) (ys : List Ptr)
    → IsQueue m l (y ∷ ys)
    → Absent x (y ∷ ys)
    → x + l.offset ≢ null
    → length (y ∷ ys) + 1 < 2 ^ 32
    → (a_list_prepend m l x
        ≡ some (linked_first m l x, prepended l x (length (y ∷ ys) + 1), length (y ∷ ys) + 1))
      × IsQueue (linked_first m l x) (prepended l x (length (y ∷ ys) + 1)) (x ∷ y ∷ ys)
prepend-IsQueue m l x y ys q a n small = (
  prepend_run m l x (length (y ∷ ys)) q.count small n,
  record { links = prepended-Links m l x (y ∷ ys) q.links a n; count = omega arith; tail = q.tail },
)

-- A prepend to an empty queue, of an item whose link is not at NULL, succeeds but leaves `tail` NULL,
-- so that the next a_list_append, of any item, writes through NULL.
pub prepend-append_faults :
    (m : Memory) (l : Handle) (x z : Ptr)
    → IsQueue m l []
    → x + l.offset ≢ null
    → (a_list_prepend m l x ≡ some (linked_first m l x, prepended l x 1, 1))
      × (a_list_append (linked_first m l x) (prepended l x 1) z ≡ none)
unfolding a_list_append
prepend-append_faults m l x z q n = (prepend_run m l x 0 q.count (omega arith) n, ground arith)

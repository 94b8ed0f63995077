-- ===== src/LinkedList/Queue.antt =====
-- a_list_append and a_list_decap of a/list.c: a first-in, first-out queue.
use alib4c.Common.{
  ℕ, suc, ◌+◌, ◌^◌, ◌<◌, ◌≡◌, ◌≢◌, refl, sym, some, List, [], ◌∷◌, ◌++◌, arith, length,
  length-append,
}
use mathlib.Core.Path.{subst}
use alib4c.World.{Ptr, null}
use alib4c.LinkedList.{Memory, write, Handle, a_list_init, a_list_append, a_list_decap}
use alib4c.LinkedList.Links.{Absent, Links, last, Links-snoc}

-- The `tail` pointer of a list: that of the last item, or NULL.
abbrev pub TailOf : Handle → List Ptr → Type 0
TailOf l [] = l.tail ≡ null
TailOf l (x ∷ xs) = l.tail ≡ last l.offset x xs

pub record IsQueue (m : Memory) (l : Handle) (xs : List Ptr) : Type 0 where
  pub links : Links m l.offset l.head xs
  pub count : l.count ≡ length xs
  pub tail : TailOf l xs

-- A list after a_list_init is an empty queue.
pub init-IsQueue : (m : Memory) (offset : ℕ) → IsQueue m (a_list_init offset) []
unfolding a_list_init
init-IsQueue m offset = record { links = refl; count = refl; tail = refl }

-- what a_list_append returned and left
abbrev pub Appended : Memory → Handle → Ptr → List Ptr → Type 0
Appended m l x xs =
    (m' : Memory) × (l' : Handle) × (a_list_append m l x ≡ some (m', l', length xs + 1))
    × IsQueue m' l' (xs ++ x ∷ [])
    × (l'.offset ≡ l.offset)

last-ne_null :
    (m : Memory) (off : ℕ) (p y : Ptr) (ys : List Ptr)
    → Links m off p (y ∷ ys)
    → last off y ys ≢ null
last-ne_null m off p y [] h = ground arith
last-ne_null m off p y (z ∷ ys) h = last-ne_null m off (m p) z ys h.3

last-snoc : (off : ℕ) (y : Ptr) (ys : List Ptr) (x : Ptr) → last off y (ys ++ x ∷ []) ≡ x + off
last-snoc off y [] x = refl
last-snoc off y (z ∷ ys) x = last-snoc off z ys x

-- the list after an append, and the run in the two branches
abbrev extended : Handle → Ptr → Ptr → ℕ → Handle
extended l head x n = record l { head = head; tail = x + l.offset; count = n }

append_first :
    (m : Memory) (l : Handle) (x : Ptr)
    → l.count ≡ 0
    → x + l.offset ≢ null
    → a_list_append m l x ≡ some (write m (x + l.offset) null, extended l (x + l.offset) x 1, 1)
unfolding a_list_append
append_first m l x c n = ground arith

append_next :
    (m : Memory) (l : Handle) (x : Ptr) (n : ℕ)
    → l.count ≡ suc n
    → suc n + 1 < 2 ^ 32
    → x + l.offset ≢ null
    → l.tail ≢ null
    → a_list_append m l x
      ≡ some (
        write (write m (x + l.offset) null) l.tail (x + l.offset),
        extended l l.head x (suc n + 1),
        suc n + 1,
      )
unfolding a_list_append
append_next m l x n c small li ends = ground arith

-- On a queue of fewer than 2^32 - 1 items, a_list_append of an item that is not on it, its link not
-- at NULL, puts the item last and returns the new number of items.
pub append-IsQueue :
    (m : Memory) (l : Handle) (x : Ptr) (xs : List Ptr)
    → IsQueue m l xs
    → Absent x xs
    → x + l.offset ≢ null
    → length xs + 1 < 2 ^ 32
    → Appended m l x xs
append-IsQueue m l x [] q a n small = (
  write m (x + l.offset) null,
  extended l (x + l.offset) x 1,
  append_first m l x q.count n,
  record { links = unfold write in ground arith; count = refl; tail = refl },
  refl,
)
append-IsQueue m l x (y ∷ ys) q a n small =
    let ends = last-ne_null m l.offset l.head y ys q.links in
    (
      write (write m (x + l.offset) null) l.tail (x + l.offset),
      extended l l.head x (length (y ∷ ys) + 1),
      append_next m l x (length ys) q.count small n (rw q.tail ends),
      record {
        links =
            subst
              (λ z.
                Links (write (write m (x + l.offset) null) z (x + l.offset)) l.offset l.head
                  ((y ∷ ys) ++ x ∷ []))
              (sym q.tail) (Links-snoc m l.offset l.head y ys x q.links a n);
        count = omega (arith, length-append ys (x ∷ []));
        tail = sym (last-snoc l.offset y ys x);
      },
      refl,
    )

-- On a queue with an item, a_list_decap returns the first item and leaves the queue of the others.
pub decap-IsQueue :
    (m : Memory) (l : Handle) (x : Ptr) (xs : List Ptr)
    → IsQueue m l (x ∷ xs)
    → (l' : Handle) × (a_list_decap m l ≡ some (x, l')) × IsQueue m l' xs × (l'.offset ≡ l.offset)
unfolding a_list_decap
decap-IsQueue m l x [] q = (
  record l { head = null; tail = null; count = 0 },
  ground arith,
  record { links = refl; count = refl; tail = refl },
  refl,
)
decap-IsQueue m l x (y ∷ ys) q = (
  record l { head = m l.head; count = suc (length ys) },
  ground arith,
  record { links = q.links.3; count = refl; tail = q.tail },
  refl,
)

-- On an empty queue it returns NULL and changes nothing.
pub decap-empty : (m : Memory) (l : Handle) → IsQueue m l [] → a_list_decap m l ≡ some (null, l)
unfolding a_list_decap
decap-empty m l q = rw q.count

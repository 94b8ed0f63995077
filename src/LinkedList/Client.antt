-- ===== src/LinkedList/Client.antt =====
-- A user of the list of a/list.h who only appends and decaps, against a queue that is a list.
use alib4c.Common.{
  ℕ, ◌+◌, ◌^◌, ◌<◌, ◌≡◌, ◌≢◌, refl, Option, none, some, List, [], ◌∷◌, ◌++◌, length,
}
use mathlib.Core.Option
use alib4c.World.{Ptr, null}
use alib4c.LinkedList.{Memory, Handle, a_list_append, a_list_decap}
use alib4c.LinkedList.Links.{Absent}
use alib4c.LinkedList.Queue.{IsQueue, append-IsQueue, decap-IsQueue, decap-empty}

pub data Request : Type 0 where
  append_it : Ptr → Request
  decap_it : Request

-- The replies of a sequence of calls, the numbers of items and the items, with the memory and the list
-- that are left; `none` is a write through NULL.
abbrev pub serve : List Request → Memory → Handle → Option (List ℕ × Memory × Handle)
serve [] m l = some ([], m, l)
serve (append_it x ∷ rs) m l = elim (a_list_append m l x) [
  | none ↦ none
  | some r ↦ Option.map (λ (replies, m2, l2). (r.2 ∷ replies, m2, l2)) (serve rs r.0 r.1)
]
serve (decap_it ∷ rs) m l = elim (a_list_decap m l) [
  | none ↦ none
  | some r ↦ Option.map (λ (replies, m2, l2). (r.0 ∷ replies, m2, l2)) (serve rs m r.1)
]

-- the same on a list of items
abbrev pub queue_run : List Request → List Ptr → List ℕ × List Ptr
queue_run [] xs = ([], xs)
queue_run (append_it x ∷ rs) xs =
    let (replies, left) = queue_run rs (xs ++ x ∷ []) in ((length xs + 1) ∷ replies, left)
queue_run (decap_it ∷ rs) [] = let (replies, left) = queue_run rs [] in (null ∷ replies, left)
queue_run (decap_it ∷ rs) (x ∷ xs) = let (replies, left) = queue_run rs xs in (x ∷ replies, left)

-- No item is appended that is in the queue, or whose link would be NULL, and the queue stays shorter
-- than the counter can count.
abbrev pub Polite : ℕ → List Request → List Ptr → Type 0
Polite off [] xs = Unit
Polite off (append_it x ∷ rs) xs =
    Absent x xs × (x + off ≢ null) × (length xs + 1 < 2 ^ 32) × Polite off rs (xs ++ x ∷ [])
Polite off (decap_it ∷ rs) [] = Polite off rs []
Polite off (decap_it ∷ rs) (x ∷ xs) = Polite off rs xs

-- the run gives these replies and leaves a list of these items
abbrev pub Queues : Option (List ℕ × Memory × Handle) → List ℕ × List Ptr → Type 0
Queues run (replies, left) =
    (m : Memory) × (l : Handle) × (run ≡ some (replies, m, l)) × IsQueue m l left

-- A sequence of appends and decaps on a list that holds some items in order runs without a write through
-- NULL, and its replies and the items that it leaves are those of a queue: first in, first out, where a
-- decap of the empty queue gives NULL. It appends no item that is in the queue.
pub serve-Queues :
    (rs : List Request) (m : Memory) (l : Handle) (xs : List Ptr)
    → IsQueue m l xs
    → Polite l.offset rs xs
    → Queues (serve rs m l) (queue_run rs xs)
serve-Queues [] m l xs q p = (m, l, refl, q)
serve-Queues (append_it x ∷ rs) m l xs q (absent, link, small, p) =
    let (m', l', run, q', off) = append-IsQueue m l x xs q absent link small in
    let (m2, l2, run2, q2) = serve-Queues rs m' l' (xs ++ x ∷ []) q' (rw off p) in
    (m2, l2, rw (run, serve, run2) refl, q2)
serve-Queues (decap_it ∷ rs) m l [] q p =
    let (m2, l2, run2, q2) = serve-Queues rs m l [] q p in
    (m2, l2, rw (decap-empty m l q, serve, run2) refl, q2)
serve-Queues (decap_it ∷ rs) m l (x ∷ xs) q p =
    let (l', run, q', off) = decap-IsQueue m l x xs q in
    let (m2, l2, run2, q2) = serve-Queues rs m l' xs q' (rw off p) in
    (m2, l2, rw (run, serve, run2) refl, q2)

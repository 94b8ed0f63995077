-- ===== src/Tests/Lists.antt =====
-- The list of a/list.c, at two items with their link 8 bytes in.
use alib4c.Common.{refl, List, [], ◌∷◌, ◌==◌, if◌then◌else◌, arith}
use alib4c.World.{null}
use alib4c.LinkedList.{Memory, Handle}
use alib4c.LinkedList.Client.{Request, append_it, decap_it, serve, queue_run, Queues, serve-Queues}
use alib4c.LinkedList.Queue.{IsQueue, Appended, append-IsQueue}

-- the item at 100, then the item at 200
abbrev linked_pair : Memory
linked_pair p = if p == 108 then 208 else null

abbrev pair : Handle
pair = record { head = 108; tail = 208; offset = 8; count = 2 }

pair-IsQueue : IsQueue linked_pair pair (100 ∷ 200 ∷ [])
pair-IsQueue = record { links = omega arith; count = refl; tail = refl }

append-IsQueue_example : Appended linked_pair pair 300 (100 ∷ 200 ∷ [])
append-IsQueue_example =
    append-IsQueue linked_pair pair 300 (100 ∷ 200 ∷ []) pair-IsQueue (omega arith) (omega arith)
      (omega arith)

abbrev calls : List Request
calls = append_it 300 ∷ decap_it ∷ decap_it ∷ decap_it ∷ decap_it ∷ []

serve-Queues_example : Queues (serve calls linked_pair pair) (queue_run calls (100 ∷ 200 ∷ []))
serve-Queues_example =
    serve-Queues calls linked_pair pair (100 ∷ 200 ∷ []) pair-IsQueue
      (omega arith, omega arith, omega arith, tt)

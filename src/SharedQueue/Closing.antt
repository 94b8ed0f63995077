-- ===== src/SharedQueue/Closing.antt =====
-- What q_close and q_deinit of a/to_do/queue.c leave behind, and what a closed queue does not take.
use alib4c.Common.{
  ℕ, ◌+◌, ◌%◌, ◌^◌, ◌<◌, ◌≡◌, refl, ◌∙◌, ap, inl, inr, true, false, ◌&&◌, List, [], ◌∷◌, ◌==◌,
  if◌then◌else◌, arith, Bool-cases, length, length-append,
}
use alib4c.World.{Ptr, World, Returns, ok, malloc, head_or_false, emit, block_freed}
use alib4c.World.Log.{blocks_freed, vals_freed}
use alib4c.SharedQueue.{
  Item, Shared, nobody, one, Section, returns_status, q_deinit, deinit_loop, del_items, del_q_item,
  set_open, q_close, wake_if, q_enque, enque_section, is_set,
}
use alib4c.SharedQueue.Threads.{Pc, idle, close, act, Woken, System, after, Reach, lands}
use alib4c.SharedQueue.Tally.{tally, is_asleep}
use alib4c.SharedQueue.Waking.{Sleepers, Woken-Roused, tally-after, rouse_watch-asleep}
use alib4c.SharedQueue.Effects.{IsChain, Holds, put_last}
use alib4c.SharedQueue.Invariant.{Reach-Inv}

record Closed (q : Shared) (x : Section) : Type 0 where
  shut : x.queue.is_open ≡ false
  signal : x.to_waiting ≡ wake_if q.waiting one
  next : x.next ≡ returns_status 0

act_close-Closed : (q : Shared) (w : World) → Holds (Closed q) (act close q w)
unfolding act q_close set_open
act_close-Closed q w = elim (Bool-cases q.alive) [
  | inl e ↦ rw e (record { shut = refl; signal = refl; next = refl })
  | inr e ↦ rw e tt
]

-- A thread that calls q_close while others sleep in q_dequeue wakes one of them and no more: the
-- queue is closed, and all the sleepers but one are still asleep, though nothing will be put in.
pub close_wakes_one :
    {n : ℕ} {s : System} {i : ℕ} {x : Section} {p : ℕ → Pc} {w : World}
    → n + 1 < 2 ^ 32
    → Reach n s
    → i < n
    → s.pc i ≡ idle
    → 0 < tally is_asleep n s.pc
    → act close s.queue s.world ≡ ok x w
    → Woken n s.pc x.to_waiting p
    → ((after s i close x p w).queue.is_open ≡ false)
      × (tally is_asleep n (after s i close x p w).pc + 1 ≡ tally is_asleep n s.pc)
close_wakes_one {n} {s} {i} {x} {p} {w} few r l at some_sleep e u =
    let v = Reach-Inv few r in
    let c : Closed s.queue x = rw e at (act_close-Closed s.queue s.world) in
    let k = Woken-Roused u in
    let stays : p i ≡ idle = k.kept i (rw at (λ z. cc)) ∙ at in
    let moved =
      tally-after is_asleep n p x.to_watching i idle (lands x.next) rouse_watch-asleep l stays in
    let ends : is_asleep (lands x.next) ≡ 0 = rw c.next refl in
    let waits : (s.queue.waiting == 0) ≡ false = ground (arith, v.waiting) in
    let once : x.to_waiting ≡ one = c.signal ∙ rw waits refl in
    let slept : Sleepers one (tally is_asleep n s.pc) (tally is_asleep n p) = rw once at k.asleep in
    (c.shut, ground (arith, slept, moved, ends))

-- the weight of the values that the items of a queue own
abbrev pub owned : (Ptr → ℕ) → List Item → ℕ
owned f [] = 0
owned f (it ∷ c) =
    (if (it.flags % 2 == 1) && is_set it.item_data then f it.item_data else 0) + owned f c

del_items-freed :
    (f : Ptr → ℕ) (c : List Item) (w : World)
    → (blocks_freed (del_items c w).log ≡ length c + blocks_freed w.log)
      × (vals_freed f (del_items c w).log ≡ owned f c + vals_freed f w.log)
unfolding del_items del_q_item
del_items-freed f [] w = (omega arith, omega arith)
del_items-freed f (it ∷ c) w =
    let ih = del_items-freed f c (del_q_item it w) in (ground (arith, ih.0), ground (arith, ih.1))

-- With no thread in a wait, q_deinit closes the queue, frees each item and the queue itself once, and
-- each value that an item owns by its flag once, and gives the queue back.
pub deinit-drains :
    (q : Shared) (w : World)
    → q.waiting ≡ 0
    → q.watching ≡ 0
    → Returns (q_deinit q w) λ x v.
      (x.queue.alive ≡ false)
      × (x.queue.is_open ≡ false)
      × (blocks_freed v.log ≡ length q.head + 1 + blocks_freed w.log)
      × ((f : Ptr → ℕ) → vals_freed f v.log ≡ owned f q.head + vals_freed f w.log)
unfolding q_deinit deinit_loop
deinit-drains q w none_wait none_watch = (
  record {
    next = returns_status 0;
    queue = record q { is_open = false; alive = false };
    to_waiting = nobody;
    to_watching = nobody;
  },
  emit block_freed (del_items q.head w),
  simp (none_wait, none_watch),
  (
    refl,
    refl,
    omega (arith, (del_items-freed (λ p. 0) q.head w).0),
    λ f. (del_items-freed f q.head w).1,
  ),
)

enque_section-size :
    (q : Shared) (it : Item)
    → IsChain q
    → length (enque_section q it).queue.head ≡ length q.head + (if q.is_open then 1 else 0)
unfolding enque_section
enque_section-size q it k =
    ground (arith, ap length (put_last q k it), length-append q.head (it ∷ []))

-- Where malloc answers, q_enque on an open queue has one item more in the queue or freed; on a closed
-- queue the item that it allocated is in neither, and is lost.
pub enque-kept :
    (q : Shared) (d : Ptr) (f : ℕ) (w : World)
    → IsChain q
    → head_or_false w.mallocs ≡ true
    → Returns (q_enque q d f w) λ x v.
      length x.queue.head + blocks_freed v.log
      ≡ length q.head + blocks_freed w.log + (if q.is_open then 1 else 0)
unfolding q_enque
enque-kept q d f w k got =
    let it : Item = record { item_data = d; flags = f } in
    (enque_section q it, (malloc w).1, rw got refl, omega (arith, enque_section-size q it k))

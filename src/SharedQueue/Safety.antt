-- ===== src/SharedQueue/Safety.antt =====
-- What threads may count on when they share a queue of a/to_do/queue.c.
use alib4c.Common.{
  ℕ, zero, suc, ◌+◌, ◌^◌, ◌≤◌, ◌<◌, ◌≡◌, refl, inl, inr, false, ◌++◌, ◌==◌, arith, Bool-cases,
}
use alib4c.SharedQueue.Threads.{Pc, idle, asleep_item, awake_item, System, Reach}
use alib4c.SharedQueue.Tally.{tally, is_asleep, is_awake, is_watch, tally-one}
use alib4c.SharedQueue.Effects.{contents}
use alib4c.SharedQueue.Invariant.{Reach-Inv}

-- Whatever the order of the sections of fewer than 2^32 - 1 threads, the queue is first in, first
-- out: the values put in so far are those taken out, in the same order, and then those in the queue.
pub first_in_first_out :
    {n : ℕ} {s : System} → n + 1 < 2 ^ 32 → Reach n s → s.put ≡ s.got ++ contents s.queue
first_in_first_out few r = (Reach-Inv few r).order

-- a thread that is counted stands somewhere
tally-some : (n : ℕ) (p : ℕ → Pc) → 0 < tally is_awake n p → (j : ℕ) × (j < n) × (p j ≡ awake_item)
tally-some zero p h = absurd (omega arith)
tally-some (suc n) p h = elim (Bool-cases (is_awake (p n) == 1)) [
  | inl e ↦ (n, omega arith, awake (p n) (ground arith))
  | inr e ↦
      let (j, l, y) = tally-some n p (ground (arith, awake-le (p n))) in (j, omega (arith, l), y)
]
  where
    awake : (a : Pc) → is_awake a ≡ 1 → a ≡ awake_item
    awake a e = ground arith

    awake-le : (a : Pc) → is_awake a ≤ 1
    awake-le a = ground arith

-- No wake-up is lost: on a queue of fewer than 2^32 - 1 threads, where one thread sleeps in q_dequeue
-- and the count of items is not 0, another thread is awake in q_dequeue and about to take an item.
pub no_lost_wake :
    {n : ℕ} {s : System}
    → n + 1 < 2 ^ 32
    → Reach n s
    → (i : ℕ) → i < n
    → s.pc i ≡ asleep_item
    → 0 < s.queue.num
    → (j : ℕ) × (j < n) × (s.pc j ≡ awake_item)
no_lost_wake {n} {s} few r i l e some_items =
    let v = Reach-Inv few r in
    let here = tally-one is_asleep n s.pc i l in
    let one_here : is_asleep (s.pc i) ≡ 1 = rw e refl in
    tally-some n s.pc (omega (arith, v.served (omega (arith, here, one_here))))

-- When q_deinit has given the queue back, none of fewer than 2^32 - 1 threads is in a wait on one of its
-- conditions, asleep or woken; each is outside of every section under the mutex. A thread that has called
-- a function of the queue, and is blocked on the mutex at the start of it, counts as outside.
pub deinit_alone :
    {n : ℕ} {s : System}
    → n + 1 < 2 ^ 32
    → Reach n s
    → s.queue.alive ≡ false
    → (i : ℕ) → i < n
    → s.pc i ≡ idle
deinit_alone {n} {s} few r gone i l =
    let v = Reach-Inv few r in
    let (a, b) = v.freed gone in
    let c = tally-one is_asleep n s.pc i l in
    let d = tally-one is_awake n s.pc i l in
    let e = tally-one is_watch n s.pc i l in
    outside (s.pc i) (omega (arith, c, v.waiting, a)) (omega (arith, d, v.waiting, a))
      (omega (arith, e, v.watching, b))
  where
    outside : (p : Pc) → is_asleep p ≡ 0 → is_awake p ≡ 0 → is_watch p ≡ 0 → p ≡ idle
    outside p x y z = ground arith

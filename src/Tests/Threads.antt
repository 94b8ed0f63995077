-- ===== src/Tests/Threads.antt =====
-- Three threads on a queue of a/to_do/queue.c.
use alib4c.Common.{ℕ, ◌<◌, ◌≡◌, refl, true, false, [], ◌∷◌, ◌++◌, arith}
use alib4c.World.{World, malloc}
use alib4c.SharedQueue.{
  Shared, q_init, q_enque, enque_section, q_dequeue, dequeue_loop, q_deinit, deinit_loop, del_items,
}
use alib4c.SharedQueue.Threads.{
  idle, awake_item, dequeue, enque, deinit, act, left, picked, System, turn, Reach, start, later,
}
use alib4c.SharedQueue.Effects.{contents}
use alib4c.SharedQueue.Safety.{first_in_first_out, no_lost_wake, deinit_alone}
use alib4c.Tests.Samples.{ready}

-- the world behind q_init
abbrev ready_now : World
ready_now = (malloc ready).1

abbrev new_queue : Shared
new_queue = record {
  head = [];
  tail = false;
  num = 0;
  waiting = 0;
  watching = 0;
  is_open = true;
  alive = true;
}

abbrev fresh_system : System
fresh_system = record { queue = new_queue; pc = λ _. idle; put = []; got = []; world = ready_now }

fresh-Reach : Reach 3 fresh_system
unfolding q_init
fresh-Reach = start new_queue ready ready_now refl

-- threads 0 and 1 wait for an item
two_wait : (s : System) × Reach 3 s
unfolding act q_dequeue dequeue_loop
two_wait =
    let one_waits = later fresh-Reach (turn 0 dequeue _ _ _ (omega arith) refl refl left) in
    (_, later one_waits (turn 1 dequeue _ _ _ (omega arith) refl refl left))

-- thread 2 puts in two values, and each wakes one of them
served : (s : System) × Reach 3 s
unfolding two_wait act q_enque enque_section
served = (
  _,
  later two_wait.1 (turn 2 (enque 7 1) _ _ _ (omega arith) refl refl (picked 0 (omega arith) refl)),
)

first_in_first_out_example : served.0.put ≡ served.0.got ++ contents served.0.queue
first_in_first_out_example = first_in_first_out (omega arith) served.1

no_lost_wake_example : (j : ℕ) × (j < 3) × (served.0.pc j ≡ awake_item)
unfolding served two_wait act q_enque enque_section q_dequeue dequeue_loop
no_lost_wake_example = no_lost_wake (omega arith) served.1 1 (omega arith) refl (omega arith)

-- thread 0 is alone and gives the queue back
given_back : (s : System) × Reach 3 s
unfolding act q_deinit deinit_loop del_items
given_back = (_, later fresh-Reach (turn 0 deinit _ _ _ (omega arith) refl refl left))

deinit_alone_example : given_back.0.pc 1 ≡ idle
unfolding given_back act q_deinit deinit_loop
deinit_alone_example = deinit_alone (omega arith) given_back.1 refl 1 (omega arith)

-- two values, of which the queue owns the first
abbrev two_items : Shared
two_items = record new_queue {
  head = record { item_data = 7; flags = 1 } ∷ record { item_data = 8; flags = 0 } ∷ [];
  tail = true;
  num = 2;
}

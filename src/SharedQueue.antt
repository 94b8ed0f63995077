-- ===== src/SharedQueue.antt =====
-- The queue between threads of a/to_do/queue.c. What a thread does from the lock of the mutex to its
-- unlock, or to the wait on a condition, is one section: the mutex lets no other thread in between.
-- The chain from `head` is the list of its items. `tail` is whether that pointer is set: it then
-- points to the last item.
pub mod Closing
pub mod Effects
pub mod Invariant
pub mod Safety
pub mod Sections
pub mod Tally
pub mod Threads
pub mod Waking
use alib4c.Common.{
  ℕ, zero, suc, ◌+◌, ◌-◌, ◌%◌, ◌^◌, Bool, true, false, ◌&&◌, ◌||◌, not, List, [], ◌∷◌, ◌++◌, ◌==◌,
  if◌then◌else◌,
}
use alib4c.World.{
  Ptr, null, World, M, ok, fault, died, malloc, emit, emit_if, val_freed, block_freed,
}

-- `item_data` is the field `data`.
pub record Item : Type 0 where
  pub item_data : Ptr
  pub flags : ℕ

-- `is_open` is the field `open`. `alive` is false once q_deinit has given the queue back.
pub record Shared : Type 0 where
  pub head : List Item
  pub tail : Bool
  pub num : ℕ
  pub waiting : ℕ
  pub watching : ℕ
  pub is_open : Bool
  pub alive : Bool

-- whom the calls of pthread_cond_signal and pthread_cond_broadcast on a condition wake
pub data Wake : Type 0 where
  nobody one everybody : Wake

-- how a section ends
pub data Next : Type 0 where
  returns_status : ℕ → Next
  returns_data : Ptr → Next
  returns_null : Next
  waits_item : Next
  waits_watch : Next

pub record Section : Type 0 where
  pub next : Next
  pub queue : Shared
  pub to_waiting : Wake
  pub to_watching : Wake

abbrev pub queue_status_success : ℕ
queue_status_success = 0

abbrev pub queue_status_closed : ℕ
queue_status_closed = 1

-- `++` and `--` on an unsigned int
abbrev pub inc32 : ℕ → ℕ
inc32 n = (n + 1) % 2 ^ 32

abbrev pub dec32 : ℕ → ℕ
dec32 n = (n + 2 ^ 32 - 1) % 2 ^ 32

-- `if(count) pthread_cond_...`
abbrev pub wake_if : ℕ → Wake → Wake
wake_if count wake = if count == 0 then nobody else wake

abbrev pub is_set : ℕ → Bool
is_set count = not (count == 0)

unfoldable pub q_init : M Shared
q_init w =
    let (got, v) = malloc w in
    if got
    then ok
        (record {
          head = [];
          tail = false;
          num = 0;
          waiting = 0;
          watching = 0;
          is_open = true;
          alive = true;
        })
        v
    else died

-- `item->flags & queue_flag_free_data && item->data`
unfoldable pub del_q_item : Item → World → World
del_q_item it w =
    emit block_freed
      (emit_if ((it.flags % 2 == 1) && is_set it.item_data) (val_freed it.item_data) w)

unfoldable pub enque_section : Shared → Item → Section
enque_section q it =
    if not q.is_open
    then record {
      next = returns_status queue_status_closed;
      queue = q;
      to_waiting = nobody;
      to_watching = nobody;
    }
    else record {
      next = returns_status queue_status_success;
      queue = record q {
        head = if q.tail then q.head ++ it ∷ [] else it ∷ [];
        tail = true;
        num = inc32 q.num;
      };
      to_waiting = wake_if q.waiting one;
      to_watching = wake_if q.watching everybody;
    }

-- new_q_item allocates by xmalloc, which ends the process when malloc fails.
unfoldable pub q_enque : Shared → Ptr → ℕ → M Section
q_enque q item_data flags w =
    let (got, v) = malloc w in
    if got then ok (enque_section q (record { item_data = item_data; flags = flags })) v else died

-- the chain is not empty: its first item is taken off
unfoldable pub take_item : Shared → List Item → M Section
take_item q [] w = fault
take_item q (it ∷ rest) w =
    ok
      (record {
        next = returns_data it.item_data;
        queue = record q {
          head = rest;
          tail = elim rest [ [] ↦ false | _ ∷ _ ↦ q.tail ];
          num = dec32 q.num;
        };
        to_waiting = nobody;
        to_watching = wake_if q.watching everybody;
      })
      (del_q_item (record it { item_data = null }) w)

-- q_dequeue from the test of its loop on
unfoldable pub dequeue_loop : Shared → M Section
dequeue_loop q w =
    if q.is_open && (q.num == 0)
    then ok
        (record {
          next = waits_item;
          queue = record q { waiting = inc32 q.waiting };
          to_waiting = nobody;
          to_watching = nobody;
        })
        w
    else (if (q.num == 0) && not q.is_open
        then ok
            (record {
              next = returns_null;
              queue = q;
              to_waiting = nobody;
              to_watching = wake_if q.watching everybody;
            })
            w
        else take_item q q.head w)

unfoldable pub q_dequeue : Shared → M Section
q_dequeue q = dequeue_loop q

-- q_dequeue after pthread_cond_wait
unfoldable pub q_dequeue_resumed : Shared → M Section
q_dequeue_resumed q = dequeue_loop (record q { waiting = dec32 q.waiting })

unfoldable pub del_items : List Item → World → World
del_items [] w = w
del_items (it ∷ rest) w = del_items rest (del_q_item it w)

-- q_deinit from the test of its loop on, with the calls of broadcast that were made before. Nothing here
-- looks at the threads that are blocked on the mutex when it is destroyed.
unfoldable pub deinit_loop : Shared → Wake → Wake → M Section
deinit_loop q to_waiting to_watching w =
    if is_set q.waiting || is_set q.watching
    then ok
        (record {
          next = waits_watch;
          queue = record q { watching = inc32 q.watching };
          to_waiting = to_waiting;
          to_watching = to_watching;
        })
        w
    else ok
        (record {
          next = returns_status queue_status_success;
          queue = record q { alive = false };
          to_waiting = to_waiting;
          to_watching = to_watching;
        })
        (emit block_freed (del_items q.head w))

unfoldable pub q_deinit : Shared → M Section
q_deinit q =
    deinit_loop (record q { is_open = false }) (wake_if q.waiting everybody)
      (wake_if q.watching everybody)

-- q_deinit after pthread_cond_wait
unfoldable pub q_deinit_resumed : Shared → M Section
q_deinit_resumed q = deinit_loop (record q { watching = dec32 q.watching }) nobody nobody

unfoldable pub q_num : Shared → M Section
q_num q w =
    ok
      (record { next = returns_status q.num; queue = q; to_waiting = nobody; to_watching = nobody })
      w

-- q_close and q_open, which store the two values
unfoldable pub set_open : Bool → Shared → M Section
set_open b q w =
    ok
      (record {
        next = returns_status queue_status_success;
        queue = record q { is_open = b };
        to_waiting = wake_if q.waiting one;
        to_watching = wake_if q.watching everybody;
      })
      w

unfoldable pub q_close : Shared → M Section
q_close = set_open false

unfoldable pub q_open : Shared → M Section
q_open = set_open true

-- ===== src/SharedQueue/Threads.antt =====
-- Threads that call the functions of a/to_do/queue.c on one queue, in any order.
use alib4c.Common.{ℕ, zero, ◌<◌, ◌≡◌, ◌≢◌, List, [], ◌∷◌, ◌++◌, ◌==◌, if◌then◌else◌}
use alib4c.World.{Ptr, World, M, ok, fault}
use alib4c.SharedQueue.{
  Shared, Wake, nobody, one, everybody, Next, returns_status, returns_data, waits_item, waits_watch,
  Section, q_init, q_enque, q_dequeue, q_dequeue_resumed, q_deinit, q_deinit_resumed, q_num,
  q_close, q_open,
}

-- Where a thread stands: outside of the sections, which a thread is too that waits for the mutex at the
-- start of a function, or in pthread_cond_wait on one of the conditions,
-- asleep or woken and about to have the mutex again.
pub data Pc : Type 0 where
  idle : Pc
  asleep_item : Pc
  awake_item : Pc
  asleep_watch : Pc
  awake_watch : Pc

pub data Call : Type 0 where
  enque : Ptr → ℕ → Call
  dequeue : Call
  dequeue_resumed : Call
  deinit : Call
  deinit_resumed : Call
  number : Call
  close : Call
  reopen : Call

-- where a thread stands before the section
abbrev pub from : Call → Pc
from dequeue_resumed = awake_item
from deinit_resumed = awake_watch
from _ = idle

-- and behind it
abbrev pub lands : Next → Pc
lands waits_item = asleep_item
lands waits_watch = asleep_watch
lands _ = idle

abbrev pub section : Call → Shared → M Section
section (enque d f) q = q_enque q d f
section dequeue q = q_dequeue q
section dequeue_resumed q = q_dequeue_resumed q
section deinit q = q_deinit q
section deinit_resumed q = q_deinit_resumed q
section number q = q_num q
section close q = q_close q
section reopen q = q_open q

-- A section on a queue that was given back reads freed memory.
unfoldable pub act : Call → Shared → M Section
act c q w = if q.alive then section c q w else fault

-- what pthread_cond_broadcast makes of a thread
abbrev pub rouse : Pc → Pc
rouse asleep_item = awake_item
rouse p = p

abbrev pub rouse_watch : Pc → Pc
rouse_watch asleep_watch = awake_watch
rouse_watch p = p

abbrev pub update : (ℕ → Pc) → ℕ → Pc → ℕ → Pc
update p i a j = if i == j then a else p j

-- Which threads that wait for an item are woken: by a signal, one, if there is one.
pub data Woken (n : ℕ) (p : ℕ → Pc) : Wake → (ℕ → Pc) → Type 0 where
  left : Woken n p nobody p
  all : Woken n p everybody (λ j. rouse (p j))
  picked : (j : ℕ) → j < n → p j ≡ asleep_item → Woken n p one (update p j awake_item)
  absent : ((j : ℕ) → j < n → p j ≢ asleep_item) → Woken n p one p

-- A broadcast is the only call on the other condition.
abbrev pub watch_woken : Wake → (ℕ → Pc) → ℕ → Pc
watch_woken nobody p j = p j
watch_woken _ p j = rouse_watch (p j)

-- `put` and `got`: the values that were put in and taken out so far
pub record System : Type 0 where
  pub queue : Shared
  pub pc : ℕ → Pc
  pub put : List Ptr
  pub got : List Ptr
  pub world : World

-- the value that a section puts in
abbrev pub put_by : Call → Next → List Ptr
put_by (enque d f) (returns_status zero) = d ∷ []
put_by c x = []

-- the value that it takes out
abbrev pub got_by : Next → List Ptr
got_by (returns_data d) = d ∷ []
got_by x = []

abbrev pub after : System → ℕ → Call → Section → (ℕ → Pc) → World → System
after s i c x p w = record {
  queue = x.queue;
  pc = update (watch_woken x.to_watching p) i (lands x.next);
  put = s.put ++ put_by c x.next;
  got = s.got ++ got_by x.next;
  world = w;
}

-- One of `n` threads runs a section, or returns from pthread_cond_wait though nobody woke it.
pub data Step (n : ℕ) (s : System) : System → Type 0 where
  turn :
      (i : ℕ) (c : Call) (x : Section) (p : ℕ → Pc) (w : World)
      → i < n
      → s.pc i ≡ from c
      → act c s.queue s.world ≡ ok x w
      → Woken n s.pc x.to_waiting p
      → Step n s (after s i c x p w)
  spurious : (i : ℕ) → i < n → Step n s (record s { pc = update s.pc i (rouse (s.pc i)) })
  spurious_watch :
      (i : ℕ) → i < n → Step n s (record s { pc = update s.pc i (rouse_watch (s.pc i)) })

pub data Reach (n : ℕ) : System → Type 0 where
  start :
      (q : Shared) (v w : World)
      → q_init v ≡ ok q w
      → Reach n (record { queue = q; pc = λ _. idle; put = []; got = []; world = w })
  later : {s t : System} → Reach n s → Step n s t → Reach n t

-- ===== src/SharedQueue/Sections.antt =====
-- What the sections of q_dequeue and q_deinit do to the fields of the queue, and so every section.
use alib4c.Common.{
  ℕ, ◌+◌, ◌%◌, ◌^◌, ◌≤◌, ◌<◌, ◌≡◌, ◌≢◌, refl, sym, ◌∙◌, ap, inl, inr, Bool, true, false, ◌||◌, not,
  List, [], ◌∷◌, ◌==◌, arith, Bool-cases, length,
}
use mathlib.Core.List.{append-nil}
use alib4c.World.{World, ok}
use alib4c.SharedQueue.{
  Item, Shared, Wake, nobody, everybody, Next, returns_status, returns_data, returns_null,
  waits_item, waits_watch, Section, q_dequeue, q_dequeue_resumed, q_deinit, q_deinit_resumed,
  q_close, q_open, dequeue_loop, take_item, deinit_loop, inc32, dec32, wake_if,
}
use alib4c.SharedQueue.Threads.{
  Call, enque, dequeue, dequeue_resumed, deinit, deinit_resumed, number, close, reopen, from,
  section, put_by,
}
use alib4c.SharedQueue.Tally.{is_awake, is_watch}
use alib4c.SharedQueue.Effects.{
  contents, is_cons, IsChain, Effect, Bounded, Holds, enque-Effect, number-Effect, set_open-Effect,
}

-- what q_dequeue and its second part rely on: `m` is the count of the threads that wait but this
abbrev Dequeues : Call → Shared → ℕ → Type 0
Dequeues c q m =
    (m + is_awake (from c) ≡ q.waiting)
    × (m + 1 < 2 ^ 32)
    × (is_watch (from c) ≡ 0)
    × (is_awake (from c) ≤ 1)
    × ((y : Next) → put_by c y ≡ [])

module _ (q : Shared) (k : IsChain q) (alive : q.alive ≡ true) (c : Call) (m : ℕ)
    (d : Dequeues c q m) where
  take_item-Effect :
      (l : List Item) (w : World)
      → l ≡ q.head
      → q.num ≢ 0
      → Holds (Effect c q) (take_item (record q { waiting = m }) l w)
  unfolding take_item
  take_item-Effect [] w e h = tt
  take_item-Effect (it ∷ rest) w e h =
      let size : q.num ≡ length (it ∷ rest) % 2 ^ 32 =
        k.count ∙ ap (λ l. length l % 2 ^ 32) (sym e) in
      let set : q.tail ≡ true = k.chain ∙ ap is_cons (sym e) in
      record {
        waiting = omega (arith, d.0);
        watching = omega (arith, d.2);
        is_chain = record { chain = tail_of rest set; count = omega (arith, size) };
        supplied = inl (omega (arith, size, d.3));
        order = rw (d.4 (returns_data it.item_data), ← e) (append-nil _);
        freed = λ f. cc;
        lands_awake = refl;
        sleeps = λ f. absurd (omega arith);
      }
    where
      tail_of :
          (l : List Item) → q.tail ≡ true → (elim l [ [] ↦ false | _ ∷ _ ↦ q.tail ]) ≡ is_cons l
      tail_of [] e = refl
      tail_of (jt ∷ l) e = e

  asleep_section : Section
  asleep_section = record {
    next = waits_item;
    queue = record q { waiting = inc32 m };
    to_waiting = nobody;
    to_watching = nobody;
  }

  null_section : Section
  null_section = record {
    next = returns_null;
    queue = record q { waiting = m };
    to_waiting = nobody;
    to_watching = wake_if q.watching everybody;
  }

  loop-sleeps :
      (w : World)
      → (q.num == 0) ≡ true
      → q.is_open ≡ true
      → dequeue_loop (record q { waiting = m }) w ≡ ok asleep_section w
  unfolding dequeue_loop asleep_section
  loop-sleeps w n o = simp (n, o)

  loop-null :
      (w : World)
      → (q.num == 0) ≡ true
      → q.is_open ≡ false
      → dequeue_loop (record q { waiting = m }) w ≡ ok null_section w
  unfolding dequeue_loop null_section
  loop-null w n o = simp (n, o)

  loop-takes :
      (w : World)
      → (q.num == 0) ≡ false
      → dequeue_loop (record q { waiting = m }) w ≡ take_item (record q { waiting = m }) q.head w
  unfolding dequeue_loop
  loop-takes w n = ground arith

  asleep-Effect : q.num ≡ 0 → Effect c q asleep_section
  unfolding asleep_section
  asleep-Effect n = record {
    waiting = omega (arith, d.0, d.1);
    watching = omega (arith, d.2);
    is_chain = record { chain = k.chain; count = k.count };
    supplied = inr (inl n);
    order = rw (d.4 waits_item) (append-nil (contents q));
    freed = λ f. cc;
    lands_awake = refl;
    sleeps = λ _. n;
  }

  null-Effect : q.num ≡ 0 → Effect c q null_section
  unfolding null_section
  null-Effect n = record {
    waiting = omega (arith, d.0);
    watching = omega (arith, d.2);
    is_chain = record { chain = k.chain; count = k.count };
    supplied = inr (inl n);
    order = rw (d.4 returns_null) (append-nil (contents q));
    freed = λ f. cc;
    lands_awake = refl;
    sleeps = λ f. absurd (omega arith);
  }

  dequeue_loop-Effect : (w : World) → Holds (Effect c q) (dequeue_loop (record q { waiting = m }) w)
  dequeue_loop-Effect w = elim (Bool-cases (q.num == 0)) [
    | inr n ↦ rw (loop-takes w n) (take_item-Effect q.head w refl (ground arith))
    | inl n ↦ elim (Bool-cases q.is_open) [
      | inl o ↦ rw (loop-sleeps w n o) (asleep-Effect (ground arith))
      | inr o ↦ rw (loop-null w n o) (null-Effect (ground arith))
    ]
  ]

-- the same for q_deinit: `m` is the count of the threads that watch but this
abbrev Deinits : Call → Shared → ℕ → Type 0
Deinits c q m =
    (m + is_watch (from c) ≡ q.watching)
    × (m + 1 < 2 ^ 32)
    × (is_awake (from c) ≡ 0)
    × ((y : Next) → put_by c y ≡ [])

module _ (q : Shared) (k : IsChain q) (alive : q.alive ≡ true) (c : Call) (m : ℕ)
    (d : Deinits c q m) (b : Bool) where
  deinit_loop-Effect :
      (y z : Wake) (w : World)
      → Holds (Effect c q) (deinit_loop (record q { watching = m; is_open = b }) y z w)
  unfolding deinit_loop
  deinit_loop-Effect y z w = elim (Bool-cases (not (q.waiting == 0) || not (m == 0))) [
    | inl e ↦ rw e (record {
      waiting = omega (arith, d.2);
      watching = omega (arith, d.0, d.1);
      is_chain = record { chain = k.chain; count = k.count };
      supplied = inl (omega (arith, d.2));
      order = rw (d.3 waits_watch) (append-nil (contents q));
      freed = λ f. cc;
      lands_awake = refl;
      sleeps = λ f. absurd (omega arith);
    })
    | inr e ↦ rw e (record {
      waiting = omega (arith, d.2);
      watching = omega (arith, d.0);
      is_chain = record { chain = k.chain; count = k.count };
      supplied = inl (omega (arith, d.2));
      order = rw (d.3 (returns_status 0)) (append-nil (contents q));
      freed = λ f. (ground arith, ground arith);
      lands_awake = refl;
      sleeps = λ f. absurd (omega arith);
    })
  ]

-- Every section of a thread that stands where it should keeps to this.
pub section-Effect :
    (q : Shared) (c : Call) (w : World)
    → IsChain q
    → q.alive ≡ true
    → Bounded c q
    → Holds (Effect c q) (section c q w)
unfolding q_dequeue q_dequeue_resumed q_deinit q_deinit_resumed q_close q_open
section-Effect q (enque e f) w k a b = enque-Effect q k a e f w
section-Effect q dequeue w k a b =
    dequeue_loop-Effect q k a dequeue q.waiting
      (omega arith, b.waiting, refl, omega arith, λ y. refl) w
section-Effect q dequeue_resumed w k a b =
    dequeue_loop-Effect q k a dequeue_resumed (dec32 q.waiting)
      (
        omega (arith, b.waits, b.waiting),
        omega (arith, b.waits, b.waiting),
        refl,
        omega arith,
        λ y. refl,
      )
      w
section-Effect q deinit w k a b =
    deinit_loop-Effect q k a deinit q.watching (omega arith, b.watching, refl, λ y. refl) false _ _
      w
section-Effect q deinit_resumed w k a b =
    deinit_loop-Effect q k a deinit_resumed (dec32 q.watching)
      (omega (arith, b.watches, b.watching), omega (arith, b.watches, b.watching), refl, λ y. refl)
      q.is_open nobody nobody w
section-Effect q number w k a b = number-Effect q k a w
section-Effect q close w k a b = set_open-Effect q k a close false w refl refl
section-Effect q reopen w k a b = set_open-Effect q k a reopen true w refl refl

-- ===== src/SharedQueue/Invariant.antt =====
-- What holds of the queue and of the threads on it, at every moment when the mutex is free.
use alib4c.Common.{
  ℕ, zero, suc, ◌+◌, ◌^◌, ◌≤◌, ◌<◌, ◌≡◌, ◌≢◌, refl, sym, ◌∙◌, ap, ◌⊎◌, inl, inr, Bool, true, false,
  [], ◌++◌, if◌then◌else◌, arith, Bool-cases,
}
use mathlib.Core.List.{append_assoc}
use alib4c.World.{World, Run, ok, fault, head_or_false}
use alib4c.SharedQueue.{Shared, Wake, nobody, one, everybody, Section, q_init}
use alib4c.SharedQueue.Threads.{
  Pc, idle, asleep_item, Call, from, lands, section, act, rouse, rouse_watch, update, put_by,
  got_by, System, after, Step, turn, spurious, spurious_watch, Reach, start, later,
}
use alib4c.SharedQueue.Tally.{
  tally, is_asleep, is_awake, is_watch, tally-update, tally-le, tally-one, watch-rouse, rouse-both,
  rouse-watch,
}
use alib4c.SharedQueue.Waking.{
  Sleepers, Roused, Woken-Roused, tally-after, rouse_watch-asleep, rouse_watch-awake,
}
use alib4c.SharedQueue.Effects.{contents, IsChain, Effect, Bounded, Holds}
use alib4c.SharedQueue.Sections.{section-Effect}

pub record Inv (n : ℕ) (s : System) : Type 0 where
  pub few : n + 1 < 2 ^ 32
  pub waiting : s.queue.waiting ≡ tally is_asleep n s.pc + tally is_awake n s.pc
  pub watching : s.queue.watching ≡ tally is_watch n s.pc
  -- each item has a thread that is awake for it, as long as any thread sleeps
  pub served : 0 < tally is_asleep n s.pc → s.queue.num ≤ tally is_awake n s.pc
  pub is_chain : IsChain s.queue
  pub order : s.put ≡ s.got ++ contents s.queue
  pub freed : s.queue.alive ≡ false → (s.queue.waiting ≡ 0) × (s.queue.watching ≡ 0)

pub act-live :
    (c : Call) (q : Shared) (w v : World) (x : Section)
    → act c q w ≡ ok x v
    → (q.alive ≡ true) × (section c q w ≡ ok x v)
unfolding act
act-live c q w v x e = elim (Bool-cases q.alive) [
  | inl a ↦ (a, live (section c q w) q.alive a e)
  | inr a ↦ absurd (dead (section c q w) q.alive a e)
]
  where
    live : (r : Run Section) (b : Bool) → b ≡ true → (if b then r else fault) ≡ ok x v → r ≡ ok x v
    live r true a e = e
    live r false a e = cc

    dead : (r : Run Section) (b : Bool) → b ≡ false → (if b then r else fault) ≡ ok x v → ⊥
    dead r true a e = cc
    dead r false a e = cc

Sleepers-le : (x : Wake) (a b : ℕ) → Sleepers x a b → b ≤ a
Sleepers-le nobody a b h = omega arith
Sleepers-le one a b h = ground arith
Sleepers-le everybody a b h = omega arith

Sleepers-one : (x : Wake) (a b : ℕ) → Sleepers x a b → x ≡ one → (b + 1 ≡ a) ⊎ ((a ≡ 0) × (b ≡ 0))
Sleepers-one nobody a b h e = cc
Sleepers-one one a b h e = h
Sleepers-one everybody a b h e = cc

is_awake-le : (a : Pc) → is_awake a ≤ 1
is_awake-le a = ground arith

is_watch-le : (a : Pc) → is_watch a ≤ 1
is_watch-le a = ground arith

tally-both_le : (n : ℕ) (p : ℕ → Pc) → tally is_asleep n p + tally is_awake n p ≤ n
tally-both_le zero p = omega arith
tally-both_le (suc n) p = omega (arith, tally-both_le n p, small (p n))
  where
    small : (a : Pc) → is_asleep a + is_awake a ≤ 1
    small a = ground arith

module _ (n : ℕ) (s : System) (v : Inv n s) (i : ℕ) (l : i < n) (c : Call)
    (at : s.pc i ≡ from c) where
  turn-Bounded : Bounded c s.queue
  turn-Bounded = record {
    waiting = omega (arith, v.few, v.waiting, tally-both_le n s.pc);
    watching = omega (arith, v.few, v.watching, tally-le is_watch is_watch-le n s.pc);
    waits = omega (arith, v.waiting, tally-one is_awake n s.pc i l, ap is_awake at);
    watches = omega (arith, v.watching, tally-one is_watch n s.pc i l, ap is_watch at);
  }

  from-kept : from c ≢ asleep_item
  from-kept = go c
    where
      go : (c : Call) → from c ≢ asleep_item
      go c = ground arith

  from-asleep : is_asleep (from c) ≡ 0
  from-asleep = ground arith

  module _ (x : Section) (e : Effect c s.queue x) (p : ℕ → Pc) (r : Roused n s.pc x.to_waiting p)
      (w : World) where
    stays : p i ≡ from c
    stays = r.kept i (rw at from-kept) ∙ at

    asleep_after :
        tally is_asleep n (after s i c x p w).pc ≡ tally is_asleep n p + is_asleep (lands x.next)
    asleep_after =
        let a =
          tally-after is_asleep n p x.to_watching i (from c) (lands x.next) rouse_watch-asleep l
            stays in
        omega (arith, a, from-asleep)

    awake_after : tally is_awake n (after s i c x p w).pc + is_awake (from c) ≡ tally is_awake n p
    awake_after =
        let a =
          tally-after is_awake n p x.to_watching i (from c) (lands x.next) rouse_watch-awake l
            stays in
        omega (arith, a, e.lands_awake)

    watch_after :
        tally is_watch n (after s i c x p w).pc + is_watch (from c)
        ≡ tally is_watch n p + is_watch (lands x.next)
    watch_after =
        tally-after is_watch n p x.to_watching i (from c) (lands x.next) watch-rouse l stays

    served_after :
        0 < tally is_asleep n (after s i c x p w).pc
        → x.queue.num ≤ tally is_awake n (after s i c x p w).pc
    served_after some_sleep = ground (
      arith,
      e.supplied,
      e.sleeps,
      v.served,
      v.waiting,
      asleep_after,
      awake_after,
      r.both,
      Sleepers-le x.to_waiting _ _ r.asleep,
      Sleepers-one x.to_waiting _ _ r.asleep,
    )

    turn-Inv : Inv n (after s i c x p w)
    turn-Inv = record {
      few = v.few;
      waiting = omega (arith, v.waiting, e.waiting, asleep_after, awake_after, r.both);
      watching = omega (arith, v.watching, e.watching, watch_after, r.watch);
      served = served_after;
      is_chain = e.is_chain;
      order = cc (
        v.order,
        e.order,
        append_assoc s.got (contents s.queue) (put_by c x.next),
        append_assoc s.got (got_by x.next) (contents x.queue),
      );
      freed = e.freed;
    }

-- a thread returns from a wait though nobody woke it
spurious-Inv :
    (n : ℕ) (s : System)
    → Inv n s
    → (i : ℕ) → i < n
    → Inv n (record s { pc = update s.pc i (rouse (s.pc i)) })
spurious-Inv n s v i l =
    let a = tally-update is_asleep n s.pc i (rouse (s.pc i)) l in
    let b = tally-update is_awake n s.pc i (rouse (s.pc i)) l in
    let c = tally-update is_watch n s.pc i (rouse (s.pc i)) l in
    record {
      few = v.few;
      waiting = omega (arith, a, b, rouse-both (s.pc i), v.waiting);
      watching = omega (arith, c, rouse-watch (s.pc i), v.watching);
      served = λ h. omega (
        arith,
        v.served (omega (arith, a, rouse-less (s.pc i))),
        a,
        b,
        rouse-both (s.pc i),
        rouse-less (s.pc i),
      );
      is_chain = v.is_chain;
      order = v.order;
      freed = v.freed;
    }
  where
    rouse-less : (a : Pc) → is_asleep (rouse a) ≤ is_asleep a
    rouse-less a = ground arith

spurious_watch-Inv :
    (n : ℕ) (s : System)
    → Inv n s
    → (i : ℕ) → i < n
    → Inv n (record s { pc = update s.pc i (rouse_watch (s.pc i)) })
spurious_watch-Inv n s v i l =
    let a = tally-update is_asleep n s.pc i (rouse_watch (s.pc i)) l in
    let b = tally-update is_awake n s.pc i (rouse_watch (s.pc i)) l in
    let c = tally-update is_watch n s.pc i (rouse_watch (s.pc i)) l in
    let a' = rouse_watch-asleep (s.pc i) in
    let b' = rouse_watch-awake (s.pc i) in
    record {
      few = v.few;
      waiting = omega (arith, a, b, a', b', v.waiting);
      watching = omega (arith, c, watch-rouse (s.pc i), v.watching);
      served = λ h. omega (arith, v.served (omega (arith, a, a')), a, b, a', b');
      is_chain = v.is_chain;
      order = v.order;
      freed = v.freed;
    }

pub Step-Inv : {n : ℕ} {s t : System} → Step n s t → Inv n s → Inv n t
Step-Inv {n} {s} (turn i c x p w l at e u) v =
    let (alive, run) = act-live c s.queue s.world w x e in
    let f : Effect c s.queue x =
      rw run at (section-Effect s.queue c s.world v.is_chain alive (turn-Bounded n s v i l c at)) in
    turn-Inv n s v i l c at x f p (Woken-Roused u) w
Step-Inv {n} {s} (spurious i l) v = spurious-Inv n s v i l
Step-Inv {n} {s} (spurious_watch i l) v = spurious_watch-Inv n s v i l

pub tally-idle : (f : Pc → ℕ) → f idle ≡ 0 → (n : ℕ) → tally f n (λ _. idle) ≡ 0
tally-idle f e zero = refl
tally-idle f e (suc n) = omega (arith, e, tally-idle f e n)

-- a queue as q_init makes it
record New (q : Shared) : Type 0 where
  waiting : q.waiting ≡ 0
  watching : q.watching ≡ 0
  is_chain : IsChain q
  empty : contents q ≡ []
  alive : q.alive ≡ true

q_init-New : (w : World) → Holds New (q_init w)
unfolding q_init
q_init-New w = elim (Bool-cases (head_or_false w.mallocs)) [
  | inl e ↦ rw e (record {
    waiting = refl;
    watching = refl;
    is_chain = record { chain = refl; count = refl };
    empty = refl;
    alive = refl;
  })
  | inr e ↦ rw e tt
]

start-Inv :
    (n : ℕ) (q : Shared) (w : World)
    → n + 1 < 2 ^ 32
    → New q
    → Inv n (record { queue = q; pc = λ _. idle; put = []; got = []; world = w })
start-Inv n q w few h = record {
  few = few;
  waiting = omega (arith, h.waiting, tally-idle is_asleep refl n, tally-idle is_awake refl n);
  watching = omega (arith, h.watching, tally-idle is_watch refl n);
  served = λ z. absurd (omega (arith, tally-idle is_asleep refl n));
  is_chain = h.is_chain;
  order = sym h.empty;
  freed = λ f. cc h.alive;
}

pub Reach-Inv : {n : ℕ} {s : System} → n + 1 < 2 ^ 32 → Reach n s → Inv n s
Reach-Inv {n} few (start q v w e) = start-Inv n q w few (rw e at (q_init-New v))
Reach-Inv few (later r st) = Step-Inv st (Reach-Inv few r)

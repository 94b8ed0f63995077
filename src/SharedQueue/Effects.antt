-- ===== src/SharedQueue/Effects.antt =====
-- What one section does to the fields of the queue.
use alib4c.Common.{
  ℕ, ◌+◌, ◌%◌, ◌^◌, ◌≤◌, ◌<◌, ◌≡◌, refl, sym, ap, ◌⊎◌, inl, inr, Bool, true, false, List, [], ◌∷◌,
  ◌++◌, if◌then◌else◌, arith, Bool-cases, length, length-append,
}
use mathlib.Core.List.{map, map-append, append-nil}
use alib4c.World.{Ptr, World, Run, ok, fault, died, head_or_false}
use alib4c.SharedQueue.{
  Item, Shared, Wake, nobody, one, Next, returns_status, Section, q_enque, q_num, enque_section,
  set_open,
}
use alib4c.SharedQueue.Threads.{idle, Call, enque, number, from, lands, put_by, got_by}
use alib4c.SharedQueue.Tally.{is_asleep, is_awake, is_watch}

abbrev pub contents : Shared → List Ptr
contents q = map Item.item_data q.head

abbrev pub is_cons : List Item → Bool
is_cons [] = false
is_cons (it ∷ c) = true

-- The two ways in which the chain is known agree, and `num` counts it.
pub record IsChain (q : Shared) : Type 0 where
  pub chain : q.tail ≡ is_cons q.head
  pub count : q.num ≡ length q.head % 2 ^ 32

-- Why no thread sleeps beside an item: at each section the count goes down with the threads that
-- are awake, or is 0, or goes up by one while one thread is woken.
abbrev pub Supplied : Call → Shared → Section → Type 0
Supplied c q x =
    (x.queue.num + is_awake (from c) ≤ q.num)
    ⊎ (x.queue.num ≡ 0)
    ⊎ ((is_awake (from c) ≡ 0)
        × (x.queue.num ≤ q.num + 1)
        × ((x.to_waiting ≡ one) ⊎ (q.waiting ≡ 0) ⊎ (x.queue.num ≤ q.num)))

pub record Effect (c : Call) (q : Shared) (x : Section) : Type 0 where
  pub waiting : x.queue.waiting + is_awake (from c) ≡ q.waiting + is_asleep (lands x.next)
  pub watching : x.queue.watching + is_watch (from c) ≡ q.watching + is_watch (lands x.next)
  pub is_chain : IsChain x.queue
  pub supplied : Supplied c q x
  pub order : contents q ++ put_by c x.next ≡ got_by x.next ++ contents x.queue
  pub freed : x.queue.alive ≡ false → (x.queue.waiting ≡ 0) × (x.queue.watching ≡ 0)
  pub lands_awake : is_awake (lands x.next) ≡ 0
  pub sleeps : 0 < is_asleep (lands x.next) → x.queue.num ≡ 0

pub record Bounded (c : Call) (q : Shared) : Type 0 where
  pub waiting : q.waiting + 1 < 2 ^ 32
  pub watching : q.watching + 1 < 2 ^ 32
  pub waits : is_awake (from c) ≤ q.waiting
  pub watches : is_watch (from c) ≤ q.watching

abbrev pub Holds {ℓ} : {A : Type 0} → (A → Type ℓ) → Run A → Type ℓ
Holds P (ok a w) = P a
Holds P fault = Unit
Holds P died = Unit

module _ (q : Shared) (k : IsChain q) where
  pub put_last : (it : Item) → (if q.tail then q.head ++ it ∷ [] else it ∷ []) ≡ q.head ++ it ∷ []
  put_last it = go q.head k.chain
    where
      go :
          (l : List Item)
          → q.tail ≡ is_cons l
          → (if q.tail then l ++ it ∷ [] else it ∷ []) ≡ l ++ it ∷ []
      go [] e = rw e refl
      go (jt ∷ l) e = rw e refl

module _ (q : Shared) (k : IsChain q) (alive : q.alive ≡ true) where
  pub closed-Effect :
      (c : Call) (x : Next)
      → is_awake (from c) ≡ is_asleep (lands x)
      → is_watch (from c) ≡ is_watch (lands x)
      → is_awake (from c) ≡ 0
      → is_awake (lands x) ≡ 0
      → is_asleep (lands x) ≡ 0
      → put_by c x ≡ []
      → got_by x ≡ []
      → (y z : Wake) → Effect c q (record { next = x; queue = q; to_waiting = y; to_watching = z })
  closed-Effect c x e g h l u m n y z = record {
    waiting = ap (◌+◌ q.waiting) e;
    watching = ap (◌+◌ q.watching) g;
    is_chain = k;
    supplied = inl (omega (arith, h));
    order = rw (m, n) (append-nil (contents q));
    freed = λ f. cc;
    lands_awake = l;
    sleeps = λ f. absurd (omega (arith, u));
  }

  pub is_cons-append : (l : List Item) (it : Item) → is_cons (l ++ it ∷ []) ≡ true
  is_cons-append [] it = refl
  is_cons-append (jt ∷ l) it = refl

  pub open-Effect :
      (d : Ptr) (f : ℕ)
      → q.is_open ≡ true
      → Effect (enque d f) q (enque_section q (record { item_data = d; flags = f }))
  unfolding enque_section
  open-Effect d f e =
      let it : Item = record { item_data = d; flags = f } in
      rw (e, put_last q k it)
        (record {
          waiting = refl;
          watching = refl;
          is_chain = record {
            chain = sym (is_cons-append q.head it);
            count = omega (arith, k.count, length-append q.head (it ∷ []));
          };
          supplied = inr (inr (refl, omega arith, ground arith));
          order = sym (map-append Item.item_data q.head (it ∷ []));
          freed = λ h. cc;
          lands_awake = refl;
          sleeps = λ f. absurd (omega arith);
        })

  pub shut_section :
      (it : Item)
      → q.is_open ≡ false
      → enque_section q it
        ≡ record { next = returns_status 1; queue = q; to_waiting = nobody; to_watching = nobody }
  unfolding enque_section
  shut_section it e = simp e

  pub enque-Effect : (d : Ptr) (f : ℕ) (w : World) → Holds (Effect (enque d f) q) (q_enque q d f w)
  unfolding q_enque
  enque-Effect d f w = elim (Bool-cases (head_or_false w.mallocs)) [
    | inr e ↦ rw e tt
    | inl e ↦ elim (Bool-cases q.is_open) [
      | inl o ↦ rw e (open-Effect d f o)
      | inr o ↦
          rw (e, shut_section (record { item_data = d; flags = f }) o)
            (closed-Effect (enque d f) (returns_status 1) refl refl refl refl refl refl refl nobody
              nobody)
    ]
  ]

  pub number-Effect : (w : World) → Holds (Effect number q) (q_num q w)
  unfolding q_num
  number-Effect w = record {
    waiting = refl;
    watching = refl;
    is_chain = k;
    supplied = inl (omega arith);
    order = append-nil (contents q);
    freed = λ h. cc;
    lands_awake = refl;
    sleeps = λ f. absurd (omega arith);
  }

  pub set_open-Effect :
      (c : Call) (v : Bool) (w : World)
      → from c ≡ idle
      → put_by c (returns_status 0) ≡ []
      → Holds (Effect c q) (set_open v q w)
  unfolding set_open
  set_open-Effect c v w e n = record {
    waiting = rw e refl;
    watching = rw e refl;
    is_chain = record { chain = k.chain; count = k.count };
    supplied = inl (rw e (omega arith));
    order = rw n (append-nil (contents q));
    freed = λ h. cc;
    lands_awake = refl;
    sleeps = λ f. absurd (omega arith);
  }

-- ===== src/SharedQueue/Tally.antt =====
-- How many of the threads on the queue of a/to_do/queue.c stand where.
use alib4c.Common.{ℕ, zero, suc, ◌+◌, ◌≤◌, ◌<◌, ◌≡◌, ◌≢◌, refl, inl, inr, ◌==◌, arith, Bool-cases}
use alib4c.SharedQueue.Threads.{
  Pc, idle, asleep_item, awake_item, asleep_watch, awake_watch, rouse, rouse_watch, update,
}

abbrev pub tally : (Pc → ℕ) → ℕ → (ℕ → Pc) → ℕ
tally f zero p = 0
tally f (suc n) p = f (p n) + tally f n p

abbrev pub is_asleep : Pc → ℕ
is_asleep asleep_item = 1
is_asleep _ = 0

abbrev pub is_awake : Pc → ℕ
is_awake awake_item = 1
is_awake _ = 0

abbrev pub is_watch : Pc → ℕ
is_watch asleep_watch = 1
is_watch awake_watch = 1
is_watch _ = 0

tally-beyond :
    (f : Pc → ℕ) (n : ℕ) (p : ℕ → Pc) (i : ℕ) (a : Pc)
    → n ≤ i
    → tally f n (update p i a) ≡ tally f n p
tally-beyond f zero p i a h = refl
tally-beyond f (suc n) p i a h = ground (arith, tally-beyond f n p i a)

pub tally-update :
    (f : Pc → ℕ) (n : ℕ) (p : ℕ → Pc) (i : ℕ) (a : Pc)
    → i < n
    → tally f n (update p i a) + f (p i) ≡ tally f n p + f a
tally-update f zero p i a h = absurd (omega arith)
tally-update f (suc n) p i a h = ground (arith, tally-update f n p i a, tally-beyond f n p i a)

pub tally-le : (f : Pc → ℕ) → ((a : Pc) → f a ≤ 1) → (n : ℕ) (p : ℕ → Pc) → tally f n p ≤ n
tally-le f small zero p = omega arith
tally-le f small (suc n) p = omega (arith, small (p n), tally-le f small n p)

pub tally-same :
    (f : Pc → ℕ) (n : ℕ) (p q : ℕ → Pc) → ((j : ℕ) → f (q j) ≡ f (p j)) → tally f n q ≡ tally f n p
tally-same f zero p q h = refl
tally-same f (suc n) p q h = omega (arith, h n, tally-same f n p q h)

-- a thread that stands there is counted
pub tally-one : (f : Pc → ℕ) (n : ℕ) (p : ℕ → Pc) (i : ℕ) → i < n → f (p i) ≤ tally f n p
tally-one f zero p i h = absurd (omega arith)
tally-one f (suc n) p i h = elim (Bool-cases (i == n)) [
  | inl e ↦ (let s : i ≡ n = ground arith in rw s (omega arith))
  | inr e ↦ omega (arith, tally-one f n p i (ground arith))
]

pub tally-none :
    (n : ℕ) (p : ℕ → Pc) → ((j : ℕ) → j < n → p j ≢ asleep_item) → tally is_asleep n p ≡ 0
tally-none zero p h = refl
tally-none (suc n) p h =
    omega (arith, not_asleep (p n) (h n (omega arith)), tally-none n p (λ j l. h j (omega arith)))
  where
    not_asleep : (a : Pc) → a ≢ asleep_item → is_asleep a ≡ 0
    not_asleep idle g = refl
    not_asleep asleep_item g = absurd (g refl)
    not_asleep awake_item g = refl
    not_asleep asleep_watch g = refl
    not_asleep awake_watch g = refl

pub rouse-both : (a : Pc) → is_asleep (rouse a) + is_awake (rouse a) ≡ is_asleep a + is_awake a
rouse-both idle = refl
rouse-both asleep_item = refl
rouse-both awake_item = refl
rouse-both asleep_watch = refl
rouse-both awake_watch = refl

pub rouse-asleep : (a : Pc) → is_asleep (rouse a) ≡ 0
rouse-asleep a = ground arith

pub rouse-watch : (a : Pc) → is_watch (rouse a) ≡ is_watch a
rouse-watch a = ground arith

pub watch-rouse : (a : Pc) → is_watch (rouse_watch a) ≡ is_watch a
watch-rouse a = ground arith

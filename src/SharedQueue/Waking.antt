-- ===== src/SharedQueue/Waking.antt =====
-- What the signals of a section, and its end, do to the counts of threads.
use alib4c.Common.{
  ℕ, zero, suc, ◌+◌, ◌<◌, ◌≡◌, ◌≢◌, refl, sym, ◌∙◌, ap, ◌⊎◌, inl, inr, ◌==◌, arith, Bool-cases,
}
use alib4c.SharedQueue.{Wake, nobody, one, everybody}
use alib4c.SharedQueue.Threads.{
  Pc, idle, asleep_item, awake_item, asleep_watch, awake_watch, rouse, rouse_watch, update, Woken,
  left, all, picked, absent, watch_woken,
}
use alib4c.SharedQueue.Tally.{
  tally, is_asleep, is_awake, is_watch, tally-update, tally-same, tally-none, rouse-both,
  rouse-asleep, rouse-watch,
}

-- how many threads are left asleep
abbrev pub Sleepers : Wake → (before after : ℕ) → Type 0
Sleepers nobody a b = b ≡ a
Sleepers one a b = (b + 1 ≡ a) ⊎ ((a ≡ 0) × (b ≡ 0))
Sleepers everybody a b = b ≡ 0

pub record Roused (n : ℕ) (p : ℕ → Pc) (x : Wake) (q : ℕ → Pc) : Type 0 where
  pub both : tally is_asleep n q + tally is_awake n q ≡ tally is_asleep n p + tally is_awake n p
  pub asleep : Sleepers x (tally is_asleep n p) (tally is_asleep n q)
  pub watch : tally is_watch n q ≡ tally is_watch n p
  pub kept : (i : ℕ) → p i ≢ asleep_item → q i ≡ p i

tally-both :
    (n : ℕ) (p : ℕ → Pc)
    → tally is_asleep n (λ j. rouse (p j)) + tally is_awake n (λ j. rouse (p j))
      ≡ tally is_asleep n p + tally is_awake n p
tally-both zero p = refl
tally-both (suc n) p = omega (arith, tally-both n p, rouse-both (p n))

tally-roused : (n : ℕ) (p : ℕ → Pc) → tally is_asleep n (λ j. rouse (p j)) ≡ 0
tally-roused zero p = refl
tally-roused (suc n) p = omega (arith, tally-roused n p, rouse-asleep (p n))

rouse-kept : (a : Pc) → a ≢ asleep_item → rouse a ≡ a
rouse-kept idle h = refl
rouse-kept asleep_item h = absurd (h refl)
rouse-kept awake_item h = refl
rouse-kept asleep_watch h = refl
rouse-kept awake_watch h = refl

pub Woken-Roused : {n : ℕ} {p : ℕ → Pc} {x : Wake} {q : ℕ → Pc} → Woken n p x q → Roused n p x q
Woken-Roused left = record { both = refl; asleep = refl; watch = refl; kept = λ i h. refl }
Woken-Roused {n} {p} all = record {
  both = tally-both n p;
  asleep = tally-roused n p;
  watch = tally-same is_watch n p (λ j. rouse (p j)) (λ j. rouse-watch (p j));
  kept = λ i h. rouse-kept (p i) h;
}
Woken-Roused {n} {p} (picked j l e) =
    let a = tally-update is_asleep n p j awake_item l in
    let b = tally-update is_awake n p j awake_item l in
    let c = tally-update is_watch n p j awake_item l in
    let a' : is_asleep (p j) ≡ 1 = rw e refl in
    let b' : is_awake (p j) ≡ 0 = rw e refl in
    let c' : is_watch (p j) ≡ 0 = rw e refl in
    record {
      both = omega (arith, a, b, a', b');
      asleep = inl (omega (arith, a, a'));
      watch = omega (arith, c, c');
      kept = λ i h. elim (Bool-cases (j == i)) [
        | inl y ↦ (let s : j ≡ i = ground arith in absurd (h (ap p (sym s) ∙ e)))
        | inr y ↦ rw y refl
      ];
    }
Woken-Roused {n} {p} (absent h) = record {
  both = refl;
  asleep = inr (tally-none n p h, tally-none n p h);
  watch = refl;
  kept = λ i g. refl;
}

-- A section's end moves one thread, from `old` to `new`.
pub tally-after :
    (f : Pc → ℕ) (n : ℕ) (q : ℕ → Pc) (x : Wake) (i : ℕ) (old new : Pc)
    → ((a : Pc) → f (rouse_watch a) ≡ f a)
    → i < n
    → q i ≡ old
    → tally f n (update (watch_woken x q) i new) + f old ≡ tally f n q + f new
tally-after f n q x i old new same l e = omega (
  arith,
  tally-update f n (watch_woken x q) i new l,
  tally-same f n q (watch_woken x q) (watched x),
  watched x i,
  ap f e,
)
  where
    watched : (x : Wake) (j : ℕ) → f (watch_woken x q j) ≡ f (q j)
    watched nobody j = refl
    watched one j = same (q j)
    watched everybody j = same (q j)

pub rouse_watch-asleep : (a : Pc) → is_asleep (rouse_watch a) ≡ is_asleep a
rouse_watch-asleep a = ground arith

pub rouse_watch-awake : (a : Pc) → is_awake (rouse_watch a) ≡ is_awake a
rouse_watch-awake a = ground arith

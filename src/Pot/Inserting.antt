-- ===== src/Pot/Inserting.antt =====
-- a_pot_insert of a/pot.c.
use alib4c.Common.{
  ℕ, ◌+◌, ◌^◌, ◌<◌, ◌≤◌, ◌≡◌, refl, sym, ap, ◌∙◌, Bool, true, false, ◌||◌, Option, none, some, ltb,
  Bool-cases, inl, inr, arith, length, length-set, set,
}
use mathlib.Core.Path.{fun_ext}
use alib4c.World.{World, Run, Returns, ok, ◌>>=◌, pure, head_or_false}
use alib4c.Error.Live.{IsLive}
use alib4c.Mem.{Block}
use alib4c.Mem.Realloc.{cells_of}
use alib4c.Pot.{Pot, Before, a_pot_insert, bubble_up, write_cell}
use alib4c.Pot.Cells.{word_of, word_at, in_array, put, bag, word_at-set, write_cell-run, bag-beyond}
use alib4c.Pot.Resizing.{IsSized, a_pot_resize-Resized}
use alib4c.Pot.Rising.{IsPrior, IsHeap, Rises, bubble_up_loop-Raised}

-- the words in the array, by index
abbrev pub words : ℕ → Pot → ℕ → ℕ
words junk p = word_at junk (cells_of p.array)

-- The order of the heap includes that the first item does not go before what cell 0 reads as.
pub record IsValid (junk : ℕ) (p : Pot) : Type 0 where
  pub order : IsPrior p.before
  pub sized : IsSized p.num p.alloced p.array
  pub heap : IsHeap p.before (words junk p) p.num

-- what a_pot_insert left when it succeeded
pub record Inserted (junk : ℕ) (p : Pot) (x : ℕ) (q : Pot) : Type 0 where
  pub valid : IsValid junk q
  pub num : q.num ≡ p.num + 1
  pub items : (g : ℕ → ℕ) → bag g (words junk q) q.num ≡ g x + bag g (words junk p) p.num
  pub floor : words junk q 0 ≡ words junk p 0

module _ (junk : ℕ) (p : Pot) (x : ℕ) (o : IsPrior p.before)
    (heap : IsHeap p.before (words junk p) p.num) (low : p.before x (words junk p 0) ≡ false) where
  placed-Rises : Rises p.before (put (words junk p) (p.num + 1) x) (p.num + 1) (p.num + 1)
  placed-Rises = record {
    inside = (omega arith, omega arith);
    others = λ i h l d. ground (arith, heap i h);
    below = λ i h l s. absurd (omega arith);
    above = ground arith;
  }

-- a_pot_insert behind the call of a_pot_resize
abbrev place : ℕ → Pot → ℕ → World → Run (Bool × Pot)
place junk q x = write_cell (record q { num = q.num + 1 }) (q.num + 1) x >>= λ p'.
    bubble_up junk p' >>= λ p''. pure (true, p'')

module _ (junk : ℕ) (q : Pot) (x : ℕ) (o : IsPrior q.before) where
  place-Inserted :
      (b : Block)
      → IsHeap q.before (word_at junk b) q.num
      → q.before x (word_at junk b 0) ≡ false
      → length b ≡ q.alloced + 1
      → q.num + 1 ≤ q.alloced
      → (c : Pot) × ((w : World) → place junk (in_array q b) x w ≡ ok (true, c) w)
        × Inserted junk (in_array q b) x c
  unfolding bubble_up
  place-Inserted b heap low long room =
      let inside : q.num + 1 < length b = omega (arith, long) in
      let is : word_at junk (set b (q.num + 1) (some x)) ≡ put (word_at junk b) (q.num + 1) x =
        fun_ext (λ j. word_at-set junk b (q.num + 1) x j inside) in
      let size = length-set b (q.num + 1) (some x) in
      let one_more : Pot = record q { num = q.num + 1 } in
      let (c, run, d) =
        bubble_up_loop-Raised junk one_more o (q.num + 1) (q.num + 1) (q.num + 1)
          (set b (q.num + 1) (some x)) (omega arith) (omega (arith, size, long))
          (rw is (placed-Rises junk (in_array q b) x o heap low)) in
      (
        in_array one_more c,
        λ w. rw (write_cell-run one_more b (q.num + 1) x w inside, run w),
        record {
          valid = record {
            order = o;
            sized = (d.size ∙ size ∙ long, omega arith, room);
            heap = d.heap;
          };
          num = refl;
          items = λ g.
              let beyond = bag-beyond g (word_at junk b) q.num (q.num + 1) x (omega arith) in
              d.same g ∙ ap (λ f. bag g f (q.num + 1)) is ∙ ground (arith, beyond);
          floor = d.floor ∙ ap (λ f. f 0) is ∙ ground arith;
        },
      )

  place_in :
      (a : Option Block)
      → IsHeap q.before (words junk (record q { array = a })) q.num
      → q.before x (words junk (record q { array = a }) 0) ≡ false
      → IsSized q.num q.alloced a
      → q.num + 1 ≤ q.alloced
      → (c : Pot) × ((w : World) → place junk (record q { array = a }) x w ≡ ok (true, c) w)
        × Inserted junk (record q { array = a }) x c
  place_in none heap low s room = absurd (omega arith)
  place_in (some b) heap low s room = place-Inserted b heap low s.0 room

-- what a_pot_insert returned and left
pub record Inserts (junk : ℕ) (p : Pot) (x : ℕ) (w : World) (out : Bool × Pot) (v : World)
    : Type 0 where
  pub answer : out.0 ≡ ltb (p.num + 1) p.alloced || head_or_false w.mallocs
  pub inserted : out.0 ≡ true → Inserted junk p x out.1
  pub live : IsLive v.errors

-- the same, from the pot before a_pot_resize
resized-Inserted :
    (junk : ℕ) (p q c : Pot) (x : ℕ)
    → q.num ≡ p.num
    → words junk q ≡ words junk p
    → Inserted junk q x c
    → Inserted junk p x c
resized-Inserted junk p q c x n e i = record {
  valid = i.valid;
  num = i.num ∙ ap (λ k. k + 1) n;
  items = λ g. i.items g ∙ rw (e, n);
  floor = i.floor ∙ ap (λ f. f 0) e;
}

IsHeap-same :
    {b c : Before} {f g : ℕ → ℕ} {n k : ℕ} → c ≡ b → g ≡ f → k ≡ n → IsHeap b f n → IsHeap c g k
IsHeap-same e q s heap = rw (e, q, s) heap

-- On a valid pot of fewer than 2^59 items and a live error stack, a_pot_insert of an item that does
-- not go before what cell 0 reads as returns, and fails only when it needs malloc and malloc fails.
-- If it succeeds, the pot is valid, its items are the old ones and the new one, each as often as it
-- should be, and cell 0 reads as before.
pub a_pot_insert-Inserts :
    (junk : ℕ) (p : Pot) (x : ℕ) (w : World)
    → IsValid junk p
    → p.num < 2 ^ 59
    → p.before x (words junk p 0) ≡ false
    → IsLive w.errors
    → Returns (a_pot_insert junk p x w) (Inserts junk p x w)
unfolding a_pot_insert
a_pot_insert-Inserts junk p x w valid small low live =
    let ((b, q), v, run, r) = a_pot_resize-Resized p (p.num + 1) w valid.sized (omega arith) live in
    elim (Bool-cases b) [
      | inr f ↦ (
        (false, q),
        v,
        rw (run, f),
        record { answer = sym f ∙ r.answer; inserted = λ y. cc; live = r.live },
      )
      | inl y ↦
          let same : words junk q ≡ words junk p = fun_ext (λ i. ap (word_of junk) (r.cells y i)) in
          let (c, run', i) =
            place_in junk q x (rw r.before valid.order) q.array
              (IsHeap-same r.before same r.num valid.heap) (rw (r.before, ap (λ f. f 0) same) low)
              (r.sized y) (omega (arith, (r.room y).0, r.num)) in
          (
            (true, c),
            v,
            rw (run, y) (run' v),
            record {
              answer = sym y ∙ r.answer;
              inserted = λ _. resized-Inserted junk p q c x r.num same i;
              live = r.live;
            },
          )
    ]

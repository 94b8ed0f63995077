-- ===== src/Pot/Removing.antt =====
-- a_pot_remove_top of a/pot.c.
use alib4c.Common.{
  ℕ, zero, suc, ◌+◌, ◌-◌, ◌/◌, ◌<◌, ◌≤◌, ◌≡◌, ◌≢◌, refl, sym, ap, ◌∙◌, false, Option, none, some,
  ◌==◌, leb, Bool-cases, inl, inr, arith, length, length-set, set,
}
use mathlib.Core.Path.{fun_ext}
use alib4c.World.{World, ok}
use alib4c.Mem.{Block}
use alib4c.Pot.{Pot, Before, a_pot_remove_top, bubble_down}
use alib4c.Pot.Cells.{
  word_at, in_array, put, bag, word_at-set, write_cell-run, read_cell-word_at, bag-put,
}
use alib4c.Pot.Resizing.{IsSized}
use alib4c.Pot.Rising.{IsPrior, IsHeap, Raised}
use alib4c.Pot.Children.{irrefl}
use alib4c.Pot.Sinking.{Sinks, bubble_down_loop-Raised}
use alib4c.Pot.Inserting.{IsValid, words}

-- what a_pot_remove_top left
pub record Removed (junk : ℕ) (p : Pot) (q : Pot) : Type 0 where
  pub valid : IsValid junk q
  pub num : q.num + 1 ≡ p.num
  pub items :
      (g : ℕ → ℕ) → g (words junk p 1) + bag g (words junk q) q.num ≡ bag g (words junk p) p.num
  pub floor : words junk q 0 ≡ words junk p 0

module _ (before : Before) (o : IsPrior before) (f : ℕ → ℕ) (n : ℕ) (heap : IsHeap before f n) where
  -- nothing goes before the first item, nor before cell 0
  pub IsHeap-first : (k i : ℕ) → i ≤ k → 0 < i → i ≤ n → before (f i) (f 1) ≡ false
  IsHeap-first zero i few h l = absurd (omega arith)
  IsHeap-first (suc k) i few h l = elim (Bool-cases (i == 1)) [
    | inl e ↦ (let s : i ≡ 1 = ground arith in rw s (irrefl before o (f 1)))
    | inr e ↦
        let s : i ≢ 1 = ground arith in
        let up = IsHeap-first k (i / 2) (omega arith) (omega arith) (omega arith) in
        o.trans (f 1) (f (i / 2)) (f i) up (heap i h l)
  ]

  IsHeap-floor : (i : ℕ) → 0 < i → i ≤ n → before (f i) (f 0) ≡ false
  IsHeap-floor i h l =
      o.trans (f 0) (f 1) (f i) (heap 1 (omega arith) (omega arith))
        (IsHeap-first i i (omega arith) h l)

  -- the last item in place of the first
  topped-Sinks : (m : ℕ) → n ≡ suc m → Sinks before (put f 1 (f n)) m 1
  topped-Sinks m e = record {
    inside = omega arith;
    others = λ i h l d. elim (Bool-cases (i == 1)) [
      | inl y ↦ (let s : i ≡ 1 = ground arith in rw s (IsHeap-floor n (omega arith) (omega arith)))
      | inr y ↦ ground (arith, heap i h)
    ];
    below = λ i h l s. ground (arith, IsHeap-floor i h);
  }

bag-topped : (g f : ℕ → ℕ) (m : ℕ) → g (f 1) + bag g (put f 1 (f (suc m))) m ≡ bag g f (suc m)
bag-topped g f zero = refl
bag-topped g f (suc m) = omega (arith, bag-put g f (suc m) 1 (f (suc (suc m))))

module _ (junk : ℕ) (p : Pot) (o : IsPrior p.before) where
  bubble_down-Raised :
      (b : Block)
      → p.num < length b
      → Sinks p.before (word_at junk b) p.num 1
      → (c : Block) × ((w : World) → bubble_down junk (in_array p b) w ≡ ok (in_array p c) w)
        × Raised p junk p.num b c
  unfolding bubble_down
  bubble_down-Raised b l r = elim (Bool-cases (leb 1 (p.num / 2))) [
    | inl e ↦
        let (c, run, d) =
          bubble_down_loop-Raised junk p o (p.num + 1) 1 b (omega arith) (ground arith) l r in
        (c, λ w. rw e (run w), d)
    | inr e ↦ (
      b,
      λ w. rw e,
      record {
        size = refl;
        heap = λ i h k. r.others i h k (ground arith);
        floor = refl;
        same = λ g. refl;
      },
    )
  ]

module _ (junk : ℕ) (p : Pot) (o : IsPrior p.before) where
  remove_in :
      (b : Block) (m : ℕ)
      → p.num ≡ suc m
      → IsHeap p.before (word_at junk b) p.num
      → length b ≡ p.alloced + 1
      → p.num ≤ p.alloced
      → (q : Pot) × ((w : World)
          → a_pot_remove_top junk (in_array p b) w ≡ ok (word_at junk b 1, q) w)
        × Removed junk (in_array p b) q
  unfolding a_pot_remove_top
  remove_in b m e heap long room =
      let f : ℕ → ℕ = word_at junk b in
      let less : Pot = record p { num = m } in
      let b' = set b 1 (some (word_at junk b p.num)) in
      let one : 1 < length b = omega (arith, long) in
      let size = length-set b 1 (some (word_at junk b p.num)) in
      let is : word_at junk b' ≡ put f 1 (f p.num) =
        fun_ext (λ j. word_at-set junk b 1 (word_at junk b p.num) j one) in
      let (c, run, d) =
        bubble_down-Raised junk less o b' (omega (arith, size, long))
          (rw is (topped-Sinks p.before o f p.num heap m e)) in
      let some_left : (p.num == 0) ≡ false = ground arith in
      let pred : p.num - 1 ≡ m = omega arith in
      (
        in_array less c,
        λ w. rw (
          some_left,
          read_cell-word_at junk b 1 w one,
          read_cell-word_at junk b p.num w (omega (arith, long)),
          write_cell-run p b 1 (word_at junk b p.num) w one,
          pred,
          run w,
        ),
        record {
          valid = record {
            order = o;
            sized = (d.size ∙ size ∙ long, omega arith, omega arith);
            heap = d.heap;
          };
          num = omega arith;
          items = λ g.
              ap (λ k. g (f 1) + k)
                (d.same g ∙ ap (λ h. bag g h m) is ∙ ap (λ k. bag g (put f 1 (f k)) m) e)
              ∙ bag-topped g f m
              ∙ ap (bag g f) (sym e);
          floor = d.floor ∙ ap (λ h. h 0) is ∙ refl;
        },
      )

  remove_from :
      (a : Option Block)
      → IsHeap p.before (words junk (record p { array = a })) p.num
      → IsSized p.num p.alloced a
      → 0 < p.num
      → (q : Pot) × ((w : World)
          → a_pot_remove_top junk (record p { array = a }) w
            ≡ ok (words junk (record p { array = a }) 1, q) w)
        × Removed junk (record p { array = a }) q
  remove_from none heap s left = absurd (omega arith)
  remove_from (some b) heap s left = remove_in b (p.num - 1) (omega arith) heap s.0 s.2

-- On a valid pot that holds an item a_pot_remove_top returns, in every world, the first item, which
-- no item goes before, and leaves a valid pot of one item less: the items are the old ones without
-- the one returned, and cell 0 reads as before.
pub a_pot_remove_top-Removed :
    (junk : ℕ) (p : Pot)
    → IsValid junk p
    → 0 < p.num
    → (q : Pot) × ((w : World) → a_pot_remove_top junk p w ≡ ok (words junk p 1, q) w)
      × Removed junk p q
      × ((i : ℕ) → 0 < i → i ≤ p.num → p.before (words junk p i) (words junk p 1) ≡ false)
a_pot_remove_top-Removed junk p v left =
    let (q, run, d) = remove_from junk p v.order p.array v.heap v.sized left in
    (
      q,
      run,
      d,
      λ i h l. IsHeap-first p.before v.order (words junk p) p.num v.heap i i (omega arith) h l,
    )

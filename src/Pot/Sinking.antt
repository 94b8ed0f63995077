-- ===== src/Pot/Sinking.antt =====
-- bubble_down of a/pot.c.
use alib4c.Common.{
  ℕ, zero, suc, ◌+◌, ◌*◌, ◌/◌, ◌<◌, ◌≤◌, ◌≡◌, ◌≢◌, refl, ap, ◌∙◌, true, false, some, ◌==◌, ltb,
  Bool-cases, inl, inr, arith, length, length-set, set,
}
use mathlib.Core.Path.{fun_ext}
use alib4c.World.{World, ok}
use alib4c.Mem.{Block}
use alib4c.Pot.{Pot, Before, bubble_down_loop}
use alib4c.Pot.Cells.{
  word_at, in_array, put, bag, swapped, read_cell-word_at, word_at-set, swap_cells-swapped, bag-put,
}
use alib4c.Pot.Children.{Picked, min_child-Picked}
use alib4c.Pot.Rising.{IsPrior, IsHeap, Raised}

-- a heap but for the item at `pos`, which is on its way down
pub record Sinks (before : Before) (f : ℕ → ℕ) (n pos : ℕ) : Type 0 where
  pub inside : 0 < pos
  pub others : (i : ℕ) → 0 < i → i ≤ n → i / 2 ≢ pos → before (f i) (f (i / 2)) ≡ false
  pub below : (i : ℕ) → 0 < i → i ≤ n → i / 2 ≡ pos → before (f i) (f (pos / 2)) ≡ false

abbrev swap_with : (ℕ → ℕ) → (child pos : ℕ) → ℕ → ℕ
swap_with f child pos = put (put f child (f pos)) pos (f child)

module _ (before : Before) (o : IsPrior before) (f : ℕ → ℕ) (n pos child : ℕ)
    (r : Sinks before f n pos) (c : Picked before f n pos child) where
  child_after : pos < child
  child_after = omega (arith, r.inside, c.of)

  -- the item stays where it is
  rested : before (f child) (f pos) ≡ false → IsHeap before f n
  rested e i h l = elim (Bool-cases (i / 2 == pos)) [
    | inl y ↦
        let s : i / 2 ≡ pos = ground arith in
        rw s (o.trans (f pos) (f child) (f i) e (c.first i l s))
    | inr y ↦ r.others i h l (ground arith)
  ]

  resting : before (f child) (f pos) ≡ false → Sinks before f n child
  resting e = record {
    inside = omega (arith, child_after);
    others = λ i h l d. rested e i h l;
    below = λ i h l s.
        let q = rested e i h l in rw c.of (o.trans (f pos) (f child) (f i) e (rw s at q));
  }

  moved_up : swap_with f child pos pos ≡ f child
  moved_up = ground arith

  moved_down : swap_with f child pos child ≡ f pos
  moved_down = ground (arith, child_after)

  elsewhere : (j : ℕ) → j ≢ pos → j ≢ child → swap_with f child pos j ≡ f j
  elsewhere j a b = ground arith

  sunk : before (f child) (f pos) ≡ true → Sinks before (swap_with f child pos) n child
  sunk e = record {
    inside = omega (arith, child_after);
    others = λ i h l d. elim (Bool-cases (i == pos)) [
      | inl y ↦
          let s : i ≡ pos = ground arith in
          let up = elsewhere (pos / 2) (omega (arith, r.inside)) (omega (arith, child_after)) in
          rw (s, moved_up, up) (r.below child (omega (arith, child_after)) c.there c.of)
      | inr y ↦ elim (Bool-cases (i == child)) [
        | inl z ↦
            let s : i ≡ child = ground arith in rw (s, moved_down, c.of, moved_up) (o.asym _ _ e)
        | inr z ↦ elim (Bool-cases (i / 2 == pos)) [
          | inl u ↦
              let s : i / 2 ≡ pos = ground arith in
              rw (elsewhere i (ground arith) (ground arith), s, moved_up) (c.first i l s)
          | inr u ↦
              rw (elsewhere i (ground arith) (ground arith), elsewhere (i / 2) (ground arith) d)
                (r.others i h l (ground arith))
        ]
      ]
    ];
    below = λ i h l s.
        let q : before (f i) (f child) ≡ false =
          rw s at (r.others i h l (omega (arith, child_after, s))) in
        let up : swap_with f child pos i ≡ f i =
          elsewhere i (omega (arith, child_after, s)) (omega (arith, child_after, s, r.inside)) in
        rw (up, c.of, moved_up) q;
  }

  bag-swap_with : (g : ℕ → ℕ) → bag g (swap_with f child pos) n ≡ bag g f n
  bag-swap_with g =
      let kept : put f child (f pos) pos ≡ f pos = ground (arith, child_after) in
      omega (
        arith,
        bag-put g f n child (f pos) (omega (arith, child_after)) c.there,
        bag-put g (put f child (f pos)) n pos (f child) r.inside
            (omega (arith, child_after, c.there)),
        ap g kept,
      )

-- one round of bubble_down that swaps
abbrev swapped_down : ℕ → Block → (child pos : ℕ) → Block
swapped_down junk b child pos = swapped b child pos (word_at junk b child) (word_at junk b pos)

length-swapped_down :
    (junk : ℕ) (b : Block) (child pos : ℕ) → length (swapped_down junk b child pos) ≡ length b
length-swapped_down junk b child pos =
    length-set (set b child (some (word_at junk b pos))) pos (some (word_at junk b child))
    ∙ length-set b child (some (word_at junk b pos))

swapped_down-swap_with :
    (junk : ℕ) (b : Block) (child pos : ℕ)
    → child < length b
    → pos < length b
    → word_at junk (swapped_down junk b child pos) ≡ swap_with (word_at junk b) child pos
swapped_down-swap_with junk b child pos l k = fun_ext (λ j. ground (
  arith,
  word_at-set junk b child (word_at junk b pos) j l,
  word_at-set junk (set b child (some (word_at junk b pos))) pos (word_at junk b child) j,
  length-set b child (some (word_at junk b pos)),
))

module _ (junk : ℕ) (p : Pot) (o : IsPrior p.before) where
  pub bubble_down_loop-Raised :
      (fuel pos : ℕ) (b : Block)
      → p.num < fuel + pos
      → pos ≤ p.num
      → p.num < length b
      → Sinks p.before (word_at junk b) p.num pos
      → (c : Block) × ((w : World)
          → bubble_down_loop junk fuel pos (in_array p b) w ≡ ok (in_array p c) w)
        × Raised p junk p.num b c
  unfolding bubble_down_loop
  bubble_down_loop-Raised zero pos b few on l r = absurd (omega arith)
  bubble_down_loop-Raised (suc fuel) pos b few on l r = elim (Bool-cases (ltb p.num (pos * 2))) [
    | inl e ↦ (
      b,
      λ w. rw e,
      record {
        size = refl;
        heap = λ i h k. r.others i h k (ground arith);
        floor = refl;
        same = λ g. refl;
      },
    )
    | inr e ↦
        let (k, pick, c) = min_child-Picked junk p o b l pos (ground arith) in
        let after = child_after p.before o (word_at junk b) p.num pos k r c in
        let mine = λ (w : World). read_cell-word_at junk b pos w (omega (arith, l, on)) in
        let its = λ (w : World). read_cell-word_at junk b k w (omega (arith, l, c.there)) in
        elim (Bool-cases (p.before (word_at junk b k) (word_at junk b pos))) [
          | inr n ↦
              let (d, run, s) =
                bubble_down_loop-Raised fuel k b (omega (arith, after)) c.there l
                  (resting p.before o (word_at junk b) p.num pos k r c n) in
              (d, λ w. rw (e, pick w, its w, mine w, n) (run w), s)
          | inl y ↦
              let is =
                swapped_down-swap_with junk b k pos (omega (arith, l, c.there))
                  (omega (arith, l, on)) in
              let long = length-swapped_down junk b k pos in
              let (d, run, s) =
                bubble_down_loop-Raised fuel k (swapped_down junk b k pos) (omega (arith, after))
                  c.there (omega (arith, long, l))
                  (rw is (sunk p.before o (word_at junk b) p.num pos k r c y)) in
              (
                d,
                λ w.
                    rw
                      (
                        e,
                        pick w,
                        its w,
                        mine w,
                        y,
                        swap_cells-swapped p b k pos (word_at junk b k) (word_at junk b pos) w
                            (omega (arith, l, c.there)) (omega (arith, l, on)),
                      )
                      (run w),
                record {
                  size = s.size ∙ long;
                  heap = s.heap;
                  floor =
                      s.floor
                      ∙ ap (λ h. h 0) is
                      ∙ elsewhere p.before o (word_at junk b) p.num pos k r c 0
                          (omega (arith, r.inside)) (omega (arith, after));
                  same = λ g.
                      s.same g
                      ∙ ap (λ h. bag g h p.num) is
                      ∙ bag-swap_with p.before o (word_at junk b) p.num pos k r c g;
                },
              )
        ]
  ]

-- ===== src/Pot/Rising.antt =====
-- bubble_up of a/pot.c.
use alib4c.Common.{
  ℕ, zero, suc, ◌/◌, ◌<◌, ◌≤◌, ◌≡◌, ◌≢◌, refl, ap, ◌∙◌, true, false, some, ◌==◌, Bool-cases, inl,
  inr, arith, length, length-set, set,
}
use mathlib.Core.Path.{fun_ext}
use alib4c.World.{World, ok}
use alib4c.Mem.{Block}
use alib4c.Pot.{Pot, Before, bubble_up_loop}
use alib4c.Pot.Cells.{
  word_at, in_array, put, bag, swapped, read_cell-word_at, word_at-set, swap_cells-swapped, bag-put,
}

-- Of two items at most one goes before the other, and "does not go before" is transitive.
pub record IsPrior (before : Before) : Type 0 where
  pub asym : (a b : ℕ) → before a b ≡ true → before b a ≡ false
  pub trans : (a b c : ℕ) → before b a ≡ false → before c b ≡ false → before c a ≡ false

-- No item goes before the one at half its index; the first stands above cell 0.
abbrev pub IsHeap : Before → (ℕ → ℕ) → ℕ → Type 0
IsHeap before f n = (i : ℕ) → 0 < i → i ≤ n → before (f i) (f (i / 2)) ≡ false

-- a heap but for the item at `pos`, which is on its way up
pub record Rises (before : Before) (f : ℕ → ℕ) (n pos : ℕ) : Type 0 where
  pub inside : (0 < pos) × (pos ≤ n)
  pub others : (i : ℕ) → 0 < i → i ≤ n → i ≢ pos → before (f i) (f (i / 2)) ≡ false
  pub below : (i : ℕ) → 0 < i → i ≤ n → i / 2 ≡ pos → before (f i) (f (pos / 2)) ≡ false
  pub above : before (f pos) (f 0) ≡ false

abbrev swap_at : (ℕ → ℕ) → ℕ → ℕ → ℕ
swap_at f pos = put (put f pos (f (pos / 2))) (pos / 2) (f pos)

module _ (before : Before) (o : IsPrior before) (f : ℕ → ℕ) (n pos : ℕ)
    (r : Rises before f n pos) where
  arrived : before (f pos) (f (pos / 2)) ≡ false → IsHeap before f n
  arrived e i h l = elim (Bool-cases (i == pos)) [
    | inl y ↦ (let s : i ≡ pos = ground arith in rw s e)
    | inr y ↦ r.others i h l (ground arith)
  ]

  parent : before (f pos) (f (pos / 2)) ≡ true → 0 < pos / 2
  parent e = elim (Bool-cases (pos / 2 == 0)) [
    | inl y ↦ (let s : pos / 2 ≡ 0 = ground arith in absurd (ground (arith, r.above, ap f s)))
    | inr y ↦ ground arith
  ]

  at_pos : 0 < pos / 2 → swap_at f pos pos ≡ f (pos / 2)
  at_pos p = ground (arith, r.inside)

  at_parent : swap_at f pos (pos / 2) ≡ f pos
  at_parent = ground arith

  elsewhere : (j : ℕ) → j ≢ pos → j ≢ pos / 2 → swap_at f pos j ≡ f j
  elsewhere j a b = ground arith

  risen : before (f pos) (f (pos / 2)) ≡ true → Rises before (swap_at f pos) n (pos / 2)
  risen e =
      let p = parent e in
      record {
        inside = (p, omega (arith, r.inside.0, r.inside.1));
        others = λ i h l d. elim (Bool-cases (i == pos)) [
          | inl y ↦ let s : i ≡ pos = ground arith in rw (s, at_pos p, at_parent) (o.asym _ _ e)
          | inr y ↦ elim (Bool-cases (i / 2 == pos)) [
            | inl z ↦
                let s : i / 2 ≡ pos = ground arith in
                rw (elsewhere i (ground arith) d, s, at_pos p) (r.below i h l s)
            | inr z ↦ elim (Bool-cases (i / 2 == pos / 2)) [
              | inl u ↦
                  let s : i / 2 ≡ pos / 2 = ground arith in
                  let side : before (f i) (f (pos / 2)) ≡ false =
                    rw s at (r.others i h l (ground arith)) in
                  rw (elsewhere i (ground arith) d, s, at_parent)
                    (o.trans (f pos) (f (pos / 2)) (f i) (o.asym _ _ e) side)
              | inr u ↦
                  rw (elsewhere i (ground arith) d, elsewhere (i / 2) (ground arith) (ground arith))
                    (r.others i h l (ground arith))
            ]
          ]
        ];
        below = λ i h l s.
            let top : before (f (pos / 2)) (f (pos / 2 / 2)) ≡ false =
              r.others (pos / 2) p (omega (arith, r.inside.1)) (omega (arith, r.inside.0)) in
            let up = elsewhere (pos / 2 / 2) (omega (arith, r.inside.0)) (omega arith) in
            elim (Bool-cases (i == pos)) [
              | inl y ↦ (let q : i ≡ pos = ground arith in rw (up, q, at_pos p) top)
              | inr y ↦
                  let side : before (f i) (f (pos / 2)) ≡ false =
                    rw s at (r.others i h l (ground arith)) in
                  rw (up, elsewhere i (ground arith) (omega arith))
                    (o.trans (f (pos / 2 / 2)) (f (pos / 2)) (f i) top side)
            ];
        above = rw (at_parent, elsewhere 0 (omega (arith, r.inside.0)) (omega arith)) r.above;
      }

  floor_kept : before (f pos) (f (pos / 2)) ≡ true → swap_at f pos 0 ≡ f 0
  floor_kept e = elsewhere 0 (omega (arith, r.inside.0)) (omega (arith, parent e))

  bag-swap_at : (g : ℕ → ℕ) → 0 < pos / 2 → bag g (swap_at f pos) n ≡ bag g f n
  bag-swap_at g p =
      let kept : put f pos (f (pos / 2)) (pos / 2) ≡ f (pos / 2) = ground (arith, r.inside.0) in
      omega (
        arith,
        bag-put g f n pos (f (pos / 2)) r.inside.0 r.inside.1,
        bag-put g (put f pos (f (pos / 2))) n (pos / 2) (f pos) p (omega (arith, r.inside.1)),
        ap g kept,
      )

-- where bubble_up leaves the array `c` that was `b`
pub record Raised (p : Pot) (junk n : ℕ) (b c : Block) : Type 0 where
  pub size : length c ≡ length b
  pub heap : IsHeap p.before (word_at junk c) n
  pub floor : word_at junk c 0 ≡ word_at junk b 0
  pub same : (g : ℕ → ℕ) → bag g (word_at junk c) n ≡ bag g (word_at junk b) n

-- one round of bubble_up
abbrev swapped_up : ℕ → Block → ℕ → Block
swapped_up junk b pos = swapped b pos (pos / 2) (word_at junk b pos) (word_at junk b (pos / 2))

length-swapped_up : (junk : ℕ) (b : Block) (pos : ℕ) → length (swapped_up junk b pos) ≡ length b
length-swapped_up junk b pos =
    length-set (set b pos (some (word_at junk b (pos / 2)))) (pos / 2) (some (word_at junk b pos))
    ∙ length-set b pos (some (word_at junk b (pos / 2)))

swapped_up-swap_at :
    (junk : ℕ) (b : Block) (pos : ℕ)
    → pos < length b
    → word_at junk (swapped_up junk b pos) ≡ swap_at (word_at junk b) pos
swapped_up-swap_at junk b pos l = fun_ext (λ j. ground (
  arith,
  word_at-set junk b pos (word_at junk b (pos / 2)) j l,
  word_at-set junk (set b pos (some (word_at junk b (pos / 2)))) (pos / 2) (word_at junk b pos) j,
  length-set b pos (some (word_at junk b (pos / 2))),
))

module _ (junk : ℕ) (p : Pot) (o : IsPrior p.before) (n : ℕ) where
  pub bubble_up_loop-Raised :
      (fuel pos : ℕ) (b : Block)
      → pos ≤ fuel
      → n < length b
      → Rises p.before (word_at junk b) n pos
      → (c : Block) × ((w : World)
          → bubble_up_loop junk fuel pos (in_array p b) w ≡ ok (in_array p c) w)
        × Raised p junk n b c
  unfolding bubble_up_loop
  bubble_up_loop-Raised fuel zero b few l r = absurd (omega (arith, r.inside.0))
  bubble_up_loop-Raised zero (suc k) b few l r = absurd (omega arith)
  bubble_up_loop-Raised (suc fuel) (suc k) b few l r =
      let here : suc k < length b = omega (arith, r.inside.1) in
      let half : suc k / 2 < length b = omega (arith, r.inside.1) in
      let f = word_at junk b in
      elim (Bool-cases (p.before (word_at junk b (suc k)) (word_at junk b (suc k / 2)))) [
        | inr e ↦ (
          b,
          λ w. rw (
            read_cell-word_at junk b (suc k) w here,
            read_cell-word_at junk b (suc k / 2) w half,
            e,
          ),
          record {
            size = refl;
            heap = arrived p.before o (word_at junk b) n (suc k) r e;
            floor = refl;
            same = λ g. refl;
          },
        )
        | inl e ↦
            let is = swapped_up-swap_at junk b (suc k) here in
            let next = risen p.before o (word_at junk b) n (suc k) r e in
            let b' = swapped_up junk b (suc k) in
            let long = length-swapped_up junk b (suc k) in
            let (c, run, d) =
              bubble_up_loop-Raised fuel (suc k / 2) b' (omega arith) (omega (arith, long))
                (rw is next) in
            (
              c,
              λ w.
                  rw
                    (
                      read_cell-word_at junk b (suc k) w here,
                      read_cell-word_at junk b (suc k / 2) w half,
                      e,
                      swap_cells-swapped p b (suc k) (suc k / 2) (word_at junk b (suc k))
                          (word_at junk b (suc k / 2)) w here half,
                    )
                    (run w),
              record {
                size = d.size ∙ long;
                heap = d.heap;
                floor =
                    d.floor
                    ∙ ap (λ h. h 0) is
                    ∙ floor_kept p.before o (word_at junk b) n (suc k) r e;
                same = λ g.
                    d.same g
                    ∙ ap (λ h. bag g h n) is
                    ∙ bag-swap_at p.before o (word_at junk b) n (suc k) r g
                        (parent p.before o (word_at junk b) n (suc k) r e);
              },
            )
      ]

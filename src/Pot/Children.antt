-- ===== src/Pot/Children.antt =====
-- The choice of a child in bubble_down of a/pot.c.
use alib4c.Common.{
  ℕ, ◌+◌, ◌*◌, ◌/◌, ◌<◌, ◌≤◌, ◌≡◌, false, ◌==◌, leb, Bool-cases, inl, inr, arith, length,
}
use alib4c.World.{World, ok}
use alib4c.Mem.{Block}
use alib4c.Pot.{Pot, Before, min_child}
use alib4c.Pot.Cells.{word_at, in_array, read_cell-word_at}
use alib4c.Pot.Rising.{IsPrior}

-- what min_child picks: a child that the other one does not go before
pub record Picked (before : Before) (f : ℕ → ℕ) (n pos child : ℕ) : Type 0 where
  pub of : child / 2 ≡ pos
  pub there : child ≤ n
  pub first : (i : ℕ) → i ≤ n → i / 2 ≡ pos → before (f i) (f child) ≡ false

pub irrefl : (before : Before) → IsPrior before → (a : ℕ) → before a a ≡ false
irrefl before o a = elim (Bool-cases (before a a)) [ inl e ↦ o.asym a a e | inr e ↦ e ]

module _ (junk : ℕ) (p : Pot) (o : IsPrior p.before) (b : Block) (long : p.num < length b) where
  pub min_child-Picked :
      (pos : ℕ)
      → pos * 2 ≤ p.num
      → (k : ℕ) × ((w : World) → min_child junk (in_array p b) (pos * 2) w ≡ ok k w)
        × Picked p.before (word_at junk b) p.num pos k
  unfolding min_child
  min_child-Picked pos fits = elim (Bool-cases (leb (pos * 2 + 1) p.num)) [
    | inr e ↦ (
      pos * 2,
      λ w. rw e,
      record {
        of = omega arith;
        there = fits;
        first = λ i l s.
            let only : i ≡ pos * 2 = ground arith in
            rw only (irrefl p.before o (word_at junk b (pos * 2)));
      },
    )
    | inl e ↦
        let two : pos * 2 + 1 ≤ p.num = ground arith in
        let right = λ (w : World). read_cell-word_at junk b (pos * 2 + 1) w (omega (arith, long)) in
        let left = λ (w : World). read_cell-word_at junk b (pos * 2) w (omega (arith, long)) in
        elim (Bool-cases (p.before (word_at junk b (pos * 2 + 1)) (word_at junk b (pos * 2)))) [
          | inl y ↦ (
            pos * 2 + 1,
            λ w. rw (e, right w, left w, y),
            record {
              of = omega arith;
              there = two;
              first = λ i l s. elim (Bool-cases (i == pos * 2)) [
                | inl z ↦ (let is : i ≡ pos * 2 = ground arith in rw is (o.asym _ _ y))
                | inr z ↦
                    let is : i ≡ pos * 2 + 1 = ground arith in
                    rw is (irrefl p.before o (word_at junk b (pos * 2 + 1)))
              ];
            },
          )
          | inr y ↦ (
            pos * 2,
            λ w. rw (e, right w, left w, y),
            record {
              of = omega arith;
              there = fits;
              first = λ i l s. elim (Bool-cases (i == pos * 2)) [
                | inl z ↦
                    let is : i ≡ pos * 2 = ground arith in
                    rw is (irrefl p.before o (word_at junk b (pos * 2)))
                | inr z ↦ (let is : i ≡ pos * 2 + 1 = ground arith in rw is y)
              ];
            },
          )
        ]
  ]

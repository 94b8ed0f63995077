-- ===== src/Attempts.antt =====
-- A sequence of calls that stops at the first failing one and gives something back on the way out, as
-- the functions for Windows of a/to_do/daemon.c and a/to_do/log.c are written with return_flail.
use alib4c.Common.{ℕ, suc, ◌+◌, ◌≡◌, refl, Bool, true, false, not, ◌&&◌, List, [], ◌∷◌, arith}

-- Whether it ends in an error, and the calls, the first at the front.
pub record Outcome (C : Type 0) : Type 0 where
  pub failed : Bool
  pub calls : List C

unfoldable pub all_done : {C : Type 0} → Outcome C
all_done = record { failed = false; calls = [] }

-- a call whose answer is not looked at
unfoldable pub always : {C : Type 0} → C → Outcome C → Outcome C
always c go_on = record go_on { calls = c ∷ go_on.calls }

abbrev pub one_if : Bool → ℕ
one_if true = 1
one_if false = 0

pub one_lem : (b : Bool) → b ≡ true → one_if b ≡ 1
one_lem true e = refl
one_lem false e = absurd (cc e)

pub zero_lem : (b : Bool) → b ≡ false → one_if b ≡ 0
zero_lem true e = absurd (cc e)
zero_lem false e = refl

-- the sum of a weight over some calls
abbrev pub weigh : {C : Type 0} → (C → ℕ) → List C → ℕ
weigh f [] = 0
weigh f (c ∷ cs) = f c + weigh f cs

module _ {C : Type 0} (succeeds : C → Bool) where
  -- `if(!call) return_flail(...);` where return_flail gives some things back
  unfoldable pub attempt : C → List C → Outcome C → Outcome C
  attempt c back go_on = elim (succeeds c) [
    | true ↦ record go_on { calls = c ∷ go_on.calls }
    | false ↦ record { failed = true; calls = c ∷ back }
  ]

  abbrev pub all_succeed : List C → Bool
  all_succeed [] = true
  all_succeed (c ∷ cs) = succeeds c && all_succeed cs

  pub attempt-failed :
      (c : C) (back : List C) (o : Outcome C) (b : Bool)
      → o.failed ≡ not b
      → (attempt c back o).failed ≡ not (succeeds c && b)
  unfolding attempt
  attempt-failed c back o b h = go (succeeds c)
    where
      go :
          (d : Bool)
          → (elim d as (λ x. Outcome C) [
            | true ↦ record o { calls = c ∷ o.calls }
            | false ↦ record { failed = true; calls = c ∷ back }
          ]).failed
            ≡ not (d && b)
      go true = h
      go false = refl

  -- `gives` counts what a call hands out, `takes` what it gives back.
  module _ (gives takes : C → ℕ) where
    -- with `k` things in hand, all are given back at the end
    unfoldable pub Balanced : ℕ → Outcome C → Type 0
    Balanced k o = k + weigh gives o.calls ≡ weigh takes o.calls

    -- the call of `c`, which hands out `j` things when it succeeds
    pub attempt-Balanced :
        (c : C) (j : ℕ) (back : List C) (k : ℕ) (o : Outcome C)
        → takes c ≡ 0
        → (succeeds c ≡ true → gives c ≡ j)
        → (succeeds c ≡ false → gives c ≡ 0)
        → k + weigh gives back ≡ weigh takes back
        → Balanced (k + j) o
        → Balanced k (attempt c back o)
    unfolding attempt Balanced
    attempt-Balanced c j back k o t f g b h = go (succeeds c) refl
      where
        go :
            (b : Bool)
            → succeeds c ≡ b
            → Balanced k (elim b [
              | true ↦ record o { calls = c ∷ o.calls }
              | false ↦ record { failed = true; calls = c ∷ back }
            ])
        go true e = omega (arith, t, f e, h)
        go false e = omega (arith, t, g e, b)

    -- a call that hands out nothing
    pub plain-Balanced :
        (c : C) (back : List C) (k : ℕ) (o : Outcome C)
        → takes c ≡ 0
        → gives c ≡ 0
        → k + weigh gives back ≡ weigh takes back
        → Balanced k o
        → Balanced k (attempt c back o)
    unfolding Balanced
    plain-Balanced c back k o t g b h =
        attempt-Balanced c 0 back k o t (λ e. g) (λ e. g) b (omega (arith, h))

    pub all_done-Balanced : Balanced 0 all_done
    unfolding Balanced all_done
    all_done-Balanced = refl

    pub freeing-Balanced :
        (c : C) (k : ℕ) (o : Outcome C)
        → gives c ≡ 0
        → takes c ≡ 1
        → Balanced k o
        → Balanced (suc k) (always c o)
    unfolding Balanced always
    freeing-Balanced c k o g t h = omega (arith, g, t, h)

    pub Balanced-weigh : (o : Outcome C) → Balanced 0 o → weigh gives o.calls ≡ weigh takes o.calls
    unfolding Balanced
    Balanced-weigh o h = omega (arith, h)

-- ===== src/Hash/Flat.antt =====
-- A table of a/hash.c as the list of its items, and the nested loops of extend as one loop.
use alib4c.Common.{
  ℕ, zero, suc, ◌+◌, ◌^◌, ◌<◌, ◌≡◌, ◌≢◌, refl, sym, ◌∙◌, [], ◌∷◌, ◌++◌, arith, length,
  length-append, replicate, length-replicate, get_or-replicate, none,
}
use alib4c.World.{Ptr, World, Run, ok, fault, died, M, ◌>>=◌, and_then}
use alib4c.Collect.{Eq}
use alib4c.Hash.{Chain, Table, HashTable, add_item, rehash_chain, rehash, chains}
use alib4c.Hash.Chain.{occ, find_val, occ-append, find_val-append_zero, find_val-append_right}
use alib4c.Hash.Buckets.{chain, IsPlaced, view, entries, weight, total, InRange}
use alib4c.Mem.Nulls.{nulls}

abbrev pub flat : Table → Chain
flat [] = []
flat (c ∷ cells) = c ++ flat cells

pub length-flat : (cells : Table) → length (flat cells) ≡ entries cells
length-flat [] = refl
length-flat (c ∷ cells) = omega (arith, length-append c (flat cells), length-flat cells)

weight-append : (f : Ptr → ℕ) (a b : Chain) → weight f (a ++ b) ≡ weight f a + weight f b
weight-append f [] b = omega arith
weight-append f (it ∷ a) b = omega (arith, weight-append f a b)

pub weight-flat : (f : Ptr → ℕ) (cells : Table) → weight f (flat cells) ≡ total f cells
weight-flat f [] = refl
weight-flat f (c ∷ cells) = omega (arith, weight-append f c (flat cells), weight-flat f cells)

pub total-replicate : (f : Ptr → ℕ) (n : ℕ) → total f (replicate n []) ≡ 0
total-replicate f zero = refl
total-replicate f (suc n) = omega (arith, total-replicate f n)

InRange-append : (a b : Chain) → InRange a → InRange b → InRange (a ++ b)
InRange-append [] b p q = q
InRange-append (it ∷ a) b p q = (p.0, InRange-append a b p.1 q)

pub InRange-flat : (cells : Table) → ((i : ℕ) → InRange (chain cells i)) → InRange (flat cells)
InRange-flat [] h = tt
InRange-flat (c ∷ cells) h =
    InRange-append c (flat cells) (h 0) (InRange-flat cells (λ i. h (suc i)))

module _ (eq : Eq) (g : ℕ) (k : Ptr) where
  occ-flat_zero :
      (cells : Table) → ((i : ℕ) → occ eq g k (chain cells i) ≡ 0) → occ eq g k (flat cells) ≡ 0
  occ-flat_zero [] h = refl
  occ-flat_zero (c ∷ cells) h =
      omega (arith, occ-append eq g k c (flat cells), h 0, occ-flat_zero cells (λ i. h (suc i)))

  pub occ-flat :
      (cells : Table) (j : ℕ)
      → ((i : ℕ) → i ≢ j → occ eq g k (chain cells i) ≡ 0)
      → occ eq g k (flat cells) ≡ occ eq g k (chain cells j)
  occ-flat [] j h = refl
  occ-flat (c ∷ cells) zero h =
      omega (
        arith,
        occ-append eq g k c (flat cells),
        occ-flat_zero cells (λ i. h (suc i) (omega arith)),
      )
  occ-flat (c ∷ cells) (suc j) h = omega (
    arith,
    occ-append eq g k c (flat cells),
    h 0 (omega arith),
    occ-flat cells j (λ i n. h (suc i) (omega arith)),
  )

  pub find_val-flat :
      (cells : Table) (j : ℕ)
      → ((i : ℕ) → i ≢ j → occ eq g k (chain cells i) ≡ 0)
      → find_val eq g k (flat cells) ≡ find_val eq g k (chain cells j)
  find_val-flat [] j h = refl
  find_val-flat (c ∷ cells) zero h =
      find_val-append_right eq g k c (flat cells)
        (occ-flat_zero cells (λ i. h (suc i) (omega arith)))
  find_val-flat (c ∷ cells) (suc j) h =
      find_val-append_zero eq g k c (flat cells) (h 0 (omega arith))
      ∙ find_val-flat cells j (λ i n. h (suc i) (omega arith))

and_then-and_then {ℓ} :
    {A B C : Type ℓ} (r : Run A) (f : A → M B) (g : B → M C)
    → and_then (and_then r f) g ≡ and_then r (λ a. f a >>= g)
and_then-and_then (ok a w) f g = refl
and_then-and_then fault f g = refl
and_then-and_then died f g = refl

and_then_ext {ℓ} :
    {A B : Type ℓ} (r : Run A) (f g : A → M B)
    → ((a : A) (w : World) → f a w ≡ g a w)
    → and_then r f ≡ and_then r g
and_then_ext (ok a w) f g h = h a w
and_then_ext fault f g h = refl
and_then_ext died f g h = refl

module _ (h : HashTable) where
  rehash_chain-append :
      (a b : Chain) (cells : Table) (w : World)
      → rehash_chain h (a ++ b) cells w ≡ (rehash_chain h a cells >>= rehash_chain h b) w
  unfolding rehash_chain
  rehash_chain-append [] b cells w = refl
  rehash_chain-append (it ∷ a) b cells w =
      and_then_ext (add_item h cells it w) (rehash_chain h (a ++ b))
        (λ t. rehash_chain h a t >>= rehash_chain h b) (rehash_chain-append a b)
      ∙ sym (and_then-and_then (add_item h cells it w) (rehash_chain h a) (rehash_chain h b))

  pub rehash-flat :
      (old cells : Table) (w : World) → rehash h old cells w ≡ rehash_chain h (flat old) cells w
  unfolding rehash rehash_chain
  rehash-flat [] cells w = refl
  rehash-flat (c ∷ old) cells w =
      and_then_ext (rehash_chain h c cells w) (rehash h old) (rehash_chain h (flat old))
        (rehash-flat old)
      ∙ sym (rehash_chain-append c (flat old) cells w)

pub chains-nulls : (n : ℕ) (w : World) → chains (nulls n) w ≡ ok (replicate n []) w
unfolding chains
chains-nulls zero w = refl
chains-nulls (suc n) w = rw (chains-nulls n w)

pub replicate-IsPlaced :
    (eq : Eq) (bits : ℕ) → bits < 31 → IsPlaced eq bits (replicate (2 ^ bits) [])
replicate-IsPlaced eq bits few = record {
  narrow = few;
  width = length-replicate (2 ^ bits) [];
  once = λ g k i. rw get_or-replicate (omega arith);
  home = λ g k i n. rw get_or-replicate refl;
  ranged = λ i. rw get_or-replicate tt;
}

pub entries-replicate : (n : ℕ) → entries (replicate n []) ≡ 0
entries-replicate zero = refl
entries-replicate (suc n) = omega (arith, entries-replicate n)

pub view-replicate :
    (eq : Eq) (bits n : ℕ) (g : ℕ) (k : Ptr) → view eq bits (replicate n []) g k ≡ none
view-replicate eq bits n g k = rw get_or-replicate refl

pub occ-replicate :
    (eq : Eq) (n i : ℕ) (g : ℕ) (k : Ptr) → occ eq g k (chain (replicate n []) i) ≡ 0
occ-replicate eq n i g k = rw get_or-replicate refl

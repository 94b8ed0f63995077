-- ===== src/Collect.antt =====
-- The callbacks of a/collect.h, and what a collection relies on when it calls them.
pub mod Compare
use alib4c.Common.{ℕ, ◌<◌, ◌^◌, ◌≡◌, ℤ, Bool, true, Sign, neg, nil, plus, sign, opposite}
use alib4c.World.{Ptr}

-- `a_collect_cmp_t`, `a_collect_eq_t` and `a_collect_hash_t`: the memory behind the pointers does
-- not change while they are in a collection.
abbrev pub Cmp : Type 0
Cmp = Ptr → Ptr → ℤ

abbrev pub Eq : Type 0
Eq = Ptr → Ptr → Bool

abbrev pub Hash : Type 0
Hash = Ptr → ℕ

-- What qsort and bsearch ask of a comparison: a total preorder, by signs.
pub record IsOrder (cmp : Cmp) : Type 0 where
  pub cmp_refl : (a : Ptr) → sign (cmp a a) ≡ nil
  pub cmp_swap : (a b : Ptr) → sign (cmp b a) ≡ opposite (sign (cmp a b))
  pub cmp_trans : (a b c : Ptr) → sign (cmp a b) ≡ neg → sign (cmp b c) ≡ neg → sign (cmp a c) ≡ neg
  pub cmp_congr : (a b c : Ptr) → sign (cmp a b) ≡ nil → sign (cmp a c) ≡ sign (cmp b c)

-- An equivalence whose equal keys hash alike, to an `unsigned int`.
pub record IsHashed (eq : Eq) (hash : Hash) : Type 0 where
  pub eq_refl : (a : Ptr) → eq a a ≡ true
  pub eq_symm : (a b : Ptr) → eq a b ≡ eq b a
  pub eq_trans : (a b c : Ptr) → eq a b ≡ true → eq b c ≡ true → eq a c ≡ true
  pub hash-eq : (a b : Ptr) → eq a b ≡ true → hash a ≡ hash b
  pub hash_range : (a : Ptr) → hash a < 2 ^ 32

-- ===== src/Hash/Chain.antt =====
-- One chain of a/hash.c: how often it holds a key, and what the searches and writes do to that.
use alib4c.Common.{
  ℕ, suc, ◌+◌, ◌≤◌, ◌≡◌, refl, Bool, true, ◌&&◌, Option, none, some, [], ◌∷◌, ◌++◌, ◌==◌,
  if◌then◌else◌, arith,
}
use alib4c.World.{Ptr}
use alib4c.Collect.{Eq, Hash, IsHashed}
use alib4c.Hash.{Item, Chain, matches, item_list_find, write_val, item_list_remove}

-- the number of items under a hash and a key
abbrev pub occ : Eq → ℕ → Ptr → Chain → ℕ
occ eq hash key [] = 0
occ eq hash key (it ∷ c) =
    if matches eq hash key it then suc (occ eq hash key c) else occ eq hash key c

-- the value of the first of them
abbrev pub find_val : Eq → ℕ → Ptr → Chain → Option Ptr
find_val eq hash key [] = none
find_val eq hash key (it ∷ c) =
    if matches eq hash key it then some it.val else find_val eq hash key c

abbrev pub val_of : Option Item → Option Ptr
val_of none = none
val_of (some it) = some it.val

module _ (eq : Eq) (hash : ℕ) (key : Ptr) where
  pub val_of-find : (c : Chain) → val_of (item_list_find eq hash key c) ≡ find_val eq hash key c
  unfolding item_list_find
  val_of-find [] = refl
  val_of-find (it ∷ c) = ground (arith, val_of-find c)

  pub find_val-none : (c : Chain) → occ eq hash key c ≡ 0 → find_val eq hash key c ≡ none
  find_val-none [] h = refl
  find_val-none (it ∷ c) h = ground (arith, find_val-none c)

  pub occ_of_find_none : (c : Chain) → item_list_find eq hash key c ≡ none → occ eq hash key c ≡ 0
  unfolding item_list_find
  occ_of_find_none [] h = refl
  occ_of_find_none (it ∷ c) h = ground (arith, occ_of_find_none c)

  pub occ-append : (a b : Chain) → occ eq hash key (a ++ b) ≡ occ eq hash key a + occ eq hash key b
  occ-append [] b = omega arith
  occ-append (it ∷ a) b = ground (arith, occ-append a b)

  pub find_val-append_zero :
      (a b : Chain) → occ eq hash key a ≡ 0 → find_val eq hash key (a ++ b) ≡ find_val eq hash key b
  find_val-append_zero [] b h = refl
  find_val-append_zero (it ∷ a) b h = ground (arith, find_val-append_zero a b)

  pub find_val-append_right :
      (a b : Chain) → occ eq hash key b ≡ 0 → find_val eq hash key (a ++ b) ≡ find_val eq hash key a
  find_val-append_right [] b h = find_val-none b h
  find_val-append_right (it ∷ a) b h = ground (arith, find_val-append_right a b)

  pub removed-found :
      (c : Chain) → (item_list_remove eq hash key c).0 ≡ item_list_find eq hash key c
  unfolding item_list_remove item_list_find
  removed-found [] = refl
  removed-found (it ∷ c) = ground (arith, removed-found c)

-- whether two keys match the same items
abbrev pub same : Eq → ℕ → Ptr → ℕ → Ptr → Bool
same eq hash key hash' key' = (hash == hash') && eq key key'

module _ (eq : Eq) (hf : Hash) (e : IsHashed eq hf) (hash : ℕ) (key : Ptr) (hash' : ℕ)
    (key' : Ptr) where
  matches_congr :
      (it : Item)
      → same eq hash key hash' key' ≡ true
      → matches eq hash key it ≡ matches eq hash' key' it
  unfolding matches
  matches_congr it h =
      ground (arith, e.eq_symm key key', e.eq_trans it.key key key', e.eq_trans it.key key' key)

  pub occ_congr :
      (c : Chain) → same eq hash key hash' key' ≡ true → occ eq hash key c ≡ occ eq hash' key' c
  occ_congr [] h = refl
  occ_congr (it ∷ c) h = ground (arith, matches_congr it, occ_congr c)

  matches_both :
      (it : Item)
      → matches eq hash key it ≡ true
      → matches eq hash' key' it ≡ same eq hash key hash' key'
  unfolding matches
  matches_both it h =
      ground (arith, e.eq_symm it.key key, e.eq_trans key it.key key', e.eq_trans it.key key key')

  pub occ-write_val :
      (v : Ptr) (c : Chain) → occ eq hash' key' (write_val eq hash key v c) ≡ occ eq hash' key' c
  unfolding write_val matches
  occ-write_val v [] = refl
  occ-write_val v (it ∷ c) = ground (arith, occ-write_val v c)

  pub find_val-write_val :
      (v : Ptr) (c : Chain) (it : Item)
      → item_list_find eq hash key c ≡ some it
      → find_val eq hash' key' (write_val eq hash key v c)
        ≡ (if same eq hash key hash' key' then some v else find_val eq hash' key' c)
  unfolding write_val item_list_find matches
  find_val-write_val v [] it h = cc
  find_val-write_val v (jt ∷ c) it h =
      ground (arith, matches_both jt, matches_congr jt, find_val-write_val v c it)

  pub occ-remove :
      (c : Chain) → occ eq hash' key' (item_list_remove eq hash key c).1 ≤ occ eq hash' key' c
  unfolding item_list_remove
  occ-remove [] = omega arith
  occ-remove (it ∷ c) = ground (arith, occ-remove c)

  pub find_val-remove :
      (c : Chain)
      → occ eq hash key c ≤ 1
      → find_val eq hash' key' (item_list_remove eq hash key c).1
        ≡ (if same eq hash key hash' key' then none else find_val eq hash' key' c)
  unfolding item_list_remove
  find_val-remove [] h = ground arith
  find_val-remove (it ∷ c) h = ground (
    arith,
    matches_both it,
    matches_congr it,
    find_val-remove c,
    occ_congr c,
    find_val-none eq hash' key' c,
  )

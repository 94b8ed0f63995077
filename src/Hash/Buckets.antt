-- ===== src/Hash/Buckets.antt =====
-- The whole table of a/hash.c: where items stand, what the table means, and writes to one chain.
use alib4c.Common.{
  ℕ, zero, suc, ◌+◌, ◌^◌, ◌≤◌, ◌<◌, ◌≡◌, ◌≢◌, refl, Option, none, some, [], ◌∷◌, ◌==◌,
  if◌then◌else◌, arith, length, get_or, set, get_or-set, length-set,
}
use alib4c.World.{Ptr}
use alib4c.Collect.{Eq, Hash, IsHashed}
use alib4c.Hash.{Item, Chain, Table, matches, item_list_find, write_val, item_list_remove}
use alib4c.Hash.Reduce.{slot}
use alib4c.Hash.Chain.{
  occ, find_val, same, occ_of_find_none, occ_congr, occ-write_val, find_val-write_val, occ-remove,
  find_val-remove,
}

abbrev pub chain : Table → ℕ → Chain
chain cells i = get_or cells i []

-- every stored hash is an `unsigned int`
abbrev pub InRange : Chain → Type 0
InRange [] = Unit
InRange (it ∷ c) = (it.hash < 2 ^ 32) × InRange c

-- Each key stands once at most, and only in the chain of its hash.
pub record IsPlaced (eq : Eq) (bits : ℕ) (cells : Table) : Type 0 where
  pub width : length cells ≡ 2 ^ bits
  -- the size is an `int`
  pub narrow : bits < 31
  pub once : (g : ℕ) (k : Ptr) (i : ℕ) → occ eq g k (chain cells i) ≤ 1
  pub home : (g : ℕ) (k : Ptr) (i : ℕ) → i ≢ slot g bits → occ eq g k (chain cells i) ≡ 0
  pub ranged : (i : ℕ) → InRange (chain cells i)

-- the value under a hash and a key
abbrev pub view : Eq → ℕ → Table → ℕ → Ptr → Option Ptr
view eq bits cells g k = find_val eq g k (chain cells (slot g bits))

-- the number of items
abbrev pub entries : Table → ℕ
entries [] = 0
entries (c ∷ cells) = length c + entries cells

-- the sum of a weight over the keys of the items
abbrev pub weight : (Ptr → ℕ) → Chain → ℕ
weight f [] = 0
weight f (it ∷ c) = f it.key + weight f c

abbrev pub total : (Ptr → ℕ) → Table → ℕ
total f [] = 0
total f (c ∷ cells) = weight f c + total f cells

pub total-set :
    (f : Ptr → ℕ) (cells : Table) (i : ℕ) (c : Chain)
    → i < length cells
    → total f (set cells i c) + weight f (chain cells i) ≡ total f cells + weight f c
total-set f [] i c h = absurd (omega arith)
total-set f (d ∷ cells) zero c h = omega arith
total-set f (d ∷ cells) (suc i) c h = omega (arith, total-set f cells i c (omega arith))

pub entries-set :
    (cells : Table) (i : ℕ) (c : Chain)
    → i < length cells
    → entries (set cells i c) + length (chain cells i) ≡ entries cells + length c
entries-set [] i c h = absurd (omega arith)
entries-set (d ∷ cells) zero c h = omega arith
entries-set (d ∷ cells) (suc i) c h = omega (arith, entries-set cells i c)

module _ (eq : Eq) (hash : ℕ) (key : Ptr) where
  InRange-write_val : (v : Ptr) (c : Chain) → InRange c → InRange (write_val eq hash key v c)
  unfolding write_val
  InRange-write_val v [] h = tt
  InRange-write_val v (it ∷ c) h = ground (arith, InRange-write_val v c h.1)

  InRange-remove : (c : Chain) → InRange c → InRange (item_list_remove eq hash key c).1
  unfolding item_list_remove
  InRange-remove [] h = tt
  InRange-remove (it ∷ c) h = ground (arith, InRange-remove c h.1)

  pub length-write_val : (v : Ptr) (c : Chain) → length (write_val eq hash key v c) ≡ length c
  unfolding write_val
  length-write_val v [] = refl
  length-write_val v (it ∷ c) = ground (arith, length-write_val v c)

  pub weight-write_val :
      (f : Ptr → ℕ) (v : Ptr) (c : Chain) → weight f (write_val eq hash key v c) ≡ weight f c
  unfolding write_val
  weight-write_val f v [] = refl
  weight-write_val f v (it ∷ c) = ground (arith, weight-write_val f v c)

  pub length-remove : (c : Chain) → length (item_list_remove eq hash key c).1 ≤ length c
  unfolding item_list_remove
  length-remove [] = omega arith
  length-remove (it ∷ c) = ground (arith, length-remove c)

module _ (eq : Eq) (bits : ℕ) (cells : Table) (p : IsPlaced eq bits cells) where
  -- A write of a chain that holds each key of its own slot once at most, and no other key.
  pub set-IsPlaced :
      (i : ℕ) (c : Chain)
      → i < length cells
      → ((g : ℕ) (k : Ptr) → occ eq g k c ≤ 1)
      → ((g : ℕ) (k : Ptr) → i ≢ slot g bits → occ eq g k c ≡ 0)
      → InRange c
      → IsPlaced eq bits (set cells i c)
  set-IsPlaced i c h once home ranged = record {
    width = omega (arith, p.width, length-set cells i c);
    narrow = p.narrow;
    once = λ g k j. rw (get_or-set cells i j c [] h) (ground (arith, once g k, p.once g k j));
    home = λ g k j n. rw (get_or-set cells i j c [] h) (ground (arith, home g k, p.home g k j));
    ranged = λ j. rw (get_or-set cells i j c [] h) (ground (arith, p.ranged j));
  }

  pub view-set :
      (i : ℕ) (c : Chain) (g : ℕ) (k : Ptr)
      → i < length cells
      → view eq bits (set cells i c) g k
        ≡ (if i == slot g bits then find_val eq g k c else view eq bits cells g k)
  view-set i c g k h = rw (get_or-set cells i (slot g bits) c [] h) (ground arith)

  module _ (hf : Hash) (e : IsHashed eq hf) (it : Item) (small : it.hash < 2 ^ 32) where
    abbrev at : ℕ
    at = slot it.hash bits

    abbrev list : Chain
    list = chain cells (slot it.hash bits)

    module _ (inside : slot it.hash bits < length cells) where
      -- a new key in front of its chain
      pub push-IsPlaced :
          item_list_find eq it.hash it.key list ≡ none → IsPlaced eq bits (set cells at (it ∷ list))
      unfolding matches
      push-IsPlaced h =
          set-IsPlaced at (it ∷ list) inside
            (λ g k. ground (
              arith,
              p.once g k at,
              occ_congr eq hf e it.hash it.key g k list,
              occ_of_find_none eq it.hash it.key list h,
            ))
            (λ g k n. ground (arith, p.home g k at n)) (small, p.ranged at)

      pub view-push :
          (g : ℕ) (k : Ptr)
          → view eq bits (set cells at (it ∷ list)) g k
            ≡ (if same eq it.hash it.key g k then some it.val else view eq bits cells g k)
      unfolding matches
      view-push g k = rw (view-set at (it ∷ list) g k inside) (ground arith)

      -- a new value under a key that its chain holds
      pub write-IsPlaced :
          (v : Ptr) → IsPlaced eq bits (set cells at (write_val eq it.hash it.key v list))
      write-IsPlaced v =
          set-IsPlaced at (write_val eq it.hash it.key v list) inside
            (λ g k. rw (occ-write_val eq hf e it.hash it.key g k v list) (p.once g k at))
            (λ g k n. rw (occ-write_val eq hf e it.hash it.key g k v list) (p.home g k at n))
            (InRange-write_val eq it.hash it.key v list (p.ranged at))

      pub view-write :
          (v : Ptr) (old : Item) (g : ℕ) (k : Ptr)
          → item_list_find eq it.hash it.key list ≡ some old
          → view eq bits (set cells at (write_val eq it.hash it.key v list)) g k
            ≡ (if same eq it.hash it.key g k then some v else view eq bits cells g k)
      view-write v old g k h =
          rw (view-set at (write_val eq it.hash it.key v list) g k inside)
            (ground (arith, find_val-write_val eq hf e it.hash it.key g k v list old h))

  module _ (hf : Hash) (e : IsHashed eq hf) (hash : ℕ) (key : Ptr)
      (inside : slot hash bits < length cells) where
    abbrev shorter : Chain
    shorter = (item_list_remove eq hash key (chain cells (slot hash bits))).1

    pub remove-IsPlaced : IsPlaced eq bits (set cells (slot hash bits) shorter)
    remove-IsPlaced =
        set-IsPlaced (slot hash bits) shorter inside
          (λ g k. omega (
            arith,
            occ-remove eq hf e hash key g k (chain cells (slot hash bits)),
            p.once g k (slot hash bits),
          ))
          (λ g k n. omega (
            arith,
            occ-remove eq hf e hash key g k (chain cells (slot hash bits)),
            p.home g k (slot hash bits) n,
          ))
          (InRange-remove eq hash key (chain cells (slot hash bits)) (p.ranged (slot hash bits)))

    pub view-remove :
        (g : ℕ) (k : Ptr)
        → view eq bits (set cells (slot hash bits) shorter) g k
          ≡ (if same eq hash key g k then none else view eq bits cells g k)
    view-remove g k = rw (view-set (slot hash bits) shorter g k inside) (
        ground (
          arith,
          find_val-remove eq hf e hash key g k (chain cells (slot hash bits))
              (p.once hash key (slot hash bits)),
        ))

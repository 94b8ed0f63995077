-- ===== src/Pot/Resizing.antt =====
-- a_pot_resize of a/pot.c.
use alib4c.Common.{
  ℕ, zero, suc, ◌+◌, ◌*◌, ◌%◌, ◌^◌, ◌<◌, ◌≤◌, ◌≡◌, refl, ◌⊎◌, Bool, true, false, ◌||◌, Option, none,
  some, length, ◌==◌, ltb, if◌then◌else◌, Bool-cases, inl, inr, arith, get_or, [], ◌∷◌,
}
use native.Mathlib.Nat.{pow-suc, mul_assoc}
use alib4c.World.{World, Returns, malloc, head_or_false, perror}
use alib4c.Error.Live.{IsLive, pushed, pushed-IsLive}
use alib4c.Mem.{Block, resized}
use alib4c.Mem.Realloc.{cells_of, release, realloc_free_lem}
use alib4c.Pot.{Pot, double_loop, size_to_realloc, reallocated_pot, cells_asked, a_pot_resize}

-- An array that is there has a cell for each item, and the unused cell 0.
abbrev pub IsSized : ℕ → ℕ → Option Block → Type 0
IsSized num alloced none = (num ≡ 0) × (alloced ≡ 0)
IsSized num alloced (some b) = (length b ≡ alloced + 1) × (0 < alloced) × (num ≤ alloced)

-- the loop ended with `r`
pub record Doubled (n size new_size r : ℕ) : Type 0 where
  pub run : double_loop (suc n) size new_size ≡ some r
  pub grown : size ≤ r
  pub room : new_size ≤ r
  pub tight : (r ≡ size) ⊎ (r < 2 * new_size)

-- the test of the loop fails
double_loop-stop : (n size new_size : ℕ) → new_size ≤ size → Doubled n size new_size size
unfolding double_loop
double_loop-stop n size new_size done =
    let e : ltb size new_size ≡ false = ground arith in
    record { run = rw e; grown = omega arith; room = done; tight = inl refl }

-- or it holds
double_loop-go :
    (n size new_size r : ℕ)
    → size < new_size
    → new_size ≤ 2 ^ 63
    → Doubled n (size * 2) new_size r
    → Doubled (suc n) size new_size r
unfolding double_loop
double_loop-go n size new_size r l small d =
    let same : size * 2 % 2 ^ 64 ≡ size * 2 = omega arith in
    let t : ltb size new_size ≡ true = ground arith in
    record {
      run = rw (t, same) d.run;
      grown = omega (arith, d.grown);
      room = d.room;
      tight = elim d.tight [ inl e ↦ inr (omega (arith, e)) | inr e ↦ inr e ];
    }

double_loop-Doubled :
    (n size new_size : ℕ)
    → 0 < size
    → new_size ≤ 2 ^ 63
    → new_size ≤ size * 2 ^ n
    → (r : ℕ) × Doubled n size new_size r
double_loop-Doubled zero size new_size pos small enough =
    (size, double_loop-stop zero size new_size (omega arith))
double_loop-Doubled (suc n) size new_size pos small enough = elim (Bool-cases (ltb size new_size)) [
  | inr e ↦ (size, double_loop-stop (suc n) size new_size (ground arith))
  | inl e ↦
      let twice : 2 * 2 ^ n ≡ 2 ^ suc n = omega (arith, pow-suc 2 n) in
      let more : new_size ≤ size * 2 * 2 ^ n = rw (mul_assoc size 2 (2 ^ n), twice) enough in
      let (r, d) = double_loop-Doubled n (size * 2) new_size (omega arith) small more in
      (r, double_loop-go n size new_size r (ground arith) small d)
]

-- what a_pot_resize returned and left
pub record Resized (p : Pot) (new_size : ℕ) (w : World) (out : Bool × Pot) (v : World)
    : Type 0 where
  pub answer : out.0 ≡ ltb new_size p.alloced || head_or_false w.mallocs
  pub num : out.1.num ≡ p.num
  pub before : out.1.before ≡ p.before
  pub sized : out.0 ≡ true → IsSized out.1.num out.1.alloced out.1.array
  pub room : out.0 ≡ true → (new_size ≤ out.1.alloced) × (p.alloced ≤ out.1.alloced)
  pub tight : out.1.alloced ≤ p.alloced + 2 * new_size + 1
  pub cells :
      out.0 ≡ true
      → (i : ℕ) → get_or (cells_of out.1.array) i none ≡ get_or (cells_of p.array) i none
  pub failed : out.0 ≡ false → (out.1.array ≡ none) × (out.1.alloced ≡ 0)
  pub live : IsLive v.errors

abbrev start : ℕ → ℕ
start alloced = if alloced == 0 then 1 else alloced

num-le : (num alloced : ℕ) (o : Option Block) → IsSized num alloced o → num ≤ alloced
num-le num alloced none s = omega arith
num-le num alloced (some b) s = s.2

size_to_realloc-Doubled :
    (p : Pot) (new_size : ℕ)
    → IsSized p.num p.alloced p.array
    → p.alloced ≤ new_size
    → new_size ≤ 2 ^ 63
    → (r : ℕ) × (size_to_realloc p new_size ≡ some r) × Doubled 64 (start p.alloced) new_size r
unfolding size_to_realloc
size_to_realloc-Doubled p new_size s more small =
    let n : ltb new_size p.num ≡ false = ground (arith, num-le p.num p.alloced p.array s) in
    let (r, d) =
      double_loop-Doubled 64 (start p.alloced) new_size (ground arith) small (ground arith) in
    (r, rw n d.run, d)

start-le : (alloced r : ℕ) → start alloced ≤ r → (0 < r) × (alloced ≤ r)
start-le alloced r h = (ground arith, ground arith)

start-tight :
    (alloced new_size r : ℕ)
    → (r ≡ start alloced) ⊎ (r < 2 * new_size)
    → r ≤ alloced + 2 * new_size + 1
start-tight alloced new_size r h = ground arith

length-cells :
    (num alloced : ℕ) (o : Option Block) → IsSized num alloced o → length (cells_of o) ≤ alloced + 1
length-cells num alloced none s = omega arith
length-cells num alloced (some b) s = omega (arith, s.0)

get_or-resized :
    (n : ℕ) (b : Block) (i : ℕ) → length b ≤ n → get_or (resized n b) i none ≡ get_or b i none
unfolding resized
get_or-resized zero [] i h = refl
get_or-resized zero (c ∷ b) i h = absurd (omega arith)
get_or-resized (suc n) [] zero h = refl
get_or-resized (suc n) [] (suc i) h = get_or-resized n [] i (omega arith)
get_or-resized (suc n) (c ∷ b) zero h = refl
get_or-resized (suc n) (c ∷ b) (suc i) h = get_or-resized n b i (omega arith)

release-IsLive : (o : Option Block) (w : World) → IsLive w.errors → IsLive (release o w).errors
release-IsLive none w h = h
release-IsLive (some b) w h = h

cells_asked_lem : (r : ℕ) → r + 1 < 2 ^ 61 → cells_asked r ≡ r + 1
unfolding cells_asked
cells_asked_lem r h = omega (arith, h)

module _ (p : Pot) (new_size : ℕ) (w : World) (live : IsLive w.errors) (r : ℕ) where
  resize_needed :
      IsSized p.num p.alloced p.array
      → p.alloced ≤ new_size
      → size_to_realloc p new_size ≡ some r
      → Doubled 64 (start p.alloced) new_size r
      → r + 1 < 2 ^ 61
      → Returns (a_pot_resize p new_size w) (Resized p new_size w)
  unfolding a_pot_resize reallocated_pot
  resize_needed s more size d fits =
      let (run, n, _) = realloc_free_lem p.array (r + 1) w (omega arith) live in
      let t : ltb new_size p.alloced ≡ false = ground arith in
      elim (Bool-cases (head_or_false w.mallocs)) [
        | inl e ↦ (
          (true, record p { array = some (resized (r + 1) (cells_of p.array)); alloced = r }),
          (malloc w).1,
          rw (t, size, cells_asked_lem r fits, run, e),
          record {
            answer = rw (t, e);
            num = refl;
            before = refl;
            sized = λ _. (
              n,
              (start-le p.alloced r d.grown).0,
              omega (arith, num-le p.num p.alloced p.array s, (start-le p.alloced r d.grown).1),
            );
            room = λ _. (d.room, (start-le p.alloced r d.grown).1);
            tight = start-tight p.alloced new_size r d.tight;
            cells = λ _ i. get_or-resized (r + 1) (cells_of p.array) i (
                omega (
                  arith,
                  length-cells p.num p.alloced p.array s,
                  (start-le p.alloced r d.grown).1,
                ));
            failed = λ f. cc;
            live = live;
          },
        )
        | inr e ↦ (
          (false, record p { array = none; alloced = 0 }),
          release p.array (pushed perror w.errno (malloc w).1),
          rw (t, size, cells_asked_lem r fits, run, e),
          record {
            answer = rw (t, e);
            num = refl;
            before = refl;
            sized = λ f. cc;
            room = λ f. cc;
            tight = omega arith;
            cells = λ f. cc;
            failed = λ f. (refl, refl);
            live = release-IsLive p.array _ (pushed-IsLive perror w.errno (malloc w).1 live);
          },
        )
      ]

-- On a pot whose array has the size it should, and for sizes up to 2^59, a_pot_resize returns, and
-- fails only when it needs malloc and malloc fails. If it succeeds the array has room for `new_size`
-- items, no fewer than before and at most about twice as many as asked for, the old cells are as they
-- were and the new ones unwritten; if it fails there is no array left. The number of items is the same both ways.
pub a_pot_resize-Resized :
    (p : Pot) (new_size : ℕ) (w : World)
    → IsSized p.num p.alloced p.array
    → new_size ≤ 2 ^ 59
    → IsLive w.errors
    → Returns (a_pot_resize p new_size w) (Resized p new_size w)
unfolding a_pot_resize
a_pot_resize-Resized p new_size w s small live = elim (Bool-cases (ltb new_size p.alloced)) [
  | inl e ↦ (
    (true, p),
    w,
    rw e,
    record {
      answer = rw e;
      num = refl;
      before = refl;
      sized = λ _. s;
      room = λ _. (ground arith, omega arith);
      tight = omega arith;
      cells = λ _ i. refl;
      failed = λ f. cc;
      live = live;
    },
  )
  | inr e ↦
      let more : p.alloced ≤ new_size = ground arith in
      let (r, size, d) = size_to_realloc-Doubled p new_size s more (omega arith) in
      let fits : r + 1 < 2 ^ 61 = omega (arith, start-tight p.alloced new_size r d.tight) in
      resize_needed p new_size w live r s more size d fits
]

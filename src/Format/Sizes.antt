-- ===== src/Format/Sizes.antt =====
-- When the search for the size of a formatted string of a/util.c ends, and with what.
use alib4c.Common.{
  ℕ, zero, suc, ◌+◌, ◌*◌, ◌%◌, ◌^◌, ◌<◌, ◌≤◌, ◌≡◌, refl, ap, sym, true, false, Option, none, some,
  List, [], ◌∷◌, ◌==◌, ltb, length, arith, Bool-cases, inl, inr,
}
use alib4c.World.{World, ok, malloc, head_or_false}
use alib4c.Mem.{fresh, memcpy, c_string, a_malloc}
use alib4c.Util.Concat.{memcpy-fresh, length-c_string, length-fresh}
use alib4c.Format.{
  Vsnprintf, needed, a_vsprintf_try_len, find_loop, a_vsprintf_find_len, printed, print_to,
  a_vsprintf_malloc,
}

-- What ISO C says of vsnprintf: it returns the length of the text, whatever the size, and a size above
-- the length gets the whole text.
abbrev pub Counts : Vsnprintf → List ℕ → Type 0
Counts v text = (n : ℕ) → ((v n).0 ≡ some (length text)) × (length text < n → (v n).1 ≡ text)

-- What the older libraries do: a size that is not above the length is refused.
abbrev pub Refuses : Vsnprintf → List ℕ → Type 0
Refuses v text =
    (n : ℕ)
    → (n ≤ length text → (v n).0 ≡ none) × (length text < n → v n ≡ (some (length text), text))

try_refused : (v : Vsnprintf) (n : ℕ) → (v n).0 ≡ none → a_vsprintf_try_len v n ≡ 0
unfolding a_vsprintf_try_len
try_refused v n e = go (v n) e
  where
    go : (r : Option ℕ × List ℕ) → r.0 ≡ none → needed r ≡ 0
    go (none, t) e = refl
    go (some k, t) e = absurd (cc e)

find_loop-found :
    (fuel n : ℕ) (v : Vsnprintf) (text : List ℕ)
    → (v n).0 ≡ some (length text)
    → (v n).1 ≡ text
    → find_loop (suc fuel) v n ≡ some (length text + 1)
unfolding find_loop a_vsprintf_try_len
find_loop-found fuel n v text e h =
    let found : needed (v n) ≡ length text + 1 = go (v n) e h in
    let p : (length text + 1 == 0) ≡ false = ground arith in rw (found, p) refl
  where
    go :
        (r : Option ℕ × List ℕ) → r.0 ≡ some (length text) → r.1 ≡ text → needed r ≡ length text + 1
    go (none, t) e h = absurd (cc e)
    go (some k, t) e h = ap (λ u. length u + 1) h

find_loop-length :
    (fuel n : ℕ) (v : Vsnprintf) (text : List ℕ)
    → Refuses v text
    → 0 < n
    → length text < n + fuel
    → find_loop (suc fuel) v n ≡ some (length text + 1)
unfolding find_loop
find_loop-length zero n v text r p f =
    let whole = (r n).1 (omega (arith, f)) in
    find_loop-found zero n v text (ap (λ q. q.0) whole) (ap (λ q. q.1) whole)
find_loop-length (suc fuel) n v text r p f = elim (Bool-cases (ltb (length text) n)) [
  | inl e ↦
      let whole = (r n).1 (ground (arith, e)) in
      find_loop-found (suc fuel) n v text (ap (λ q. q.0) whole) (ap (λ q. q.1) whole)
  | inr e ↦
      rw (try_refused v n ((r n).0 (ground (arith, e))))
        (find_loop-length fuel (n * 2) v text r (omega (arith, p)) (omega (arith, p, f)))
]

-- Where vsnprintf refuses a size that is too small, the search ends, in at most one round more than
-- the text has bytes, with the size of the text and its terminator, if the format is not empty.
pub find_len-Refuses :
    (v : Vsnprintf) (text : List ℕ) (fmt_len : ℕ)
    → Refuses v text
    → 0 < fmt_len
    → a_vsprintf_find_len (suc (length text)) v fmt_len ≡ some (length text + 1)
unfolding a_vsprintf_find_len
find_len-Refuses v text fmt_len r p =
    rw ((r 0).0 (omega arith))
      (find_loop-length (length text) (fmt_len * 2) v text r (omega (arith, p)) (omega (arith, p)))

loop_fails : (fuel n : ℕ) (v : Vsnprintf) → ((m : ℕ) → (v m).0 ≡ none) → find_loop fuel v n ≡ none
unfolding find_loop
loop_fails zero n v h = refl
loop_fails (suc fuel) n v h = rw (try_refused v n (h n), loop_fails fuel (n * 2) v h) refl

-- Where vsnprintf fails whatever the size, the search never ends.
pub find_len-never :
    (fuel fmt_len : ℕ) (v : Vsnprintf)
    → ((m : ℕ) → (v m).0 ≡ none)
    → a_vsprintf_find_len fuel v fmt_len ≡ none
unfolding a_vsprintf_find_len
find_len-never fuel fmt_len v h = rw (h 0) (loop_fails fuel (fmt_len * 2) v h)

pub find_len-Counts :
    (fuel fmt_len : ℕ) (v : Vsnprintf) (text : List ℕ)
    → Counts v text
    → 0 < fmt_len
    → a_vsprintf_find_len (suc fuel) v fmt_len ≡ some (length text + 1)
unfolding a_vsprintf_find_len
find_len-Counts fuel fmt_len v [] c p = rw ((c 0).0) (
    find_loop-found fuel (fmt_len * 2) v [] ((c (fmt_len * 2)).0)
      ((c (fmt_len * 2)).1 (omega (arith, p))))
find_len-Counts fuel fmt_len v (b ∷ text) c p = rw ((c 0).0) refl

printed-whole :
    (r : Option ℕ × List ℕ) (n : ℕ) (text : List ℕ) (w : World)
    → r.0 ≡ some n
    → r.1 ≡ text
    → printed r (fresh (length text + 1)) w ≡ ok (some (c_string text)) w
printed-whole (none, t) n text w e h = absurd (cc e)
printed-whole (some k, t) n text w e h =
    let copy : memcpy (length text + 1) (c_string text) (fresh (length text + 1)) ≡ c_string text =
      rw (sym (length-c_string text)) (
        memcpy-fresh (c_string text) (fresh (length (c_string text)))
          (sym (length-fresh (length (c_string text))))) in
    rw (h, copy) refl

-- Where vsnprintf counts as ISO C has it, and the format is not empty, a_vsprintf_malloc with memory to
-- be had returns a block that has just the room for the text and its terminator and holds them, for a
-- text shorter than 2^32 - 1 bytes.
pub vsprintf_malloc-c_string :
    (fuel fmt_len : ℕ) (v : Vsnprintf) (text : List ℕ) (w : World)
    → Counts v text
    → 0 < fmt_len
    → length text + 1 < 2 ^ 32
    → head_or_false w.mallocs ≡ true
    → a_vsprintf_malloc (suc fuel) v fmt_len w ≡ some (ok (some (c_string text)) (malloc w).1)
unfolding a_vsprintf_malloc a_malloc
vsprintf_malloc-c_string fuel fmt_len v text w c p h e =
    let size : (length text + 1) % 2 ^ 32 ≡ length text + 1 = omega (arith, h) in
    let some_room : (length text + 1 == 0) ≡ false = ground arith in
    rw (find_len-Counts fuel fmt_len v text c p, size, print_to, some_room, e)
      (ap some (
        printed-whole (v ((length text + 1) % 2 ^ 32)) (length text) text (malloc w).1
          ((c ((length text + 1) % 2 ^ 32)).0)
          ((c ((length text + 1) % 2 ^ 32)).1 (omega (arith, size)))))

-- ===== src/Util/Barename.antt =====
-- What a_barename of a/util.c returns.
use alib4c.Common.{
  ℕ, suc, ◌+◌, ◌≡◌, refl, ap, sym, ◌∙◌, ◌⊎◌, inl, inr, true, false, Option, none, some, List, [],
  ◌∷◌, ◌++◌, ◌==◌, arith, length, set, drop, Lacks,
}
use mathlib.Core.List.{map}
use alib4c.World.{World, Returns, malloc, head_or_false, rest}
use native.Mathlib.Nat.{suc-add}
use alib4c.Error.Live.{IsLive}
use alib4c.Mem.Realloc.{realloc_free_lem}
use alib4c.Mem.{Block, fresh, resized, memcpy, c_string, a_malloc}
use alib4c.Util.{strrchr, a_basename, strip, a_barename}
use alib4c.Util.Basename.{LastIs, strrchr-LastIs}
use alib4c.Util.Concat.{memcpy-fresh, length-c_string, length-fresh}

abbrev dot : ℕ
dot = b'.'

-- The base up to its last dot, or the whole base when it has none.
abbrev pub IsStem : List ℕ → List ℕ → Type 0
IsStem base stem =
    ((extension : List ℕ) × (base ≡ stem ++ dot ∷ extension) × Lacks dot extension)
    ⊎ ((base ≡ stem) × Lacks dot base)

set-append : (a b : Block) (c v : Option ℕ) → set (a ++ c ∷ b) (length a) v ≡ a ++ v ∷ b
set-append [] b c v = refl
set-append (x ∷ a) b c v = ap (λ r. x ∷ r) (set-append a b c v)

resized-prefix : (a b : Block) (c : Option ℕ) → resized (length a + 1) (a ++ c ∷ b) ≡ a ++ c ∷ []
unfolding resized
resized-prefix [] b c = refl
resized-prefix (x ∷ a) b c = rw (suc-add (length a) 1) (ap (λ r. x ∷ r) (resized-prefix a b c))

length-map : (s : List ℕ) → length (map some s) ≡ length s
length-map [] = refl
length-map (c ∷ s) = ap suc (length-map s)

c_string-append :
    (a : List ℕ) (c : ℕ) (b : List ℕ) → c_string (a ++ c ∷ b) ≡ map some a ++ some c ∷ c_string b
c_string-append [] c b = refl
c_string-append (x ∷ a) c b = ap (λ r. some x ∷ r) (c_string-append a c b)

-- cutting a string at the place of its last dot
cut_string :
    (front ext : List ℕ) (k : ℕ)
    → length front ≡ k
    → resized (k + 1) (set (c_string (front ++ dot ∷ ext)) k (some 0)) ≡ c_string front
cut_string front ext k e =
    rw
      (
        c_string-append front dot ext,
        sym e ∙ sym (length-map front),
        set-append (map some front) (c_string ext) (some dot) (some 0),
      )
      (resized-prefix (map some front) (c_string ext) (some 0))

strip-IsStem :
    (base : List ℕ) (o : Option ℕ) (w : World)
    → LastIs base dot o
    → IsLive w.errors
    → head_or_false w.mallocs ≡ true
    → Returns (strip o (c_string base) w) (λ out v.
      (v.log ≡ w.log) × (stem : List ℕ) × (out ≡ some (c_string stem)) × IsStem base stem)
unfolding strip
strip-IsStem base none w h live e =
    (some (c_string base), w, refl, (refl, base, refl, inr (refl, h)))
strip-IsStem base (some k) w (d, h) live e =
    let cut : resized (k + 1) (set (c_string base) k (some 0)) ≡ c_string d.front =
      ap (λ s. resized (k + 1) (set (c_string s) k (some 0))) d.whole
      ∙ cut_string d.front (drop (suc k) base) k d.place in
    (
      some (c_string d.front),
      (malloc w).1,
      (realloc_free_lem (some (set (c_string base) k (some 0))) (k + 1) w (omega arith) live).0
          ∙ rw (e, cut) refl,
      (refl, d.front, refl, inl (drop (suc k) base, d.whole, h)),
    )

-- With memory to be had and a live error stack, a_barename returns the base of the path, as a_basename has it, up to its last
-- dot, or whole when it has none, as a string, and it gives no block back.
pub barename-IsStem :
    (path : List ℕ) (w : World)
    → IsLive w.errors
    → head_or_false w.mallocs ≡ true
    → head_or_false (rest w.mallocs) ≡ true
    → Returns (a_barename path w) (λ out v.
      (v.log ≡ w.log)
      × (stem : List ℕ) × (out ≡ some (c_string stem))
      × IsStem (a_basename path) stem)
unfolding a_barename a_malloc
barename-IsStem path w live one two =
    let base = a_basename path in
    let p : (length base + 1 == 0) ≡ false = ground arith in
    let copy : memcpy (length base + 1) (c_string base) (fresh (length base + 1)) ≡ c_string base =
      rw (sym (length-c_string base)) (
        memcpy-fresh (c_string base) (fresh (length (c_string base)))
          (sym (length-fresh (length (c_string base))))) in
    let (out, v, e, r) =
      strip-IsStem base (strrchr base dot) (malloc w).1 (strrchr-LastIs base dot) live two in
    (out, v, rw (p, one, copy) e, r)

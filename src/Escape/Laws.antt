-- ===== src/Escape/Laws.antt =====
-- What an escaped string reads as, and where clip_at_colon does not end.
use alib4c.Common.{
  ℕ, zero, suc, ◌+◌, ◌*◌, ◌%◌, ◌^◌, ◌<◌, ◌≤◌, ltb, if◌then◌else◌, Bool-cases, inl, inr, ◌≡◌, ◌≢◌,
  refl, ap, ◌∙◌, true, false, none, some, List, [], ◌∷◌, ◌++◌, ◌==◌, arith, length, take, drop,
  byte_at, Lacks,
}
use alib4c.World.{World, Returns, malloc, head_or_false, rest}
use alib4c.Escape.{
  colon, backslash, escaped, escape_colon, room, unescape_colon, find_colon, clip_loop,
  clip_at_colon, clipped,
}

unescape-Lacks : (s : List ℕ) → Lacks backslash s → unescape_colon s ≡ s
unfolding unescape_colon
unescape-Lacks [] h = refl
unescape-Lacks (c ∷ s) h = ground (arith, unescape-Lacks s)

unescape-escaped : (s : List ℕ) → unescape_colon (escaped s) ≡ unescape_colon s
unfolding unescape_colon escaped
unescape-escaped [] = refl
unescape-escaped (c ∷ s) = ground (arith, unescape-escaped s)

length-escaped : (s : List ℕ) → length (escaped s) ≤ 2 * length s
unfolding escaped
length-escaped [] = omega arith
length-escaped (c ∷ s) = ground (arith, length-escaped s)

-- Every colon stands right behind a backslash; `b` is the byte before the string.
abbrev pub Guarded : ℕ → List ℕ → Type 0
Guarded b [] = Unit
Guarded b (c ∷ s) = (c ≡ colon → b ≡ backslash) × Guarded c s

-- the number of the colons
abbrev pub colons : List ℕ → ℕ
colons [] = 0
colons (c ∷ s) = (if c == colon then 1 else 0) + colons s

escaped-Guarded : (b : ℕ) (s : List ℕ) → Guarded b (escaped s)
unfolding escaped
escaped-Guarded b [] = tt
escaped-Guarded b (c ∷ s) = elim (Bool-cases (c == colon)) [
  | inl e ↦ rw e ((λ h. absurd (ground (arith, h))), ((λ h. refl), escaped-Guarded c s))
  | inr e ↦ rw e ((λ h. absurd (ground (arith, h, e))), escaped-Guarded c s)
]

length-escaped-colons : (s : List ℕ) → length (escaped s) ≡ length s + colons s
unfolding escaped
length-escaped-colons [] = refl
length-escaped-colons (c ∷ s) = ground (arith, length-escaped-colons s)

take_all : (s : List ℕ) → take (length s) s ≡ s
take_all [] = refl
take_all (c ∷ s) = ap (λ t. c ∷ t) (take_all s)

-- Where malloc answers twice, and the string is shorter than 2^63 bytes, escape_colon writes inside of the
-- room that it asked for, and returns a string that is longer by one byte for each colon of the old one,
-- and in which every colon stands right behind a backslash; unescape_colon of it is the string as it was,
-- if that holds no backslash.
pub unescape-escape :
    (s : List ℕ) (w : World)
    → Lacks backslash s
    → length s < 2 ^ 63
    → head_or_false w.mallocs ≡ true
    → head_or_false (rest w.mallocs) ≡ true
    → Returns
        (escape_colon s w)
        λ t v. (length t ≡ length s + colons s) × Guarded 0 t × (unescape_colon t ≡ s)
unfolding escape_colon room
unescape-escape s w h small one two =
    let inside : ltb ((length s * 2 + 1) % 2 ^ 64) (length (escaped s) + 1) ≡ false =
      ground (arith, length-escaped s) in
    (
      escaped s,
      (malloc (malloc w).1).1,
      rw (one, inside, two, take_all (escaped s)) refl,
      (length-escaped-colons s, escaped-Guarded 0 s, unescape-escaped s ∙ unescape-Lacks s h),
    )

find_colon-behind :
    (s : List ℕ) (b : ℕ) (t : List ℕ)
    → Lacks colon s
    → b ≢ colon
    → find_colon (s ++ b ∷ colon ∷ t) ≡ some (suc (length s))
unfolding find_colon
find_colon-behind [] b t h p = (let n : (b == colon) ≡ false = ground arith in rw n refl)
find_colon-behind (c ∷ s) b t h p =
    let n : (c == colon) ≡ false = ground arith in rw (n, find_colon-behind s b t h.1 p) refl

take-behind : (s : List ℕ) (b : ℕ) (t : List ℕ) → take (suc (length s)) (s ++ b ∷ t) ≡ s ++ b ∷ []
take-behind [] b t = refl
take-behind (c ∷ s) b t = ap (λ l. c ∷ l) (take-behind s b t)

drop-behind : (s : List ℕ) (b c : ℕ) (t : List ℕ) → drop (suc (suc (length s))) (s ++ b ∷ c ∷ t) ≡ t
drop-behind [] b c t = refl
drop-behind (d ∷ s) b c t = drop-behind s b c t

unescape-cut : (s : List ℕ) → unescape_colon (s ++ backslash ∷ []) ≡ unescape_colon s
unfolding unescape_colon
unescape-cut [] = refl
unescape-cut (c ∷ s) = ground (arith, unescape-cut s)

byte_at-append : (s : List ℕ) (c : ℕ) (t : List ℕ) → byte_at (s ++ c ∷ t) (length s) ≡ c
byte_at-append [] c t = refl
byte_at-append (b ∷ s) c t = byte_at-append s c t

clip_loop-loops :
    (s : List ℕ) (c : ℕ) (t : List ℕ) (n : ℕ)
    → Lacks colon s
    → c ≢ colon
    → c ≢ backslash
    → clip_loop n (s ++ c ∷ colon ∷ t) ≡ none
unfolding clip_loop
clip_loop-loops s c t zero h p q = refl
clip_loop-loops s c t (suc n) h p q =
    let plain : (c == backslash) ≡ false = ground arith in
    rw (find_colon-behind s c t h p, byte_at-append s c (colon ∷ t), plain)
      (clip_loop-loops s c t n h p q)

-- On a string whose first colon follows a byte other than a backslash, clip_at_colon looks at the
-- same colon for ever: no number of rounds is enough.
pub clip-loops :
    (s : List ℕ) (c : ℕ) (t : List ℕ) (n : ℕ)
    → Lacks colon s
    → c ≢ colon
    → c ≢ backslash
    → clip_at_colon n (s ++ c ∷ colon ∷ t) ≡ none
unfolding clip_at_colon
clip-loops s c t n h p q = rw (clip_loop-loops s c t n h p q, clip_at_colon) refl

clip_loop-ends :
    (s t : List ℕ) (n : ℕ)
    → Lacks colon s
    → clip_loop (suc n) (s ++ backslash ∷ colon ∷ t) ≡ some (some (suc (length s)))
unfolding clip_loop
clip_loop-ends s t n h =
    rw (find_colon-behind s backslash t h (omega arith), byte_at-append s backslash (colon ∷ t))
      refl

clipped-escaped :
    (s t : List ℕ)
    → clipped (s ++ backslash ∷ colon ∷ t) (some (suc (length s))) ≡ (unescape_colon s, some t)
unfolding clipped
clipped-escaped s t =
    rw (take-behind s backslash (colon ∷ t), drop-behind s backslash colon t, unescape-cut s) refl

-- Where the first colon of a string follows a backslash, clip_at_colon cuts the string at that very
-- colon: it returns what is behind it, and unescapes what is before.
pub clip-escaped :
    (s t : List ℕ) (n : ℕ)
    → Lacks colon s
    → clip_at_colon (suc n) (s ++ backslash ∷ colon ∷ t) ≡ some (unescape_colon s, some t)
unfolding clip_at_colon
clip-escaped s t n h = rw (clip_loop-ends s t n h, clip_at_colon) (ap some (clipped-escaped s t))

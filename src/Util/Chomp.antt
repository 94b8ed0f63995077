-- ===== src/Util/Chomp.antt =====
-- What a_chomp and a_strchomp of a/util.c take off the end of a string.
use alib4c.Common.{
  ℕ, zero, suc, ◌≡◌, refl, ap, ◌∙◌, ◌⊎◌, inl, inr, none, some, List, [], ◌∷◌, ◌++◌, ◌==◌, ◌||◌,
  arith, Bool-cases, true, false, length, take, byte_at,
}
use mathlib.Core.List.{append_assoc}
use alib4c.Util.{is_space, chomp_loop, a_chomp, a_strchomp}

abbrev Spaces : List ℕ → Type 0
Spaces [] = Unit
Spaces (c ∷ s) = (is_space c ≡ true) × Spaces s

-- the last byte of a string, when it has one, is not a space
abbrev EndsInText : List ℕ → Type 0
EndsInText s =
    (s ≡ []) ⊎ ((front : List ℕ) × (c : ℕ) × (s ≡ front ++ c ∷ []) × (is_space c ≡ false))

-- `r` is `s` without the spaces at its end.
abbrev pub Chomped : List ℕ → List ℕ → Type 0
Chomped s r = (tail : List ℕ) × (s ≡ r ++ tail) × Spaces tail × EndsInText r

take-last : (s : List ℕ) (k : ℕ) → length s ≡ suc k → s ≡ take k s ++ byte_at s k ∷ []
take-last [] k h = absurd (omega (arith, h))
take-last (b ∷ []) zero h = refl
take-last (b ∷ c ∷ s) zero h = absurd (omega (arith, h))
take-last (b ∷ s) (suc k) h = ap (λ t. b ∷ t) (take-last s k (omega (arith, h)))

length-take : (s : List ℕ) (k : ℕ) → length s ≡ suc k → length (take k s) ≡ k
length-take [] k h = absurd (omega (arith, h))
length-take (b ∷ s) zero h = refl
length-take (b ∷ s) (suc k) h = ap suc (length-take s k (omega (arith, h)))

Spaces-append : (s : List ℕ) (c : ℕ) → Spaces s → is_space c ≡ true → Spaces (s ++ c ∷ [])
Spaces-append [] c h e = (e, tt)
Spaces-append (b ∷ s) c (h, g) e = (h, Spaces-append s c g e)

append-nil : (s : List ℕ) → s ≡ s ++ []
append-nil [] = refl
append-nil (b ∷ s) = ap (λ t. b ∷ t) (append-nil s)

-- one more space at the end of a string
longer : (s t r : List ℕ) (c : ℕ) → s ≡ t ++ c ∷ [] → is_space c ≡ true → Chomped t r → Chomped s r
longer s t r c e h (tail, f, g, d) = (
  tail ++ c ∷ [],
  e ∙ ap (λ u. u ++ c ∷ []) f ∙ append_assoc r tail (c ∷ []),
  Spaces-append tail c g h,
  d,
)

chomp_loop-Chomped : (k : ℕ) (s : List ℕ) → length s ≡ k → Chomped s (chomp_loop k s)
unfolding chomp_loop
chomp_loop-Chomped zero [] h = ([], refl, tt, inl refl)
chomp_loop-Chomped zero (b ∷ s) h = absurd (omega (arith, h))
chomp_loop-Chomped (suc k) s h = elim (Bool-cases (is_space (byte_at s k))) [
  | inl e ↦ rw e (
      longer s (take k s) (chomp_loop k (take k s)) (byte_at s k) (take-last s k h) e
        (chomp_loop-Chomped k (take k s) (length-take s k h)))
  | inr e ↦ rw e ([], append-nil s, tt, inr (take k s, byte_at s k, take-last s k h, e))
]

-- a_chomp takes off the spaces at the end of a string, all of them and nothing else.
pub a_chomp-Chomped : (s : List ℕ) → Chomped s (a_chomp s)
unfolding a_chomp
a_chomp-Chomped s = chomp_loop-Chomped (length s) s refl

-- On the empty string a_strchomp reads the byte before it. From any other string it takes at most one
-- byte, the last, and that byte is a space.
pub strchomp_cuts_one :
    (a_strchomp [] ≡ none)
    × ((b : ℕ) (s : List ℕ)
        → (a_strchomp (b ∷ s) ≡ some (b ∷ s))
          ⊎ ((r : List ℕ) × (c : ℕ) × (a_strchomp (b ∷ s) ≡ some r)
              × (b ∷ s ≡ r ++ c ∷ [])
              × (is_space c ≡ true)))
unfolding a_strchomp
strchomp_cuts_one = (
  refl,
  λ b s.
      elim (Bool-cases (
        let last = byte_at (b ∷ s) (length s) in
        (last == b'\n') || (last == b' ') || (last == b'\t'))) [
          | inl e ↦ inr (
            take (length s) (b ∷ s),
            byte_at (b ∷ s) (length s),
            rw e refl,
            take-last (b ∷ s) (length s) refl,
            ground (arith, e),
          )
          | inr e ↦ inl (rw e refl)
        ],
)

-- ===== src/Util/Basename.antt =====
-- What a_basename of a/util.c cuts off.
use alib4c.Common.{
  ℕ, suc, ◌≡◌, refl, ap, ◌⊎◌, inl, inr, Option, none, some, List, [], ◌∷◌, ◌++◌, ◌==◌,
  if◌then◌else◌, arith, Bool-cases, true, false, length, drop, Lacks,
}
use mathlib.Core.Option
use alib4c.Util.{strchr, strrchr, or_ptr, behind, a_basename}

-- Where a search for a byte ends: the string in front of it, and behind it.
pub record Cut (s : List ℕ) (c k : ℕ) : Type 0 where
  pub front : List ℕ
  pub whole : s ≡ front ++ c ∷ drop (suc k) s
  pub place : length front ≡ k

pub Option-cases {ℓ} : {A : Type ℓ} (o : Option A) → (o ≡ none) ⊎ ((a : A) × (o ≡ some a))
Option-cases none = inl refl
Option-cases (some a) = inr (a, refl)

abbrev pub LastIs : List ℕ → ℕ → Option ℕ → Type 0
LastIs s c none = Lacks c s
LastIs s c (some k) = Cut s c k × Lacks c (drop (suc k) s)

abbrev FirstIs : List ℕ → ℕ → Option ℕ → Type 0
FirstIs s c none = Lacks c s
FirstIs s c (some k) = (d : Cut s c k) × Lacks c d.front

deeper : (b c k : ℕ) (s : List ℕ) → Cut s c k → Cut (b ∷ s) c (suc k)
deeper b c k s d = record {
  front = b ∷ d.front;
  whole = ap (λ t. b ∷ t) d.whole;
  place = ap suc d.place;
}

pub strrchr-LastIs : (s : List ℕ) (c : ℕ) → LastIs s c (strrchr s c)
unfolding strrchr
strrchr-LastIs [] c = tt
strrchr-LastIs (b ∷ s) c = go (strrchr s c) (strrchr-LastIs s c) (Bool-cases (b == c))
  where
    go :
        (o : Option ℕ)
        → LastIs s c o
        → ((b == c) ≡ true) ⊎ ((b == c) ≡ false)
        → LastIs
            (b ∷ s)
            c
            (elim o [ some k ↦ some (suc k) | none ↦ if b == c then some 0 else none ])
    go (some k) h d = (deeper b c k s h.0, h.1)
    go none h (inl e) =
        let s' : b ≡ c = ground arith in
        rw e (record { front = []; whole = rw s' refl; place = refl }, h)
    go none h (inr e) = rw e (ground arith, h)

pub strchr-FirstIs : (s : List ℕ) (c : ℕ) → FirstIs s c (strchr s c)
unfolding strchr deeper
strchr-FirstIs [] c = tt
strchr-FirstIs (b ∷ s) c = go (strchr s c) (strchr-FirstIs s c) (Bool-cases (b == c))
  where
    go :
        (o : Option ℕ)
        → FirstIs s c o
        → ((b == c) ≡ true) ⊎ ((b == c) ≡ false)
        → FirstIs (b ∷ s) c (if b == c then some 0 else Option.map suc o)
    go o h (inl e) =
        let s' : b ≡ c = ground arith in
        rw e (record { front = []; whole = rw s' refl; place = refl }, tt)
    go none h (inr e) = rw e (ground arith, h)
    go (some k) h (inr e) = rw e (deeper b c k s h.0, (ground arith, h.1))

abbrev pub slash : ℕ
slash = b'/'

abbrev pub backslash : ℕ
backslash = b'\\'

abbrev pub colon : ℕ
colon = b':'

-- The part behind the last slash; with no slash, that behind the last backslash; with neither, that
-- behind the first colon; with none of them, the whole path.
abbrev pub IsBase : List ℕ → List ℕ → Type 0
IsBase path base =
    ((front : List ℕ) × (path ≡ front ++ slash ∷ base) × Lacks slash base)
    ⊎ (Lacks slash path
        × (front : List ℕ) × (path ≡ front ++ backslash ∷ base)
        × Lacks backslash base)
    ⊎ (Lacks slash path
        × Lacks backslash path
        × (front : List ℕ) × (path ≡ front ++ colon ∷ base)
        × Lacks colon front)
    ⊎ (Lacks slash path × Lacks backslash path × Lacks colon path × (base ≡ path))

-- a_basename returns the part of a path that `IsBase` describes, for every path.
pub a_basename-IsBase : (path : List ℕ) → IsBase path (a_basename path)
unfolding a_basename
a_basename-IsBase path =
    go (strrchr path slash) (strrchr path backslash) (strchr path colon) (strrchr-LastIs path slash)
      (strrchr-LastIs path backslash) (strchr-FirstIs path colon)
  where
    go :
        (a b c : Option ℕ)
        → LastIs path slash a
        → LastIs path backslash b
        → FirstIs path colon c
        → IsBase path (drop (behind (or_ptr (or_ptr a b) c)) path)
    go (some k) b c (d, h) p q = inl (d.front, d.whole, h)
    go none (some k) c h (d, g) q = inr (inl (h, d.front, d.whole, g))
    go none none (some k) h g (d, f) = inr (inr (inl (h, g, d.front, d.whole, f)))
    go none none none h g f = inr (inr (inr (h, g, f, refl)))

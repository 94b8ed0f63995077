-- ===== src/Cache/Paths.antt =====
-- The paths of the cache files of old/byte_path_store.c, and what get_cache_file_16 does with them.
use alib4c.Common.{
  ℕ, zero, suc, ◌+◌, ◌*◌, ◌/◌, ◌%◌, ◌<◌, ◌≡◌, ◌≢◌, ◌⊎◌, refl, ap, sym, ◌∙◌, ℤ, negsuc, Bool, true,
  false, Option, none, some, List, [], ◌∷◌, ◌++◌, if◌then◌else◌, length, length-append, ◌^◌, arith,
  Bool-cases, inl, inr,
}
use alib4c.Cache.{
  Files, directory, Stat, missing, regular, special, Outcome, made, failed, overrun, enoent, slash,
  creates, hex_upper, usable_dir, mkdir_p, cache_dir, open_in, get_cache_file_16,
}
use alib4c.Cache.Directories.{Clear, MakesDirs, mkdir_p-Makes}

hex_upper-injective : (m n : ℕ) → m < 16 → n < 16 → hex_upper m ≡ hex_upper n → m ≡ n
hex_upper-injective m n p q e = ground arith

append-cancel : (a b c : List ℕ) → a ++ b ≡ a ++ c → b ≡ c
append-cancel [] b c e = e
append-cancel (x ∷ a) b c e = append-cancel a b c (ap tail_of e)
  where
    tail_of : List ℕ → List ℕ
    tail_of [] = []
    tail_of (x ∷ s) = s

digits :
    (n : ℕ)
    → n < 65536
    → n ≡ 4096 * (n / 4096 % 16) + 256 * (n / 256 % 16) + 16 * (n / 16 % 16) + n % 16
digits n h = omega arith

nth : ℕ → List ℕ → ℕ
nth n [] = 0
nth zero (c ∷ s) = c
nth (suc n) (c ∷ s) = nth n s

-- Two ids below 2^16 that share a directory under the same base are equal.
pub cache_dir-injective :
    (base : List ℕ) (m n : ℕ)
    → m < 2 ^ 16
    → n < 2 ^ 16
    → cache_dir base m ≡ cache_dir base n
    → m ≡ n
unfolding cache_dir nth
cache_dir-injective base m n p q e =
    let same = append-cancel base (cache_dir [] m) (cache_dir [] n) e in
    let a =
      hex_upper-injective (m / 4096 % 16) (n / 4096 % 16) (omega arith) (omega arith)
        (ap (nth 1) same) in
    let b =
      hex_upper-injective (m / 256 % 16) (n / 256 % 16) (omega arith) (omega arith)
        (ap (nth 2) same) in
    let c =
      hex_upper-injective (m / 16 % 16) (n / 16 % 16) (omega arith) (omega arith)
        (ap (nth 4) same) in
    let d = hex_upper-injective (m % 16) (n % 16) (omega arith) (omega arith) (ap (nth 5) same) in
    omega (arith, p, q, a, b, c, d)

-- The path of a cache file and its terminator fill the space that get_cache_file_16 takes for it,
-- `base_len + strlen(file) + 7 + 1` bytes, to the last byte.
pub cache_dir-length :
    (base file : List ℕ) (id : ℕ)
    → length (cache_dir base id ++ slash ∷ file) + 1 ≡ length base + length file + 7 + 1
unfolding cache_dir
cache_dir-length base file id =
    omega (
      arith,
      length-append (cache_dir base id) (slash ∷ file),
      length-append base (cache_dir [] id),
    )

final : List ℕ → ℕ
final [] = 0
final (c ∷ []) = c
final (c ∷ d ∷ s) = final (d ∷ s)

final-append : (a : List ℕ) (c : ℕ) (b : List ℕ) → final (a ++ c ∷ b) ≡ final (c ∷ b)
unfolding final
final-append [] c b = refl
final-append (x ∷ []) c b = refl
final-append (x ∷ y ∷ a) c b = final-append (y ∷ a) c b

-- what follows the first slash of the directory behind the base
abbrev cache_dir_tail : ℕ → List ℕ
cache_dir_tail id =
    hex_upper (id / 4096 % 16)
    ∷ hex_upper (id / 256 % 16)
    ∷ slash
    ∷ hex_upper (id / 16 % 16)
    ∷ hex_upper (id % 16)
    ∷ []

hex_not_slash : (n : ℕ) → n < 16 → hex_upper n ≢ slash
hex_not_slash n h e = ground arith

dir_open : (base : List ℕ) (id : ℕ) (a : List ℕ) → cache_dir base id ≢ a ++ slash ∷ []
unfolding cache_dir final
dir_open base id a e =
    let same : final (cache_dir base id) ≡ slash = rw e (final-append a slash []) in
    hex_not_slash (id % 16) (omega arith) (sym (final-append base slash (cache_dir_tail id)) ∙ same)

module _ {F : Type 0} (fs : Files F) where
  usable_dir-directory : (p : List ℕ) (s : F) → usable_dir fs p s ≡ true → fs.stat p s ≡ directory
  unfolding usable_dir
  usable_dir-directory p s = go (fs.stat p s)
    where
      go :
          (r : Stat)
          → elim r [
            | missing e ↦ false
            | directory ↦ fs.access_x p s
            | regular ↦ false
            | special ↦ false
          ]
            ≡ true
          → r ≡ directory
      go directory e = refl
      go (missing n) e = absurd (cc e)
      go regular e = absurd (cc e)
      go special e = absurd (cc e)

  abbrev unwrap : Option ℤ × F → ℤ × F
  unwrap (none, t) = (negsuc 0, t)
  unwrap (some fd, t) = (fd, t)

  abbrev given : Option ℤ → Bool
  given none = false
  given (some fd) = true

  -- The directory of the id, made where the flags ask for it.
  abbrev prepared : List ℕ → ℕ → F → Outcome × F
  prepared dir flags s =
      if usable_dir fs dir s
      then (made, s)
      else (if creates flags then mkdir_p fs (some dir) s else (failed enoent, s))

  prepared-directory :
      (base : List ℕ) (id flags : ℕ) (s : F)
      → MakesDirs fs
      → Clear fs (cache_dir base id) s
      → (prepared (cache_dir base id) flags s).0 ≡ made
      → fs.stat (cache_dir base id) (prepared (cache_dir base id) flags s).1 ≡ directory
  prepared-directory base id flags s laws clear =
      elim (Bool-cases (usable_dir fs (cache_dir base id) s)) [
        | inl c ↦ rw c (λ e. usable_dir-directory (cache_dir base id) s c)
        | inr c ↦ elim (Bool-cases (creates flags)) [
          | inl d ↦
              rw (c, d)
                (λ e.
                  let r = mkdir_p fs (some (cache_dir base id)) s in
                  let (keeps, (fronts, whole)) =
                    mkdir_p-Makes fs (cache_dir base id) s r.1 laws clear (ap (λ o. (o, r.1)) e) in
                  whole (dir_open base id))
          | inr d ↦ rw (c, d) (λ e. absurd (cc e))
        ]
      ]

  -- Where mkdir makes directories, removes none and makes no front of a path unsearchable, and where stat at
  -- the start fails for the fronts of the directory of the id with ENOENT alone, a call that returns has
  -- returned -1, or what open gave for the file in the directory of the id, at
  -- a time when that directory was there.
  pub cache_file-opened :
      (base file : List ℕ) (id flags : ℕ) (s u : F) (fd : ℤ)
      → MakesDirs fs
      → Clear fs (cache_dir base id) s
      → get_cache_file_16 fs base id file flags s ≡ (some fd, u)
      → (fd ≡ negsuc 0)
        ⊎ ((t : F) × (fs.stat (cache_dir base id) t ≡ directory)
            × (fs.open_file (cache_dir base id ++ slash ∷ file) flags t ≡ (fd, u)))
  unfolding get_cache_file_16
  cache_file-opened base file id flags s u fd laws clear e =
      go (prepared (cache_dir base id) flags s) (prepared-directory base id flags s laws clear) e
    where
      go :
          (o : Outcome × F)
          → (o.0 ≡ made → fs.stat (cache_dir base id) o.1 ≡ directory)
          → open_in fs (cache_dir base id) file flags o ≡ (some fd, u)
          → (fd ≡ negsuc 0)
            ⊎ ((t : F) × (fs.stat (cache_dir base id) t ≡ directory)
                × (fs.open_file (cache_dir base id ++ slash ∷ file) flags t ≡ (fd, u)))
      go (made, t) d e = inr (t, d refl, ap unwrap e)
      go (failed n, t) d e = inl (sym (ap (λ r. (unwrap r).0) e))
      go (overrun, t) d e = absurd (cc (ap (λ r. given r.0) e))

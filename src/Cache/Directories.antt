-- ===== src/Cache/Directories.antt =====
-- What mkdir_p of old/byte_path_store.c makes, and on which paths it fails.
use alib4c.Common.{
  ℕ, suc, ◌≡◌, ◌≢◌, refl, ap, sym, false, Option, none, some, List, [], ◌∷◌, ◌++◌, ◌==◌, length,
  arith, Bool-cases, inl, inr,
}
use mathlib.Core.List.{append-nil, append_assoc}
use alib4c.Cache.{
  Files, Stat, missing, directory, regular, special, Outcome, made, failed, overrun, enoent, slash,
  after_mkdir, check_dir, next_dir, unless_end, mkdir_p_loop, mkdir_p,
}

-- Where stat fails for the front of a path, it is with ENOENT: what is there of the path are directories
-- that may be searched.
abbrev pub Clear : {F : Type 0} → Files F → List ℕ → F → Type 0
Clear fs path s = (p q : List ℕ) → path ≡ p ++ q → (e : ℕ) → fs.stat p s ≡ missing e → e ≡ enoent

-- What mkdir_p relies on: a mkdir that succeeds makes a directory, none removes one, and none makes stat
-- fail for the front of a path with an error other than ENOENT where it did not before.
pub record MakesDirs {F : Type 0} (fs : Files F) : Type 0 where
  pub makes :
      (p : List ℕ) (s : F) → (fs.mkdir p s).0 ≡ none → fs.stat p (fs.mkdir p s).1 ≡ directory
  pub keeps :
      (p q : List ℕ) (s : F) → fs.stat q s ≡ directory → fs.stat q (fs.mkdir p s).1 ≡ directory
  pub stays : (path p : List ℕ) (s : F) → Clear fs path s → Clear fs path (fs.mkdir p s).1

abbrev head_of : List ℕ → ℕ
head_of [] = 0
head_of (c ∷ s) = c

abbrev tail_of : List ℕ → List ℕ
tail_of [] = []
tail_of (c ∷ s) = s

nil-append : (a b : List ℕ) (c : ℕ) → [] ≢ a ++ c ∷ b
nil-append [] b c e = absurd (ground (arith, ap length e))
nil-append (x ∷ a) b c e = absurd (ground (arith, ap length e))

module _ {F : Type 0} (fs : Files F) where
  abbrev pub IsDir : List ℕ → F → Type 0
  IsDir p s = fs.stat p s ≡ directory

  -- directories stay directories, and clear paths clear
  abbrev pub Keeps : F → F → Type 0
  Keeps s t =
      ((q : List ℕ) → IsDir q s → IsDir q t) × ((path : List ℕ) → Clear fs path s → Clear fs path t)

  Keeps-refl : (s : F) → Keeps s s
  Keeps-refl s = ((λ q d. d), (λ path c. c))

  -- the end of a run that makes directories
  abbrev Makes : F → (F → Type 0) → Outcome × F → Type 0
  Makes s P (made, t) = Keeps s t × P t
  Makes s P (failed e, t) = Unit
  Makes s P (overrun, t) = Unit

  mkdir-Makes :
      (p : List ℕ) (s : F) → MakesDirs fs → Makes s (IsDir p) (after_mkdir fs (fs.mkdir p s))
  mkdir-Makes p s laws =
      go (fs.mkdir p s) (laws.makes p s) ((λ q. laws.keeps p q s), (λ path. laws.stays path p s))
    where
      go :
          (r : Option ℕ × F)
          → (r.0 ≡ none → IsDir p r.1)
          → Keeps s r.1
          → Makes s (IsDir p) (after_mkdir fs r)
      go (none, t) m k = (k, m refl)
      go (some e, t) m k = tt

  module _ (s : F) (P : F → Type 0) where
    Makes-of : (r r' : Outcome × F) → r ≡ r' → Makes s P r' → Makes s P r
    Makes-of r r' e h = rw e h

    Makes-from :
        (t : F) (Q : F → Type 0) (r : Outcome × F)
        → Keeps s t
        → ((u : F) → Keeps t u → Q u → P u)
        → Makes t Q r
        → Makes s P r
    Makes-from t Q (made, u) k f (h, g) =
        (((λ q d. h.0 q (k.0 q d)), (λ path c. h.1 path (k.1 path c))), f u h g)
    Makes-from t Q (failed e, u) k f h = tt
    Makes-from t Q (overrun, u) k f h = tt

    Makes-next :
        (Q : F → Type 0) (r : Outcome × F) (rest : F → Outcome × F)
        → Makes s Q r
        → ((t : F) → Keeps s t → Q t → Makes s P (rest t))
        → Makes s P (next_dir fs rest r)
    Makes-next Q (made, t) rest (k, g) f = f t k g
    Makes-next Q (failed e, t) rest h f = tt
    Makes-next Q (overrun, t) rest h f = tt

  check_dir-Makes :
      (p : List ℕ) (s : F)
      → MakesDirs fs
      → ((e : ℕ) → fs.stat p s ≡ missing e → e ≡ enoent)
      → Makes s (IsDir p) (check_dir fs p s)
  unfolding check_dir
  check_dir-Makes p s laws clear = go (fs.stat p s) refl
    where
      missing_run :
          (e : ℕ) → fs.stat p s ≡ missing e → check_dir fs p s ≡ after_mkdir fs (fs.mkdir p s)
      missing_run e h = rw (check_dir, h, clear e h) refl

      go : (r : Stat) → fs.stat p s ≡ r → Makes s (IsDir p) (check_dir fs p s)
      go (missing e) h =
          Makes-of s (IsDir p) (check_dir fs p s) (after_mkdir fs (fs.mkdir p s)) (missing_run e h)
            (mkdir-Makes p s laws)
      go directory h =
          Makes-of s (IsDir p) (check_dir fs p s) (made, s) (rw (check_dir, h) refl)
            (Keeps-refl s, h)
      go regular h = rw (Makes, h) tt
      go special h = rw (Makes, h) tt

  -- `p` stands for each directory that a walk over `left` behind `front` checks.
  abbrev pub Checked : (List ℕ → Type 0) → List ℕ → List ℕ → Type 0
  Checked P front left =
      ((a b : List ℕ) → left ≡ a ++ slash ∷ b → P (front ++ a))
      × (((a : List ℕ) → left ≢ a ++ slash ∷ []) → P (front ++ left))

  Checked-last : (P : List ℕ → Type 0) (front : List ℕ) → P front → Checked P front []
  Checked-last P front d =
      ((λ a b e. absurd (nil-append a b slash e)), (λ n. rw (append-nil front) d))

  -- one more byte in front of the walk
  Checked-more :
      (P : List ℕ → Type 0) (front left : List ℕ) (c : ℕ)
      → (c ≡ slash → P front)
      → Checked P (front ++ c ∷ []) left
      → Checked P front (c ∷ left)
  Checked-more P front left c d (h, g) = (
    before,
    (λ n. rw (sym (append_assoc front (c ∷ []) left)) (g (λ a e. n (c ∷ a) (ap (λ l. c ∷ l) e)))),
  )
    where
      before : (a b : List ℕ) → c ∷ left ≡ a ++ slash ∷ b → P (front ++ a)
      before [] b e = rw (append-nil front) (d (ap head_of e))
      before (x ∷ a) b e =
          rw (sym (ap head_of e), sym (append_assoc front (c ∷ []) a)) (h a b (ap tail_of e))

  Checked-end :
      (P : List ℕ → Type 0) (front : List ℕ) (c : ℕ)
      → c ≡ slash
      → P front
      → Checked P front (c ∷ [])
  Checked-end P front c e d = (before, (λ n. absurd (n [] (ap (λ x. x ∷ []) e))))
    where
      before : (a b : List ℕ) → c ∷ [] ≡ a ++ slash ∷ b → P (front ++ a)
      before [] b h = rw (append-nil front) d
      before (x ∷ a) b h = absurd (nil-append a b slash (ap tail_of h))

  loop-Makes :
      (left front : List ℕ) (s : F)
      → MakesDirs fs
      → Clear fs (front ++ left) s
      → Makes s (λ t. Checked (λ p. IsDir p t) front left) (mkdir_p_loop fs front left s)
  unfolding mkdir_p_loop
  loop-Makes [] front s laws clear =
      Makes-from s (λ t. Checked (λ p. IsDir p t) front []) s (IsDir front) (check_dir fs front s)
        (Keeps-refl s) (λ u k d. Checked-last (λ p. IsDir p u) front d)
        (check_dir-Makes front s laws (clear front [] refl))
  loop-Makes (c ∷ []) front s laws clear = elim (Bool-cases (c == slash)) [
    | inl e ↦
        let c_slash : c ≡ slash = ground (arith, e) in
        rw e (
          Makes-next s (λ t. Checked (λ p. IsDir p t) front (c ∷ [])) (IsDir front)
            (check_dir fs front s) (unless_end fs [] (mkdir_p_loop fs (front ++ c ∷ []) []))
            (check_dir-Makes front s laws (clear front _ refl))
            (λ t k d. (k, Checked-end (λ p. IsDir p t) front c c_slash d)))
    | inr e ↦ rw e (
        Makes-from s (λ t. Checked (λ p. IsDir p t) front (c ∷ [])) s
          (λ t. Checked (λ p. IsDir p t) (front ++ c ∷ []) [])
          (mkdir_p_loop fs (front ++ c ∷ []) [] s) (Keeps-refl s)
          (λ u k q. Checked-more (λ p. IsDir p u) front [] c (λ h. absurd (ground (arith, e, h))) q)
          (loop-Makes [] (front ++ c ∷ []) s laws (rw (append_assoc front (c ∷ []) []) clear)))
  ]
  loop-Makes (c ∷ x ∷ left) front s laws clear = elim (Bool-cases (c == slash)) [
    | inl e ↦ rw e (
        Makes-next s (λ t. Checked (λ p. IsDir p t) front (c ∷ x ∷ left)) (IsDir front)
          (check_dir fs front s) (mkdir_p_loop fs (front ++ c ∷ []) (x ∷ left))
          (check_dir-Makes front s laws (clear front _ refl))
          (λ t k d.
            Makes-from s (λ t. Checked (λ p. IsDir p t) front (c ∷ x ∷ left)) t
              (λ t. Checked (λ p. IsDir p t) (front ++ c ∷ []) (x ∷ left))
              (mkdir_p_loop fs (front ++ c ∷ []) (x ∷ left) t) k
              (λ u k2 q. Checked-more (λ p. IsDir p u) front (x ∷ left) c (λ h. k2.0 front d) q)
              (loop-Makes (x ∷ left) (front ++ c ∷ []) t laws
                (rw (append_assoc front (c ∷ []) (x ∷ left)) (k.1 _ clear)))))
    | inr e ↦ rw e (
        Makes-from s (λ t. Checked (λ p. IsDir p t) front (c ∷ x ∷ left)) s
          (λ t. Checked (λ p. IsDir p t) (front ++ c ∷ []) (x ∷ left))
          (mkdir_p_loop fs (front ++ c ∷ []) (x ∷ left) s) (Keeps-refl s)
          (λ u k q.
            Checked-more (λ p. IsDir p u) front (x ∷ left) c (λ h. absurd (ground (arith, e, h))) q)
          (loop-Makes (x ∷ left) (front ++ c ∷ []) s laws
            (rw (append_assoc front (c ∷ []) (x ∷ left)) clear)))
  ]

  -- Where a mkdir that succeeds makes a directory, none removes one, and none makes a front of a path
  -- unsearchable, and where stat at the start fails for the fronts of this path with ENOENT alone, a
  -- mkdir_p that returns 0 leaves every directory it found, and what stands before any slash of the path
  -- is a directory, and so is the whole path if it does not end in a slash. Paths that stat could look
  -- up so at the start are as they were in that respect.
  pub mkdir_p-Makes :
      (path : List ℕ) (s t : F)
      → MakesDirs fs
      → Clear fs path s
      → mkdir_p fs (some path) s ≡ (made, t)
      → Keeps s t × Checked (λ p. IsDir p t) [] path
  unfolding mkdir_p
  mkdir_p-Makes path s t laws clear e =
      Makes-of s (λ t. Checked (λ p. IsDir p t) [] path) (made, t) (mkdir_p fs (some path) s)
        (sym e) (go path clear)
    where
      go :
          (path : List ℕ)
          → Clear fs path s
          → Makes s (λ t. Checked (λ p. IsDir p t) [] path) (mkdir_p fs (some path) s)
      go [] clear = tt
      go (c ∷ path) clear = elim (Bool-cases (fs.slack (length (c ∷ path)) == 0)) [
        | inl h ↦ rw h tt
        | inr h ↦ rw h (loop-Makes (c ∷ path) [] s laws clear)
      ]

  -- Where the empty path does not exist and cannot be made, as POSIX has it, mkdir_p fails with ENOENT
  -- on every path that starts with a slash, and makes nothing.
  pub mkdir_p_absolute :
      (path : List ℕ) (s : F)
      → fs.stat [] s ≡ missing enoent
      → fs.mkdir [] s ≡ (some enoent, s)
      → (fs.slack (suc (length path)) == 0) ≡ false
      → mkdir_p fs (some (slash ∷ path)) s ≡ (failed enoent, s)
  unfolding mkdir_p mkdir_p_loop check_dir
  mkdir_p_absolute path s e h r = rw (r, check_dir, e, h) refl

  loop_blind :
      (left front : List ℕ) (s : F) (e : ℕ)
      → ((p : List ℕ) → fs.stat p s ≡ missing e)
      → (e == enoent) ≡ false
      → mkdir_p_loop fs front left s ≡ (made, s)
  unfolding mkdir_p_loop check_dir
  loop_blind [] front s e h n = rw (check_dir, h front, n) refl
  loop_blind (c ∷ []) front s e h n =
      let last = loop_blind [] (front ++ c ∷ []) s e h n in
      elim (Bool-cases (c == slash)) [
        | inl b ↦ rw (b, check_dir, h front, n) refl
        | inr b ↦ rw (b, last) refl
      ]
  loop_blind (c ∷ x ∷ left) front s e h n =
      let rest = loop_blind (x ∷ left) (front ++ c ∷ []) s e h n in
      elim (Bool-cases (c == slash)) [
        | inl b ↦ rw (b, check_dir, h front, n) rest
        | inr b ↦ rw (b, rest) refl
      ]

  -- Where stat fails with an error that is not ENOENT, mkdir_p returns 0 and has made nothing.
  pub mkdir_p_blind :
      (path : List ℕ) (s : F) (e : ℕ)
      → ((p : List ℕ) → fs.stat p s ≡ missing e)
      → e ≢ enoent
      → (fs.slack (length path) == 0) ≡ false
      → path ≢ []
      → mkdir_p fs (some path) s ≡ (made, s)
  unfolding mkdir_p
  mkdir_p_blind [] s e h n r p = absurd (p refl)
  mkdir_p_blind (c ∷ path) s e h n r p = rw r (loop_blind (c ∷ path) [] s e h (ground (arith, n)))

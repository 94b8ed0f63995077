-- ===== src/Cache.antt =====
-- The byte path store of old/byte_path_store.c: directories made along a path, and a cache file that
-- is found under two bytes of its id. A path is the list of its bytes.
pub mod Directories
pub mod Paths
use alib4c.Common.{
  ℕ, zero, suc, ◌+◌, ◌/◌, ◌%◌, ℤ, pos, negsuc, Bool, true, false, ◌&&◌, ◌||◌, not, Option, none,
  some, List, [], ◌∷◌, ◌++◌, ◌==◌, ltb, if◌then◌else◌, length,
}

-- what stat says of a path
pub data Stat : Type 0 where
  missing : ℕ → Stat
  directory : Stat
  regular : Stat
  special : Stat

-- The system calls. mkdir gives the errno of a failure; access is asked for X_OK or R_OK. `slack` is
-- the number of bytes that alloca hands out beyond those it was asked for.
pub record Files (F : Type 0) : Type 0 where
  pub stat : List ℕ → F → Stat
  pub mkdir : List ℕ → F → Option ℕ × F
  pub access_x : List ℕ → F → Bool
  pub access_r : List ℕ → F → Bool
  pub open_file : List ℕ → ℕ → F → ℤ × F
  pub slack : ℕ → ℕ

-- How mkdir_p ends: with 0, with -1 and an errno, or by a write behind its copy of the path.
pub data Outcome : Type 0 where
  made : Outcome
  failed : ℕ → Outcome
  overrun : Outcome

abbrev pub enoent : ℕ
enoent = 2

abbrev pub enotdir : ℕ
enotdir = 20

-- O_CREAT; O_RDONLY, which stands in for no flags, is 0 itself
abbrev pub o_creat : ℕ
o_creat = 64

-- `flags & O_CREAT`
abbrev pub creates : ℕ → Bool
creates flags = flags / o_creat % 2 == 1

abbrev pub slash : ℕ
slash = b'/'

-- sprintf of "%X" for one digit
abbrev pub hex_upper : ℕ → ℕ
hex_upper n = if ltb n 10 then 48 + n else 55 + n

-- the directory of an id: `base/XX/XX`
unfoldable pub cache_dir : List ℕ → ℕ → List ℕ
cache_dir base id =
    base
    ++ slash
      ∷ hex_upper (id / 4096 % 16)
      ∷ hex_upper (id / 256 % 16)
      ∷ slash
      ∷ hex_upper (id / 16 % 16)
      ∷ hex_upper (id % 16)
      ∷ []

module _ {F : Type 0} (fs : Files F) where
  unfoldable pub usable_dir : List ℕ → F → Bool
  usable_dir path s = elim (fs.stat path s) [
    | missing e ↦ false
    | directory ↦ fs.access_x path s
    | regular ↦ false
    | special ↦ false
  ]

  unfoldable pub usable_file : List ℕ → F → Bool
  usable_file path s = elim (fs.stat path s) [
    | missing e ↦ false
    | directory ↦ false
    | regular ↦ fs.access_r path s
    | special ↦ false
  ]

  abbrev pub after_mkdir : Option ℕ × F → Outcome × F
  after_mkdir (none, s) = (made, s)
  after_mkdir (some e, s) = (failed e, s)

  -- One directory. A failure of stat that is not ENOENT is passed over.
  unfoldable pub check_dir : List ℕ → F → Outcome × F
  check_dir work s = elim (fs.stat work s) [
    | missing e ↦ if e == enoent then after_mkdir (fs.mkdir work s) else (made, s)
    | directory ↦ (made, s)
    | regular ↦ (failed enotdir, s)
    | special ↦ (failed enotdir, s)
  ]

  abbrev pub next_dir : (F → Outcome × F) → Outcome × F → Outcome × F
  next_dir rest (made, s) = rest s
  next_dir rest (failed e, s) = (failed e, s)
  next_dir rest (overrun, s) = (overrun, s)

  -- `while(*ptr)`: behind a slash at the end of the path nothing is left to do
  abbrev pub unless_end : List ℕ → (F → Outcome × F) → F → Outcome × F
  unless_end [] rest s = (made, s)
  unless_end (c ∷ left) rest s = rest s

  -- `front` is what stands before `ptr`.
  unfoldable pub mkdir_p_loop : List ℕ → List ℕ → F → Outcome × F
  mkdir_p_loop front [] s = check_dir front s
  mkdir_p_loop front (c ∷ left) s =
      let rest = mkdir_p_loop (front ++ c ∷ []) left in
      if c == slash then next_dir (unless_end left rest) (check_dir front s) else rest s

  -- The copy of the path has no room for its terminator but what alloca gives in excess.
  unfoldable pub mkdir_p : Option (List ℕ) → F → Outcome × F
  mkdir_p none s = (failed enoent, s)
  mkdir_p (some []) s = (failed enoent, s)
  mkdir_p (some (c ∷ path)) s =
      if fs.slack (length (c ∷ path)) == 0 then (overrun, s) else mkdir_p_loop [] (c ∷ path) s

  abbrev pub open_in : List ℕ → List ℕ → ℕ → Outcome × F → Option ℤ × F
  open_in dir file flags (made, s) =
      let (fd, t) = fs.open_file (dir ++ slash ∷ file) flags s in (some fd, t)
  open_in dir file flags (failed e, s) = (some (negsuc 0), s)
  open_in dir file flags (overrun, s) = (none, s)

  -- `none` is the write behind a copy in mkdir_p; the own copy of this function has its exact size.
  unfoldable pub get_cache_file_16 : List ℕ → ℕ → List ℕ → ℕ → F → Option ℤ × F
  get_cache_file_16 base id file flags s =
      let dir = cache_dir base id in
      open_in dir file flags (
        if usable_dir dir s
        then (made, s)
        else (if creates flags then mkdir_p (some dir) s else (failed enoent, s)))

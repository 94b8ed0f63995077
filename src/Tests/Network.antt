-- ===== src/Tests/Network.antt =====
-- A resolver of one name, and a file system of one directory.
use alib4c.Common.{
  ℕ, ◌≡◌, ◌⊎◌, ◌==◌, refl, ap, sym, pos, negsuc, Bool, true, false, none, some, List, [], ◌∷◌, ◌++◌,
  if◌then◌else◌, length, ltb, arith,
}
use alib4c.World.{alib, perror, ok, malloc, head_or_false}
use alib4c.Error.Live.{pushed}
use alib4c.Mem.{fresh}
use alib4c.Resolve.{Resolver, op_small, a_inet_ntoa}
use alib4c.Resolve.Numbers.{holding, inet_ntoa-holding}
use alib4c.Tests.Samples.{ready}
use alib4c.Cache.{
  Files, Stat, missing, directory, enoent, made, mkdir_p, mkdir_p_loop, check_dir, usable_dir,
  cache_dir, slash, get_cache_file_16,
}
use alib4c.Cache.Directories.{Clear, MakesDirs, IsDir, Keeps, Checked, mkdir_p-Makes}
use alib4c.Cache.Paths.{cache_file-opened}

-- The address 9 has the name "ab", for a pointer of 4 bytes and of 8.
abbrev resolver : ℕ → Resolver
resolver size = record {
  gethostbyname = λ name. some 9;
  gethostbyaddr = λ a n. if n == 4 then some (b'a' ∷ b'b' ∷ []) else none;
  inet_pton = λ name. none;
  inet_ntop = λ a. b'9' ∷ [];
  addr_size = size;
}

inet_ntoa-holding_example :
    (a_inet_ntoa (resolver 4) 9 (some (fresh 20)) (length (fresh 20)) ready ≡ (
      if ltb (length (fresh 20)) 16
      then ok none (pushed alib op_small ready)
      else ok (some (holding (b'9' ∷ []) (fresh 20))) ready))
    × (a_inet_ntoa (resolver 4) 9 none 0 ready ≡ (
        if head_or_false ready.mallocs
        then ok (some (holding (b'9' ∷ []) (fresh 16))) (malloc ready).1
        else ok none (pushed perror ready.errno (malloc ready).1)))
inet_ntoa-holding_example = inet_ntoa-holding (resolver 4) 9 (fresh 20) ready tt (omega arith)

-- Every path is there or not at once: a state says whether it is.
abbrev all_or_nothing : Files Bool
all_or_nothing = record {
  stat = λ p there. if there then directory else missing enoent;
  mkdir = λ p there. elim p [ [] ↦ (some enoent, there) | _ ↦ (none, true) ];
  access_x = λ p there. there;
  access_r = λ p there. false;
  open_file = λ p flags there. (pos 3, there);
  slack = λ n. 1;
}

all_or_nothing-MakesDirs : MakesDirs all_or_nothing
all_or_nothing-MakesDirs = record { makes = makes; keeps = keeps; stays = stays }
  where
    makes :
        (p : List ℕ) (s : Bool)
        → (all_or_nothing.mkdir p s).0 ≡ none
        → all_or_nothing.stat p (all_or_nothing.mkdir p s).1 ≡ directory
    makes [] s e = absurd (cc e)
    makes (c ∷ p) s e = refl

    keeps :
        (p q : List ℕ) (s : Bool)
        → all_or_nothing.stat q s ≡ directory
        → all_or_nothing.stat q (all_or_nothing.mkdir p s).1 ≡ directory
    keeps [] q s e = e
    keeps (c ∷ p) q s e = refl

    stays :
        (path p : List ℕ) (s : Bool)
        → Clear all_or_nothing path s
        → Clear all_or_nothing path (all_or_nothing.mkdir p s).1
    stays path [] s clear = clear
    stays path (c ∷ p) s clear = λ q r e n h. absurd (cc h)

all_or_nothing-Clear : (path : List ℕ) → Clear all_or_nothing path false
all_or_nothing-Clear path = λ p q e n h. sym (ap errno_of h)
  where
    errno_of : Stat → ℕ
    errno_of (missing e) = e
    errno_of _ = 0

-- "x/y"
abbrev x_y : List ℕ
x_y = b'x' ∷ b'/' ∷ b'y' ∷ []

mkdir_run : mkdir_p all_or_nothing (some x_y) false ≡ (made, true)
unfolding mkdir_p mkdir_p_loop check_dir
mkdir_run = refl

mkdir_p-Makes_example :
    Keeps all_or_nothing false true
    × Checked all_or_nothing (λ p. IsDir all_or_nothing p true) [] x_y
mkdir_p-Makes_example =
    mkdir_p-Makes all_or_nothing x_y false true all_or_nothing-MakesDirs (all_or_nothing-Clear x_y)
      mkdir_run

cache_run : get_cache_file_16 all_or_nothing x_y 257 x_y 66 false ≡ (some (pos 3), true)
unfolding get_cache_file_16 mkdir_p mkdir_p_loop check_dir usable_dir cache_dir
cache_run = refl

cache_file-opened_example :
    (pos 3 ≡ negsuc 0)
    ⊎ ((t : Bool) × (all_or_nothing.stat (cache_dir x_y 257) t ≡ directory)
        × (all_or_nothing.open_file (cache_dir x_y 257 ++ slash ∷ x_y) 66 t ≡ (pos 3, true)))
cache_file-opened_example =
    cache_file-opened all_or_nothing x_y x_y 257 66 false true (pos 3) all_or_nothing-MakesDirs
      (all_or_nothing-Clear (cache_dir x_y 257)) cache_run

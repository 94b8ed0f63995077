-- ===== src/Die.antt =====
-- The messages of a/die.c, with the default way to print them.
pub mod Former
pub mod Messages
use alib4c.Common.{
  ℕ, zero, suc, ◌+◌, Bool, true, false, Option, none, some, List, [], ◌∷◌, ◌++◌, length,
}
use mathlib.Core.Option
use alib4c.World.{no_error, World}
use alib4c.Error.Texts.{
  bytes, Subject, null_mod, no_getstr, coded, stacked, a_error_strerr, ModName, a_error_getcode,
}
use alib4c.Format.{Vsnprintf, a_vsprintf_find_len}

-- What a message is made of: vsnprintf of the caller's format and of "[%s:%u:%s]" with the place, and
-- the length of the format.
pub record Wording : Type 0 where
  pub message : Vsnprintf
  pub fmt_len : ℕ
  pub place : Vsnprintf

-- strlen("[%s:%u:%s]")
abbrev pub place_fmt_len : ℕ
place_fmt_len = 10

-- The text that vsnprintf leaves in a block of the size that a_vsprintf_find_len finds; `none` is a
-- search that does not end.
unfoldable pub prepared : ℕ → Vsnprintf → ℕ → Option (List ℕ)
prepared fuel v fmt_len = Option.map (λ len. (v len).1) (a_vsprintf_find_len fuel v fmt_len)

-- a_die_printf of "%s %s: %s" or "%s %s", which a_die_printf_default ends with a newline
unfoldable pub printed_line : List ℕ → List ℕ → List ℕ → List ℕ
printed_line place msg [] = place ++ b' ' ∷ msg ++ 10 ∷ []
printed_line place msg (c ∷ error) = place ++ b' ' ∷ msg ++ b':' ∷ b' ' ∷ (c ∷ error) ++ 10 ∷ []

module _ (strerror : ℕ → List ℕ) where
  -- The error text, empty where there is none to show; `none` is undefined behaviour.
  unfoldable pub error_part : Subject → Option (List ℕ)
  error_part null_mod = some []
  error_part (coded no_error c) = some []
  error_part subject = a_error_strerr strerror true subject

  unfoldable pub with_parts : Option (List ℕ) → Option (List ℕ) → Option (List ℕ) → Option (List ℕ)
  with_parts (some error) (some msg) (some place) = some (printed_line place msg error)
  with_parts _ _ _ = none

  -- What is written to stderr. Neither text is on the heap, so nothing is freed.
  unfoldable pub a_warn_real_vargs : ℕ → Subject → Wording → Option (List ℕ)
  a_warn_real_vargs fuel subject m =
      with_parts (error_part subject) (prepared fuel m.message m.fmt_len)
        (prepared fuel m.place place_fmt_len)

  -- a_warn_real is the same on variable arguments.
  unfoldable pub a_warn_real_getcode : ℕ → ModName → Wording → World → Option (List ℕ)
  a_warn_real_getcode fuel name m w = a_warn_real_vargs fuel (a_error_getcode name w) m

  -- what is written, and the exit code
  unfoldable pub a_die_real : ℕ → Subject → Wording → Option (List ℕ × ℕ)
  a_die_real fuel subject m = Option.map (λ line. (line, 1)) (a_warn_real_vargs fuel subject m)

  unfoldable pub a_die_real_getcode : ℕ → ModName → Wording → World → Option (List ℕ × ℕ)
  a_die_real_getcode fuel name m w =
      Option.map (λ line. (line, 1)) (a_warn_real_getcode fuel name m w)

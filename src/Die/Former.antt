-- ===== src/Die/Former.antt =====
-- The messages of a/old/die.c, built without threads, and that of a/debug.c, which is written as they
-- are.
use alib4c.Common.{
  ℕ, zero, suc, ◌≡◌, ◌≢◌, ◌⊎◌, ℤ, pos, Bool, true, Option, none, some, List, [], ◌∷◌, ◌++◌,
  if◌then◌else◌,
}
use mathlib.Core.Option
use alib4c.World.{World, Run, M, ok, fault, died, ◌>>=◌, pure, emit, block_freed}
use alib4c.Mem.{Block, a_free}
use alib4c.Error.Texts.{bytes}
use alib4c.Format.{a_vsprintf_malloc}
use alib4c.Die.{Wording, place_fmt_len}

-- The string in a block; none is a read of what was not written, or behind the end.
unfoldable pub string_in : Block → Option (List ℕ)
string_in [] = none
string_in (none ∷ b) = none
string_in (some zero ∷ b) = some []
string_in (some (suc n) ∷ b) = Option.map (λ s. suc n ∷ s) (string_in b)

-- `%s` of a block
unfoldable pub shown_block : Option Block → M (List ℕ)
shown_block none w = fault
shown_block (some b) w = elim (string_in b) [ none ↦ fault | some s ↦ ok s w ]

-- one step after another, where a step may not end
abbrev pub then_do : {A B : Type 0} → Option (Run A) → (A → World → Option (Run B)) → Option (Run B)
then_do none k = none
then_do (some (ok a w)) k = k a w
then_do (some fault) k = some fault
then_do (some died) k = some died

abbrev pub or_unknown : Option (List ℕ) → List ℕ
or_unknown none = bytes "uknown error"
or_unknown (some s) = s

-- `strerror` is the function of the C library, none for NULL.
module _ (strerror : ℤ → Option (List ℕ)) where
  unfoldable pub message_line : List ℕ → List ℕ → ℤ → List ℕ
  message_line info msg (pos zero) = info ++ b' ' ∷ msg ++ 10 ∷ []
  message_line info msg err =
      info ++ b' ' ∷ msg ++ b':' ∷ b' ' ∷ or_unknown (strerror err) ++ 10 ∷ []

  unfoldable pub show_and_free : ℤ → Option Block → Option Block → M (List ℕ)
  show_and_free err info msg w =
      (do
        place ← shown_block info
        text ← shown_block msg
        freed ← a_free info true
        done ← a_free msg true
        pure (message_line place text err))
        w

  -- What is written to stderr; `none` is a search for a length that does not end.
  unfoldable pub a_warn_errno_real : ℕ → ℤ → Wording → World → Option (Run (List ℕ))
  a_warn_errno_real fuel err m w =
      then_do (a_vsprintf_malloc fuel m.place place_fmt_len w) (λ info v.
        then_do (a_vsprintf_malloc fuel m.message m.fmt_len v)
          (λ msg u. some (show_and_free err info msg u)))

  -- Before exit(1): what is written, and the flag `already_dying`, which is looked at and never set.
  unfoldable pub a_die_errno_real : ℕ → Bool → ℤ → Wording → World → Option (Run (List ℕ × Bool))
  a_die_errno_real fuel already_dying err m w =
      if already_dying
      then some (ok (bytes "fatal: die called while already dying", already_dying) w)
      else then_do (a_warn_errno_real fuel err m w) (λ line v. some (ok (line, already_dying) v))

-- a_debug_real of a/debug.c
unfoldable pub a_debug_real : ℕ → Wording → World → Option (Run (List ℕ))
a_debug_real fuel m w = a_warn_errno_real (λ e. none) fuel (pos 0) m w

abbrev pub freed_twice : World → World
freed_twice w = emit block_freed (emit block_freed w)

-- A line on stderr: the place, a space and the message, and for an errno that is not 0 a colon, a space
-- and the text that strerror has for it, or the one for an errno it does not know; and a newline.
abbrev pub Line : (ℤ → Option (List ℕ)) → ℤ → List ℕ → List ℕ → List ℕ → Type 0
Line strerror err place msg line =
    ((err ≡ pos 0) × (line ≡ place ++ (bytes " " ++ msg) ++ bytes "\n"))
    ⊎ ((err ≢ pos 0)
        × ((text : List ℕ) × (strerror err ≡ some text)
            × (line ≡ place ++ (bytes " " ++ msg) ++ (bytes ": " ++ text) ++ bytes "\n")))
    ⊎ ((err ≢ pos 0)
        × (strerror err ≡ none)
        × (line ≡ place ++ (bytes " " ++ msg) ++ bytes ": uknown error" ++ bytes "\n"))

-- ===== src/Tests/Messages.antt =====
-- Messages of one word, at a place of one byte, of an error that is pushed on the stack.
use alib4c.Common.{ℕ, ◌≡◌, refl, pos, false, some, List, [], ◌∷◌, ltb, arith, if◌then◌else◌}
use alib4c.World.{alib, Returns}
use alib4c.Error.{a_error_stack_macro_helper}
use alib4c.Error.Texts.{stack}
use alib4c.Format.{Vsnprintf}
use alib4c.Format.Sizes.{Counts}
use alib4c.Die.{Wording, a_die_real_getcode}
use alib4c.Die.Messages.{Named, Line, val_get-Named, shown, die-shows_pushed}
use alib4c.Die.Former
use alib4c.Tests.Samples.{ready}

-- vsnprintf of a format that prints as "w"
abbrev word : List ℕ
word = b'w' ∷ []

abbrev printing : Vsnprintf
printing n = (some 1, if ltb 1 n then word else [])

printing-Counts : Counts printing word
printing-Counts n = (refl, λ h. ground (arith, h))

abbrev wording : Wording
wording = record { message = printing; fmt_len = 2; place = printing }

val_get-Named_example : Named (pos 7)
val_get-Named_example = val_get-Named (pos 7)

-- every errno has the empty text
abbrev no_text : ℕ → List ℕ
no_text n = []

die-shows_pushed_example :
    Returns (a_error_stack_macro_helper alib false (pos 4) false ready) (λ a v.
      (line : List ℕ) × (a_die_real_getcode no_text 1 stack wording v ≡ some (line, 1))
      × Line word word (shown no_text alib (pos 4) ready) line)
die-shows_pushed_example =
    die-shows_pushed no_text alib (pos 4) ready 0 wording word word tt printing-Counts (omega arith)
      printing-Counts

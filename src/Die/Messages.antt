-- ===== src/Die/Messages.antt =====
-- What the messages of a/die.c show of an error that a/error.c has pushed on the stack.
use alib4c.Common.{
  ℕ, suc, ◌+◌, ◌<◌, ◌≤◌, ◌≡◌, refl, ap, ◌≢◌, ◌⊎◌, inl, inr, ℤ, pos, negsuc, false, some, List, [],
  ◌∷◌, ◌++◌, arith, if◌then◌else◌, ltb, length, get_elem?, get_elem?-get_or, Bool-cases,
}
use alib4c.World.{ErrorMod, stack_alloc, World, head_or_false, Returns}
use alib4c.Error.{a_error_stack_macro_helper}
use alib4c.Error.Live.{IsLive, pushed, helper-pushed}
use alib4c.Error.Texts.{
  bytes, error_val2str, error_max, val_get, getstr, stack_getstr, a_error_strerr, stack,
  a_error_getcode,
}
use alib4c.Format.{Vsnprintf}
use alib4c.Format.Sizes.{Counts, find_len-Counts}
use alib4c.Die.{
  Wording, place_fmt_len, prepared, printed_line, error_part, with_parts, a_warn_real_vargs,
  a_warn_real_getcode, a_die_real_getcode,
}

-- an entry of the table, or the text for a code that has none
abbrev pub Named : ℤ → Type 0
Named c =
    ((n : ℕ) × (c ≡ pos n) × (n ≤ error_max) × (get_elem? error_val2str n ≡ some (val_get c)))
    ⊎ (((n : ℕ) → n ≤ error_max → c ≢ pos n) × (val_get c ≡ bytes "Invalid a_error value"))

pos_inj : {m n : ℕ} → pos m ≡ pos n → m ≡ n
pos_inj e = cc e

-- A code has an entry of the table as its text when it is one of A_ERROR_SUCCESS to A_ERROR_MAX, and
-- the text for an invalid value when it is not; the table is never read behind its end.
pub val_get-Named : (c : ℤ) → Named c
unfolding val_get error_val2str
val_get-Named (negsuc n) = inr (λ k h e. cc e, refl)
val_get-Named (pos n) = elim (Bool-cases (ltb error_max n)) [
  | inl h ↦ inr (λ k le e. ground (arith, h, le, pos_inj e), rw h refl)
  | inr h ↦
      inl
        (n, refl, ground (arith, h), rw h (get_elem?-get_or error_val2str n [] (ground (arith, h))))
]

prepared-text :
    (fuel fmt_len : ℕ) (v : Vsnprintf) (text : List ℕ)
    → Counts v text
    → 0 < fmt_len
    → prepared (suc fuel) v fmt_len ≡ some text
unfolding prepared
prepared-text fuel fmt_len v text c p =
    rw (find_len-Counts fuel fmt_len v text c p) (ap some ((c (length text + 1)).1 (omega arith)))

-- the text of the error on top after a push of a module and a code
abbrev pub shown : (ℕ → List ℕ) → ErrorMod → ℤ → World → List ℕ
shown strerror m c w =
    if head_or_false w.mallocs then getstr strerror m c else getstr strerror stack_alloc (pos 0)

top_text :
    (strerror : ℕ → List ℕ) (m : ErrorMod) (c : ℤ) (w : World)
    → stack_getstr strerror (pushed m c w).errors ≡ some (shown strerror m c w)
unfolding stack_getstr
top_text strerror m c w = elim (Bool-cases (head_or_false w.mallocs)) [
  | inl h ↦ rw h refl
  | inr h ↦ rw h refl
]

-- A line on stderr: the place, a space and the message, and, where there is a text of the error, a colon,
-- a space and that text; and a newline.
abbrev pub Line : List ℕ → List ℕ → List ℕ → List ℕ → Type 0
Line place msg error line =
    ((error ≡ []) × (line ≡ place ++ (bytes " " ++ msg) ++ bytes "\n"))
    ⊎ ((error ≢ []) × (line ≡ place ++ (bytes " " ++ msg) ++ (bytes ": " ++ error) ++ bytes "\n"))

printed_line-Line : (place msg error : List ℕ) → Line place msg error (printed_line place msg error)
unfolding printed_line
printed_line-Line place msg [] = inl (refl, refl)
printed_line-Line place msg (c ∷ error) = inr (λ e. cc e, refl)

-- A module and a code that are pushed on a live stack, whether malloc has memory for the node or not,
-- are what a_die_real_getcode for the stack then tells: it writes one line, of the place, a space and
-- the message of the caller, followed, unless it is empty, by a colon, a space and the text of the code,
-- or the text for a failing malloc where there was no memory, and exits with 1.
pub die-shows_pushed :
    (strerror : ℕ → List ℕ) (m : ErrorMod) (c : ℤ) (w : World) (fuel : ℕ) (wording : Wording)
    (place msg : List ℕ)
    → IsLive w.errors
    → Counts wording.message msg
    → 0 < wording.fmt_len
    → Counts wording.place place
    → Returns (a_error_stack_macro_helper m false c false w) (λ a v.
      (line : List ℕ) × (a_die_real_getcode strerror (suc fuel) stack wording v ≡ some (line, 1))
      × Line place msg (shown strerror m c w) line)
unfolding a_die_real_getcode a_warn_real_getcode a_warn_real_vargs a_error_getcode error_part
    a_error_strerr with_parts
die-shows_pushed strerror m c w fuel wording place msg live cm pm cp = (
  tt,
  pushed m c w,
  (helper-pushed m false c w live tt).0,
  (
    printed_line place msg (shown strerror m c w),
    rw
        (
          top_text strerror m c w,
          prepared-text fuel wording.fmt_len wording.message msg cm pm,
          prepared-text fuel place_fmt_len wording.place place cp (omega arith),
        )
        refl,
    printed_line-Line place msg (shown strerror m c w),
  ),
)

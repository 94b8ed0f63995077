-- ===== src/Flail/Outcome.antt =====
-- How a call of flail of old/flail.c ends.
use alib4c.Common.{
  ℕ, length, ◌≤◌, suc, zero, ◌≡◌, ◌≢◌, refl, ap, Bool-cases, inl, inr, sym, ◌∙◌, ℤ, pos, Bool, true,
  false, ◌||◌, Option, none, some, List, [], ◌∷◌, ◌++◌, ◌==◌, if◌then◌else◌, take, arith, Lacks,
}
use mathlib.Core.Option
use mathlib.Core.List.{append_assoc}
use alib4c.Flail.{
  close_it, free_it, value_it, return_it, exit_it, errno_it, output_it, remove_it, handler_it,
  nothing, next_int, next_ptr, next_str, next_handler, Arg, Letter, Options, letter_of, obey,
  obey_all, Message, said, unwritten, is_set, buf_room, separator, message, Ended, exited, returned,
  Report, Printer, fresh_options, report, flail,
}

-- a letter among the options
abbrev pub has_letter : ℕ → List ℕ → Bool
has_letter c [] = false
has_letter c (d ∷ s) = (d == c) || has_letter c s

-- what holds of the result of a step that has one
abbrev OnSome {ℓ} : {A : Type 0} → (A → Type ℓ) → Option A → Type ℓ
OnSome P none = Unit
OnSome P (some a) = P a

map-OnSome :
    {A B : Type 0} (P : B → Type 0) (f : A → B) (x : Option A)
    → ((a : A) → P (f a))
    → OnSome P (Option.map f x)
map-OnSome P f none h = tt
map-OnSome P f (some a) h = h a

abbrev is_exit_letter : Letter → Bool
is_exit_letter exit_it = true
is_exit_letter _ = false

abbrev is_output_letter : Letter → Bool
is_output_letter output_it = true
is_output_letter _ = false

or_false : (b : Bool) → b ≡ (b || false)
or_false true = refl
or_false false = refl

or_true : (b : Bool) → true ≡ (b || true)
or_true true = refl
or_true false = refl

or_assoc : (a b c : Bool) → ((a || b) || c) ≡ (a || (b || c))
or_assoc true b c = refl
or_assoc false b c = refl

abbrev Marks : Bool → Bool → Options → Options → Type 0
Marks q s o u = (u.should_exit ≡ (o.should_exit || q)) × (u.output ≡ (o.output || s))

obey-Marks :
    (l : Letter) (args : List Arg) (o : Options)
    → OnSome (λ (left, u). Marks (is_exit_letter l) (is_output_letter l) o u) (obey l args o)
unfolding obey
obey-Marks close_it args o =
    map-OnSome _ _ (next_int args) (λ a. (or_false o.should_exit, or_false o.output))
obey-Marks free_it args o =
    map-OnSome _ _ (next_ptr args) (λ a. (or_false o.should_exit, or_false o.output))
obey-Marks value_it args o =
    map-OnSome _ _ (next_int args) (λ a. (or_false o.should_exit, or_false o.output))
obey-Marks return_it args o = (or_false o.should_exit, or_false o.output)
obey-Marks exit_it args o = (or_true o.should_exit, or_false o.output)
obey-Marks errno_it args o =
    map-OnSome _ _ (next_int args) (λ a. (or_false o.should_exit, or_false o.output))
obey-Marks output_it args o = (or_false o.should_exit, or_true o.output)
obey-Marks remove_it args o =
    map-OnSome _ _ (next_str args) (λ a. (or_false o.should_exit, or_false o.output))
obey-Marks handler_it args o =
    map-OnSome _ _ (next_handler args) (λ a. (or_false o.should_exit, or_false o.output))
obey-Marks nothing args o = (or_false o.should_exit, or_false o.output)

exit_letter : (c : ℕ) → is_exit_letter (letter_of c) ≡ (c == b'q')
unfolding letter_of
exit_letter c = ground arith

output_letter : (c : ℕ) → is_output_letter (letter_of c) ≡ (c == b'o')
unfolding letter_of
output_letter c = ground arith

OnSome-imply :
    {A : Type 0} (P Q : A → Type 0) (x : Option A) → ((a : A) → P a → Q a) → OnSome P x → OnSome Q x
OnSome-imply P Q none f h = tt
OnSome-imply P Q (some a) f h = f a h

-- what the loop does to the variables, by the letters before the semicolon
abbrev Obeyed : List ℕ → List ℕ → Options → List ℕ × List Arg × Options → Type 0
Obeyed opts format o (rest, left, u) =
    (rest ≡ format) × Marks (has_letter b'q' opts) (has_letter b'o' opts) o u

chained : (u o x y z c : Bool) → u ≡ (y || z) → y ≡ (o || x) → x ≡ c → u ≡ (o || (c || z))
chained u o x y z c e f g = e ∙ ap (λ b. b || z) (f ∙ ap (λ b. o || b) g) ∙ or_assoc o c z

obey_all-Obeyed :
    (opts format : List ℕ) (args : List Arg) (o : Options)
    → Lacks b';' opts
    → OnSome (Obeyed opts format o) (obey_all (opts ++ b';' ∷ format) args o)
unfolding obey_all
obey_all-Obeyed [] format args o h = (refl, (or_false o.should_exit, or_false o.output))
obey_all-Obeyed (c ∷ opts) format args o (h, g) =
    let p : (c == b';') ≡ false = ground (arith, h) in
    rw p (
      go (λ left u. obey_all-Obeyed opts format left u g) (obey (letter_of c) args o)
        (obey-Marks (letter_of c) args o))
  where
    go :
        ((left : List Arg) (u : Options)
          → OnSome (Obeyed opts format u) (obey_all (opts ++ b';' ∷ format) left u))
        → (r : Option (List Arg × Options))
        → OnSome
            (λ (left, u). Marks (is_exit_letter (letter_of c)) (is_output_letter (letter_of c)) o u)
            r
        → OnSome
            (Obeyed (c ∷ opts) format o)
            (elim r [ none ↦ none | some rest ↦ obey_all (opts ++ b';' ∷ format) rest.0 rest.1 ])
    go more none m = tt
    go more (some (left, u)) (e, f) =
        OnSome-imply (Obeyed opts format u) (Obeyed (c ∷ opts) format o)
          (obey_all (opts ++ b';' ∷ format) left u)
          (λ (rest, last, v) (r, (a, b)). (
            r,
            (
              chained v.should_exit o.should_exit (is_exit_letter (letter_of c)) u.should_exit
                  (has_letter b'q' opts) (c == b'q') a e (exit_letter c),
              chained v.output o.output (is_output_letter (letter_of c)) u.output
                  (has_letter b'o' opts) (c == b'o') b f (output_letter c),
            ),
          ))
          (more left u)

abbrev exits : Ended → Bool
exits (exited value) = true
exits (returned value) = false

-- a text is given to the output handler
abbrev shows : Option (Message × ℕ) → Bool
shows none = false
shows (some (said s, handler)) = true
shows (some (unwritten, handler)) = false

-- the text that is given to the output handler begins with the name of the program
abbrev pub Begins : List ℕ → Option (Message × ℕ) → Type 0
Begins basename none = Unit
Begins basename (some (said s, handler)) = take (length basename) s ≡ basename
Begins basename (some (unwritten, handler)) = ⊥

take-front : (b t : List ℕ) (n : ℕ) → length b ≤ n → take (length b) (take n (b ++ t)) ≡ b
take-front [] t n h = refl
take-front (c ∷ b) t zero h = absurd (omega (arith, h))
take-front (c ∷ b) t (suc n) h = ap (λ l. c ∷ l) (take-front b t n (omega (arith, h)))

-- a message of a program whose name is known
message-said :
    (p : Printer) (basename format : List ℕ) (args : List Arg) (e : ℤ)
    → basename ≢ []
    → length basename ≤ buf_room
    → (s : List ℕ) × (message p basename format args e ≡ said s)
      × (take (length basename) s ≡ basename)
unfolding message
message-said p [] format args e n l = absurd (n refl)
message-said p (c ∷ basename) format args e n l =
    let tmp = take buf_room (p.vsnprintf format args) in
    elim (Bool-cases (is_set e)) [
      | inl h ↦ (
        take buf_room ((c ∷ basename) ++ separator ++ tmp ++ separator ++ p.strerror e),
        rw h refl,
        ap (λ t. take (suc (length basename)) (take buf_room t))
              (ap (λ t. t ++ separator ++ p.strerror e) (append_assoc (c ∷ basename) separator tmp)
                ∙ ap (λ t. t ++ p.strerror e)
                    (append_assoc (c ∷ basename) (separator ++ tmp) separator)
                ∙ append_assoc (c ∷ basename) ((separator ++ tmp) ++ separator) (p.strerror e))
            ∙ take-front (c ∷ basename) (((separator ++ tmp) ++ separator) ++ p.strerror e) buf_room
                l,
      )
      | inr h ↦ (
        take buf_room ((c ∷ basename) ++ separator ++ tmp),
        rw h refl,
        ap (λ t. take (suc (length basename)) (take buf_room t))
              (append_assoc (c ∷ basename) separator tmp)
            ∙ take-front (c ∷ basename) (separator ++ tmp) buf_room l,
      )
    ]

abbrev pub Ends : List ℕ → List ℕ → Report → Type 0
Ends basename opts r =
    (exits r.ended ≡ has_letter b'q' opts)
    × (shows r.shown ≡ has_letter b'o' opts)
    × Begins basename r.shown

OnSome-of : {A : Type 0} (P : A → Type 0) {x y : Option A} → x ≡ y → OnSome P x → OnSome P y
OnSome-of P e h = rw (sym e) h

map-imply :
    {A B : Type 0} (P : A → Type 0) (Q : B → Type 0) (f : A → B) (x : Option A)
    → ((a : A) → P a → Q (f a))
    → OnSome P x
    → OnSome Q (Option.map f x)
map-imply P Q f none g h = tt
map-imply P Q f (some a) g h = g a h

exits_if :
    (q r : Bool) (v : ℤ)
    → exits (if q then exited v else (if r then returned v else returned (pos 0))) ≡ q
exits_if true r v = refl
exits_if false true v = refl
exits_if false false v = refl

shows_if :
    (b : Bool) (m : Message) (handler : ℕ) (basename : List ℕ)
    → (s : List ℕ) × (m ≡ said s) × (take (length basename) s ≡ basename)
    → (shows (if b then some (m, handler) else none) ≡ b)
      × Begins basename (if b then some (m, handler) else none)
shows_if true m handler basename (s, e, f) = rw e (refl, f)
shows_if false m handler basename h = (refl, tt)

-- In a program whose basename is set, and fits the buffer of the message, a call of flail that is given
-- the arguments that its letters ask for ends the process when the letter q is among those before the
-- semicolon, and returns when it is not; it gives the output handler a text, which begins with the
-- basename, when the letter o is among them, and calls it not when it is not.
pub flail-Ends :
    (p : Printer) (basename opts format : List ℕ) (handler : ℕ) (errno : ℤ) (args : List Arg)
    (r : Report)
    → basename ≢ []
    → length basename ≤ buf_room
    → Lacks b';' opts
    → flail p basename handler errno (opts ++ b';' ∷ format) args ≡ some r
    → Ends basename opts r
unfolding flail
flail-Ends p basename opts format handler errno args r n l h e = OnSome-of (Ends basename opts) e (
    map-imply (Obeyed opts format (fresh_options handler errno)) (Ends basename opts)
      (report p basename) (obey_all (opts ++ b';' ∷ format) args (fresh_options handler errno))
      (λ (rest, left, u) (x, (a, b)).
        let (shown, begins) =
          shows_if u.output (message p basename rest left u.my_errno) u.method basename
            (message-said p basename rest left u.my_errno n l) in
        (exits_if u.should_exit u.should_return u.value ∙ a, shown ∙ b, begins))
      (obey_all-Obeyed opts format args (fresh_options handler errno) h))

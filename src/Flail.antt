-- ===== src/Flail.antt =====
-- The error routine of old/flail.c: letters in front of a format say what to clean up and how to end.
pub mod Outcome
use alib4c.Common.{
  ℕ, zero, suc, ◌+◌, ℤ, pos, negsuc, Bool, true, false, not, ◌&&◌, Option, none, some, List, [],
  ◌∷◌, ◌++◌, ◌==◌, if◌then◌else◌, take,
}
use mathlib.Core.Option
use alib4c.World.{Ptr}

-- A variable argument, of the type that it was passed with.
pub data Arg : Type 0 where
  int_arg : ℤ → Arg
  ptr_arg : Ptr → Arg
  str_arg : List ℕ → Arg
  handler_arg : ℕ → Arg

-- the letters, and what is none of them
pub data Letter : Type 0 where
  close_it free_it value_it return_it exit_it errno_it output_it remove_it handler_it nothing :
      Letter

pub data Deed : Type 0 where
  closed : ℤ → Deed
  freed_ptr : Ptr → Deed
  removed : List ℕ → Deed

-- The variables of flail; a handler is a number.
pub record Options : Type 0 where
  pub deeds : List Deed
  pub my_errno : ℤ
  pub should_exit : Bool
  pub value : ℤ
  pub should_return : Bool
  pub output : Bool
  pub method : ℕ

unfoldable pub letter_of : ℕ → Letter
letter_of c =
    if c == b'f'
    then close_it
    else (if c == b'm'
        then free_it
        else (if c == b'v'
            then value_it
            else (if c == b'r'
                then return_it
                else (if c == b'q'
                    then exit_it
                    else (if c == b'e'
                        then errno_it
                        else (if c == b'o'
                            then output_it
                            else (if c == b'R'
                                then remove_it
                                else (if c == b'h' then handler_it else nothing))))))))

-- va_arg of a type. An argument that is missing or has another type is undefined behaviour, `none`.
abbrev pub next_int : List Arg → Option (ℤ × List Arg)
next_int (int_arg n ∷ args) = some (n, args)
next_int _ = none

abbrev pub next_ptr : List Arg → Option (Ptr × List Arg)
next_ptr (ptr_arg p ∷ args) = some (p, args)
next_ptr _ = none

abbrev pub next_str : List Arg → Option (List ℕ × List Arg)
next_str (str_arg s ∷ args) = some (s, args)
next_str _ = none

abbrev pub next_handler : List Arg → Option (ℕ × List Arg)
next_handler (handler_arg f ∷ args) = some (f, args)
next_handler _ = none

-- One letter.
unfoldable pub obey : Letter → List Arg → Options → Option (List Arg × Options)
obey close_it args o =
    Option.map (λ (n, left). (left, record o { deeds = o.deeds ++ closed n ∷ [] })) (next_int args)
obey free_it args o =
    Option.map (λ (p, left). (left, record o { deeds = o.deeds ++ freed_ptr p ∷ [] }))
      (next_ptr args)
obey value_it args o = Option.map (λ (n, left). (left, record o { value = n })) (next_int args)
obey return_it args o = some (args, record o { should_return = true })
obey exit_it args o = some (args, record o { should_exit = true })
obey errno_it args o = Option.map (λ (n, left). (left, record o { my_errno = n })) (next_int args)
obey output_it args o = some (args, record o { output = true })
obey remove_it args o =
    Option.map (λ (s, left). (left, record o { deeds = o.deeds ++ removed s ∷ [] })) (next_str args)
obey handler_it args o =
    Option.map (λ (f, left). (left, record o { method = f })) (next_handler args)
obey nothing args o = some (args, o)

-- The loop up to the semicolon: the format behind it, the arguments that are left, the variables. A
-- format without one is read past its end.
unfoldable pub obey_all : List ℕ → List Arg → Options → Option (List ℕ × List Arg × Options)
obey_all [] args o = none
obey_all (c ∷ format) args o =
    let more = λ (rest : List Arg × Options). obey_all format rest.0 rest.1 in
    if c == b';'
    then some (format, args, o)
    else (elim (obey (letter_of c) args o) [ none ↦ none | some rest ↦ more rest ])

-- What the output handler is given: a text, or a buffer that was never written.
pub data Message : Type 0 where
  said : List ℕ → Message
  unwritten : Message

-- Printing is the library's: vsnprintf of a format and its arguments, and the text of an errno.
pub record Printer : Type 0 where
  pub vsnprintf : List ℕ → List Arg → List ℕ
  pub strerror : ℤ → List ℕ

abbrev pub is_set : ℤ → Bool
is_set (pos zero) = false
is_set _ = true

abbrev pub is_empty : List ℕ → Bool
is_empty [] = true
is_empty (c ∷ s) = false

-- ": "
abbrev pub separator : List ℕ
separator = b':' ∷ b' ' ∷ []

-- buf_size - 1
abbrev pub buf_room : ℕ
buf_room = 1023

unfoldable pub message : Printer → List ℕ → List ℕ → List Arg → ℤ → Message
message p basename format args e =
    let tmp = take buf_room (p.vsnprintf format args) in
    if not (is_empty basename)
    then (if is_set e
        then said (take buf_room (basename ++ separator ++ tmp ++ separator ++ p.strerror e))
        else said (take buf_room (basename ++ separator ++ tmp)))
    else (if is_set e then said (take buf_room (tmp ++ separator ++ p.strerror e)) else unwritten)

-- How flail ends, and what it has done on the way.
pub data Ended : Type 0 where
  exited : ℤ → Ended
  returned : ℤ → Ended

pub record Report : Type 0 where
  pub done : List Deed
  pub shown : Option (Message × ℕ)
  pub ended : Ended

abbrev pub ending : Options → Ended
ending o =
    if o.should_exit
    then exited o.value
    else (if o.should_return then returned o.value else returned (pos 0))

abbrev pub fresh_options : ℕ → ℤ → Options
fresh_options handler errno = record {
  deeds = [];
  my_errno = errno;
  should_exit = false;
  value = pos 0;
  should_return = false;
  output = false;
  method = handler;
}

abbrev pub report : Printer → List ℕ → List ℕ × List Arg × Options → Report
report p basename (rest, left, o) = record {
  done = o.deeds;
  shown = if o.output then some (message p basename rest left o.my_errno, o.method) else none;
  ended = ending o;
}

-- `basename`, `handler` and `errno` are the variables of the program.
unfoldable pub flail : Printer → List ℕ → ℕ → ℤ → List ℕ → List Arg → Option Report
flail p basename handler errno format args =
    Option.map (report p basename) (obey_all format args (fresh_options handler errno))

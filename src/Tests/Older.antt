-- ===== src/Tests/Older.antt =====
-- A vsnprintf of the older kind and one of ISO C, an error module, a host on which unlink fails, and a
-- printer that prints the format.
use alib4c.Common.{
  ◌++◌, ℕ, ◌≡◌, refl, pos, Bool, true, false, none, some, List, [], ◌∷◌, ltb, if◌then◌else◌, arith,
  not,
}
use alib4c.World.{Returns, ok}
use alib4c.Format.{Vsnprintf, a_vsprintf_find_len}
use alib4c.Format.Sizes.{Refuses, find_len-Refuses}
use alib4c.Trace.{Module, Trace}
use alib4c.Clean.{
  CleanCall, clean_fd, clean_free, clean_unlink, Action, close_fd, unlink_file, Host, a_clean_vargs,
}
use alib4c.Clean.Thorough.{clean_vargs-thorough}
use alib4c.Flail.{
  Printer, Report, closed, said, exited, int_arg, letter_of, obey, obey_all, message, flail,
}
use alib4c.Flail.Outcome.{Ends, flail-Ends}
use alib4c.Tests.Samples.{ready}

-- "ok"
abbrev ok_text : List ℕ
ok_text = b'o' ∷ b'k' ∷ []

abbrev older : Vsnprintf
older n = if ltb 2 n then (some 2, ok_text) else (none, [])

older-Refuses : Refuses older ok_text
older-Refuses n = ((λ h. ground (arith, h)), (λ h. ground (arith, h)))

find_len-Refuses_example : a_vsprintf_find_len 3 older 1 ≡ some 3
find_len-Refuses_example = find_len-Refuses older ok_text 1 older-Refuses (omega arith)

-- The argument 500 is made of any value, and has a text.
abbrev errno_module : Module
errno_module = record {
  add = λ value. ok 500;
  string = λ arg out. ok (some ok_text);
  has_free_arg = true;
  has_string = true;
}

abbrev no_errors : Trace
no_errors = record { items = []; malloc_failed = false }

abbrev is_unlink : Action → Bool
is_unlink (unlink_file file) = true
is_unlink _ = false

abbrev host : Host
host = record {
  succeeds = λ action. not (is_unlink action);
  posix = errno_module;
  stdc = errno_module;
}

abbrev three_calls : List CleanCall
three_calls = clean_unlink ok_text ∷ clean_fd (pos 7) ∷ clean_free 0 ∷ []

clean_vargs-thorough_example :
    Returns
      (a_clean_vargs host three_calls (record { actions = []; trace = no_errors }) ready)
      (λ (status, e) v. (e.actions ≡ unlink_file ok_text ∷ close_fd (pos 7) ∷ []) × (status ≡ true))
clean_vargs-thorough_example =
    clean_vargs-thorough host three_calls (record { actions = []; trace = no_errors }) ready
      (λ value w. (_, _, refl, tt)) (λ value w. (_, _, refl, tt))

abbrev printer : Printer
printer = record { vsnprintf = λ format args. format; strerror = λ e. ok_text }

-- "fqo", with a file descriptor to close
abbrev letters : List ℕ
letters = b'f' ∷ b'q' ∷ b'o' ∷ []

abbrev last_words : Report
last_words = record {
  done = closed (pos 7) ∷ [];
  shown = some (said (b'p' ∷ b':' ∷ b' ' ∷ ok_text), 1);
  ended = exited (pos 0);
}

flail_run :
    flail printer (b'p' ∷ []) 1 (pos 0) (letters ++ b';' ∷ ok_text) (int_arg (pos 7) ∷ [])
    ≡ some last_words
unfolding flail obey_all obey letter_of message
flail_run = refl

flail-Ends_example : Ends (b'p' ∷ []) letters last_words
flail-Ends_example =
    flail-Ends printer (b'p' ∷ []) letters ok_text 1 (pos 0) (int_arg (pos 7) ∷ []) last_words
      (λ e. cc e) (omega arith) (ground arith, (ground arith, (ground arith, tt))) flail_run

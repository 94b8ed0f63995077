-- ===== src/Socket/Copying.antt =====
-- What write_file of a/to_do/socket.c copies.
use alib4c.Common.{
  ℕ, ◌≡◌, refl, sym, ap, ◌∙◌, Bool, true, false, Option, none, some, List, [], ◌∷◌, ◌++◌, take,
  drop, take-drop,
}
use mathlib.Core.List.{append-nil, append_assoc}
use alib4c.Socket.{
  Ended, exited, recv_waits, write_waits, piped, RoundEnd, all_written, write_failed, no_answer,
  Round, write_rest, write_round, next_round, write_file,
}

-- the bytes of the rounds up to an error of recv or the round in which SIGPIPE arrives
abbrev pub received : List Round → List ℕ
received [] = []
received ((none, pipe) ∷ rounds) = []
received ((some bytes, true) ∷ rounds) = bytes
received ((some bytes, false) ∷ rounds) = bytes ++ received rounds

-- whether the copying has come to an end, or to a wait, between two rounds
abbrev pub between : Ended → Bool
between recv_waits = true
between piped = true
between exited = false
between write_waits = false

-- A part of the bytes from the front is behind what was in the file, or all of them.
abbrev pub Sends : List ℕ → List ℕ → Bool → List ℕ → Type 0
Sends bytes file whole out =
    (sent : List ℕ) × (left : List ℕ) × (out ≡ file ++ sent)
    × (bytes ≡ sent ++ left)
    × (whole ≡ true → left ≡ [])

abbrev is_done : RoundEnd → Bool
is_done all_written = true
is_done write_failed = false
is_done no_answer = false

Sends-none : (bytes file : List ℕ) → Sends bytes file false file
Sends-none bytes file = ([], bytes, sym (append-nil file), refl, λ g. absurd (cc g))

-- some bytes went to the file, and then some of the rest
Sends-behind :
    (n : ℕ) (bytes file : List ℕ) (e : Bool) (out : List ℕ)
    → Sends (drop n bytes) (file ++ take n bytes) e out
    → Sends bytes file e out
Sends-behind n bytes file e out (sent, left, o, b, h) = (
  take n bytes ++ sent,
  left,
  o ∙ append_assoc file (take n bytes) sent,
  sym (take-drop n bytes)
      ∙ ap (λ s. take n bytes ++ s) b
      ∙ sym (append_assoc (take n bytes) sent left),
  h,
)

write_rest-Sends :
    (answers : List (Option ℕ)) (bytes file : List ℕ)
    → Sends bytes file (is_done (write_rest answers bytes file).0) (write_rest answers bytes file).1
unfolding write_rest
write_rest-Sends answers [] file = ([], [], sym (append-nil file), refl, λ g. refl)
write_rest-Sends [] (b ∷ left) file = Sends-none (b ∷ left) file
write_rest-Sends (none ∷ answers) (b ∷ left) file = Sends-none (b ∷ left) file
write_rest-Sends (some n ∷ answers) (b ∷ left) file =
    Sends-behind n (b ∷ left) file _ _
      (write_rest-Sends answers (drop n (b ∷ left)) (file ++ take n (b ∷ left)))

write_round-Sends :
    (answers : List (Option ℕ)) (bytes file : List ℕ)
    → Sends bytes file
        (is_done (write_round answers bytes file).0)
        (write_round answers bytes file).1
unfolding write_round
write_round-Sends [] bytes file = Sends-none bytes file
write_round-Sends (none ∷ answers) bytes file = Sends-none bytes file
write_round-Sends (some n ∷ answers) bytes file =
    Sends-behind n bytes file _ _ (write_rest-Sends answers (drop n bytes) (file ++ take n bytes))

-- a whole round, and then some of the rest
Sends-append :
    (bytes more file mid : List ℕ) (e : Bool) (out : List ℕ)
    → mid ≡ file ++ bytes
    → Sends more mid e out
    → Sends (bytes ++ more) file e out
Sends-append bytes more file mid e out m (sent, left, o, b, h) = (
  bytes ++ sent,
  left,
  o ∙ ap (λ s. s ++ sent) m ∙ append_assoc file bytes sent,
  ap (λ s. bytes ++ s) b ∙ sym (append_assoc bytes sent left),
  h,
)

-- Whatever recv and write answer, write_file puts the bytes that it receives behind what is in the file,
-- in order, and each once, however few of them a write takes: all of them where it waits for recv or
-- SIGPIPE has ended it, and else, where it waits for write or exits, a part from the front.
pub write_file-Sends :
    (rounds : List Round) (answers : List (Option ℕ)) (file : List ℕ)
    → Sends
        (received rounds)
        file
        (between (write_file rounds answers file).0)
        (write_file rounds answers file).1
unfolding write_file next_round
write_file-Sends [] answers file = ([], [], sym (append-nil file), refl, λ g. refl)
write_file-Sends ((none, pipe) ∷ rounds) answers file = Sends-none [] file
write_file-Sends ((some bytes, pipe) ∷ rounds) answers file =
    go pipe (write_round answers bytes file) (write_round-Sends answers bytes file)
      (λ f ws. write_file-Sends rounds ws f)
  where
    whole : (f : List ℕ) → Sends bytes file true f → f ≡ file ++ bytes
    whole f (sent, left, o, p, h) =
        o ∙ ap (λ s. file ++ s) (sym (append-nil sent) ∙ ap (λ l. sent ++ l) (sym (h refl)) ∙ sym p)

    part :
        (p : Bool) (f : List ℕ)
        → Sends bytes file false f
        → Sends (received ((some bytes, p) ∷ rounds)) file false f
    part true f s = s
    part false f (sent, left, o, q, h) = (
      sent,
      left ++ received rounds,
      o,
      ap (λ s. s ++ received rounds) q ∙ append_assoc sent left (received rounds),
      λ g. absurd (cc g),
    )

    go :
        (p : Bool) (r : RoundEnd × List ℕ × List (Option ℕ))
        → Sends bytes file (is_done r.0) r.1
        → ((f : List ℕ) (ws : List (Option ℕ))
            → Sends
                (received rounds)
                f
                (between (write_file rounds ws f).0)
                (write_file rounds ws f).1)
        → Sends
            (received ((some bytes, p) ∷ rounds))
            file
            (between (next_round (λ f ws. write_file rounds ws f) p r).0)
            (next_round (λ f ws. write_file rounds ws f) p r).1
    go true (all_written, f, ws) s more = s
    go false (all_written, f, ws) s more =
        Sends-append bytes (received rounds) file f _ _ (whole f s) (more f ws)
    go p (write_failed, f, ws) s more = part p f s
    go p (no_answer, f, ws) s more = part p f s

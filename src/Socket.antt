-- ===== src/Socket.antt =====
-- The helpers of a/to_do/socket.c. The calls of the system are parameters, and error_test ends the
-- process when what it tests is true.
pub mod Copying
pub mod Opening
use alib4c.Common.{
  ℕ, zero, suc, ◌+◌, ◌-◌, ◌^◌, Bool, true, false, Option, none, some, List, [], ◌∷◌, ◌++◌, ◌==◌,
  if◌then◌else◌, length, take, drop,
}
use mathlib.Core.Option

-- INADDR_NONE
abbrev pub inaddr_none : ℕ
inaddr_none = 2 ^ 32 - 1

-- inet_addr and gethostbyname; none is the end of the process by exit(1).
unfoldable pub resolve : (List ℕ → ℕ) → (List ℕ → Option ℕ) → List ℕ → Option ℕ
resolve inet_addr gethostbyname hostname =
    let addr = inet_addr hostname in
    if addr == inaddr_none then gethostbyname hostname else some addr

-- A call of the system that a helper makes with a socket.
pub data Call : Type 0 where
  make_socket : Call
  bind_any : ℕ → ℕ → Call
  connect_to : ℕ → ℕ → ℕ → Call
  listen_on : ℕ → Call
  accept_on : ℕ → Call
  shut_down : ℕ → Call

-- What the calls answer: a descriptor, or none for an error; the calls without one answer any number.
abbrev pub Answers : Type 0
Answers = Call → Option ℕ

-- The result of a helper, or none for exit(1), and the calls, the first at the front.
abbrev pub Result : Type 0
Result = Option ℕ × List Call

unfoldable pub tested : Answers → Call → (ℕ → Result) → Result
tested answers c go_on = elim (answers c) [
  | none ↦ (none, c ∷ [])
  | some fd ↦ (let (r, calls) = go_on fd in (r, c ∷ calls))
]

unfoldable pub shutdown_socket : Answers → ℕ → Result → Result
shutdown_socket answers fd go_on = tested answers (shut_down fd) (λ n. go_on)

-- `addr` is what resolve gives for the host. The port of the local side is 0.
unfoldable pub connect_socket : Answers → Option ℕ → ℕ → Result
connect_socket answers addr port = tested answers make_socket (λ fd.
    tested answers (bind_any fd 0) (λ n. elim addr [
      | none ↦ (none, [])
      | some a ↦ tested answers (connect_to fd a port) (λ m. (some fd, []))
    ]))

unfoldable pub listen_socket : Answers → ℕ → Result
listen_socket answers port = tested answers make_socket (λ fd.
    tested answers (bind_any fd port) (λ n. tested answers (listen_on fd) (λ m.
      tested answers (accept_on fd) (λ client. shutdown_socket answers fd (some client, [])))))

-- How write_file ends: the process exits, or it waits for recv or for write, or SIGPIPE has ended its
-- loop.
pub data Ended : Type 0 where
  exited recv_waits write_waits piped : Ended

-- What recv has given in a round, none for an error, and whether SIGPIPE arrives in the round.
abbrev pub Round : Type 0
Round = Option (List ℕ) × Bool

-- How a round ends.
pub data RoundEnd : Type 0 where
  all_written write_failed no_answer : RoundEnd

-- The inner loop of write_file: what is left to write, and the file so far. The answers are those of
-- write, none for an error; write takes no more than it is given.
unfoldable pub write_rest : List (Option ℕ) → List ℕ → List ℕ → RoundEnd × List ℕ × List (Option ℕ)
write_rest answers [] file = (all_written, file, answers)
write_rest [] (b ∷ left) file = (no_answer, file, [])
write_rest (none ∷ answers) (b ∷ left) file = (write_failed, file, answers)
write_rest (some n ∷ answers) (b ∷ left) file =
    write_rest answers (drop n (b ∷ left)) (file ++ take n (b ∷ left))

-- The first write of a round, which is made even when there is nothing to write.
unfoldable pub write_round : List (Option ℕ) → List ℕ → List ℕ → RoundEnd × List ℕ × List (Option ℕ)
write_round [] bytes file = (no_answer, file, [])
write_round (none ∷ answers) bytes file = (write_failed, file, answers)
write_round (some n ∷ answers) bytes file = write_rest answers (drop n bytes) (file ++ take n bytes)

unfoldable pub next_round :
    (List ℕ → List (Option ℕ) → Ended × List ℕ)
    → Bool
    → RoundEnd × List ℕ × List (Option ℕ)
    → Ended × List ℕ
next_round again pipe (all_written, file, answers) =
    if pipe then (piped, file) else again file answers
next_round again pipe (write_failed, file, answers) = (exited, file)
next_round again pipe (no_answer, file, answers) = (write_waits, file)

-- The loop of write_file: how it ends, and what is in the file. A recv of 0 bytes, the end of the
-- stream, goes round as any other.
unfoldable pub write_file : List Round → List (Option ℕ) → List ℕ → Ended × List ℕ
write_file [] answers file = (recv_waits, file)
write_file ((none, pipe) ∷ rounds) answers file = (exited, file)
write_file ((some bytes, pipe) ∷ rounds) answers file =
    next_round (λ f ws. write_file rounds ws f) pipe (write_round answers bytes file)

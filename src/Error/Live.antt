-- ===== src/Error/Live.antt =====
-- The error stack holds no freed node, and the functions of a/error.c that push on it return.
use alib4c.Common.{
  ℕ, zero, suc, ◌≡◌, refl, ◌∙◌, ℤ, Bool, true, false, List, ◌∷◌, ◌++◌, arith, if◌then◌else◌,
  replicate, Bool-cases, inl, inr,
}
use alib4c.World.{
  Ptr, ErrorMod, alib, no_error, perror, stack_alloc, ErrorStack, empty, static_alloc_error, entry,
  dangling, block_freed, World, ok, fault, head_or_false, rest, Event, ◌>>◌,
}
use alib4c.World.Log.{freed}
use alib4c.Error.{
  success, other, a_error_stack_free, a_error_stack, a_error_stack_macro_helper,
  a_error_get_alib_code, alib_code_of, a_error_code_ret, a_error_ret,
}

abbrev pub IsLive : ErrorStack → Type 0
IsLive empty = Unit
IsLive static_alloc_error = Unit
IsLive (entry m c prev) = IsLive prev
IsLive dangling = ⊥

abbrev pub nodes : ErrorStack → ℕ
nodes (entry m c prev) = suc (nodes prev)
nodes _ = 0

-- `n` blocks given back, the latest first
abbrev pub blocks : ℕ → List Event → List Event
blocks n log = replicate n block_freed ++ log

-- Freeing a live stack returns, and frees each of its nodes once.
pub a_error_stack_free-blocks :
    (s : ErrorStack) (w : World)
    → IsLive s
    → a_error_stack_free s w ≡ ok tt (record w { log = blocks (nodes s) w.log })
unfolding a_error_stack_free
a_error_stack_free-blocks empty w h = refl
a_error_stack_free-blocks static_alloc_error w h = refl
a_error_stack_free-blocks (entry m c prev) w h = rw (a_error_stack_free-blocks prev w h)
a_error_stack_free-blocks dangling w h = absurd h

-- The world after a push of a module and a code: a new node on top, or, where malloc fails, the
-- static node in place of the old stack, whose nodes are freed.
abbrev pub pushed : ErrorMod → ℤ → World → World
pushed m c w =
    if head_or_false w.mallocs
    then record w { mallocs = rest w.mallocs; errors = entry m c w.errors }
    else record w {
      mallocs = rest w.mallocs;
      errors = static_alloc_error;
      log = blocks (nodes w.errors) w.log;
    }

pub pushed-IsLive :
    (m : ErrorMod) (c : ℤ) (w : World) → IsLive w.errors → IsLive (pushed m c w).errors
pushed-IsLive m c w h = ground arith

-- the code that the helper stores
abbrev pub stored : Bool → ErrorMod → ℤ → World → ℤ
stored b m code w = if b then w.errno else code

a_error_stack-pushed :
    (m : ErrorMod) (c : ℤ) (w : World)
    → IsLive w.errors
    → a_error_stack m c w.errors w
      ≡ ok (pushed m c w).errors (record (pushed m c w) { errors = w.errors })
unfolding a_error_stack
a_error_stack-pushed m c w h = elim (Bool-cases (head_or_false w.mallocs)) [
  | inl e ↦ rw e
  | inr e ↦ rw (e, a_error_stack_free-blocks w.errors _ h)
]

-- what the helper may be called with: only `perror` has a `getcode`
abbrev pub HasCode : Bool → ErrorMod → Type 0
HasCode true perror = Unit
HasCode true m = ⊥
HasCode false m = Unit

-- On a live stack the helper with `start` unset returns, where no code is asked for or the module is
-- perror: it leaves the world that `pushed` describes, with a live stack.
pub helper-pushed :
    (m : ErrorMod) (b : Bool) (code : ℤ) (w : World)
    → IsLive w.errors
    → HasCode b m
    → (a_error_stack_macro_helper m b code false w ≡ ok tt (pushed m (stored b m code w) w))
      × IsLive (pushed m (stored b m code w) w).errors
unfolding a_error_stack_macro_helper
helper-pushed m false code w h g =
    (rw (a_error_stack-pushed m code w h) (ground arith), ground arith)
helper-pushed perror true code w h g =
    (rw (a_error_stack-pushed perror w.errno w h) (ground arith), ground arith)
helper-pushed alib true code w h g = absurd g
helper-pushed no_error true code w h g = absurd g
helper-pushed stack_alloc true code w h g = absurd g

-- a failed system call, as the callers report it: the value, in the world after the push
pub error_ret-pushed {ℓ} :
    {A : Type ℓ} (a : A) (w : World)
    → IsLive w.errors
    → a_error_ret perror a w ≡ ok a (pushed perror w.errno w)
error_ret-pushed a w h = rw (helper-pushed perror true success w h tt).0

pub error_code_ret-pushed {ℓ} :
    {A : Type ℓ} (m : ErrorMod) (c : ℤ) (a : A) (w : World)
    → IsLive w.errors
    → a_error_code_ret m c a w ≡ ok a (pushed m c w)
error_code_ret-pushed m c a w h = rw (helper-pushed m false c w h tt).0

-- the world after a failed system call whose report is asked for as a code of alib
abbrev pub reported : World → World
reported w = pushed alib other (pushed perror w.errno w)

pub reported-IsLive : (w : World) → IsLive w.errors → IsLive (reported w).errors
reported-IsLive w h =
    pushed-IsLive alib other (pushed perror w.errno w) (pushed-IsLive perror w.errno w h)

-- the report of a failed system call, and that of the caller after it
pub error_code_ret-reported {ℓ} :
    {A : Type ℓ} (a : A) (w : World)
    → IsLive w.errors
    → a_error_code_ret alib other a (pushed perror w.errno w) ≡ ok a (reported w)
error_code_ret-reported a w h =
    error_code_ret-pushed alib other a (pushed perror w.errno w) (pushed-IsLive perror w.errno w h)

-- the top of the stack is there, and no node of alib
abbrev pub IsForeign : ErrorStack → Type 0
IsForeign empty = ⊥
IsForeign (entry alib c prev) = ⊥
IsForeign (entry m c prev) = Unit
IsForeign static_alloc_error = Unit
IsForeign dangling = ⊥

alib_code_of-Foreign :
    (s : ErrorStack) (w : World)
    → IsForeign s
    → IsLive w.errors
    → alib_code_of s w ≡ ok other (pushed alib other w)
unfolding alib_code_of
alib_code_of-Foreign empty w f h = absurd f
alib_code_of-Foreign (entry alib c prev) w f h = absurd f
alib_code_of-Foreign (entry no_error c prev) w f h = error_code_ret-pushed alib other other w h
alib_code_of-Foreign (entry perror c prev) w f h = error_code_ret-pushed alib other other w h
alib_code_of-Foreign (entry stack_alloc c prev) w f h = error_code_ret-pushed alib other other w h
alib_code_of-Foreign static_alloc_error w f h = error_code_ret-pushed alib other other w h
alib_code_of-Foreign dangling w f h = absurd f

-- the code that a caller of a failed system call is given, and the world after that
pub get_alib_code-reported :
    (w : World)
    → IsLive w.errors
    → a_error_get_alib_code (pushed perror w.errno w) ≡ ok other (reported w)
unfolding a_error_get_alib_code
get_alib_code-reported w h =
    let failed : World = pushed perror w.errno w in
    let foreign : IsForeign failed.errors = ground arith in
    alib_code_of-Foreign failed.errors failed foreign (pushed-IsLive perror w.errno w h)

-- A failed system call is never reported as success: after `a_error_ret(perror, ...)` on a live
-- stack `a_error_get_alib_code` returns A_ERROR_OTHER, whether or not malloc has memory left for
-- the error stack, and the stack is live again.
pub get_alib_code-error_ret :
    (w : World)
    → IsLive w.errors
    → ((a_error_ret {A = Unit {0}} perror tt >> a_error_get_alib_code) w ≡ ok other (reported w))
      × IsLive (reported w).errors
get_alib_code-error_ret w h =
    (rw (error_ret-pushed {A = Unit {0}} tt w h) (get_alib_code-reported w h), reported-IsLive w h)

freed-blocks : (f : Ptr → ℕ) (n : ℕ) (log : List Event) → freed f (blocks n log) ≡ freed f log
freed-blocks f zero log = refl
freed-blocks f (suc n) log = freed-blocks f n log

freed-pushed :
    (f : Ptr → ℕ) (m : ErrorMod) (c : ℤ) (w : World) → freed f (pushed m c w).log ≡ freed f w.log
freed-pushed f m c w = ground (arith, freed-blocks f (nodes w.errors) w.log)

-- a report frees no key
pub freed-reported : (f : Ptr → ℕ) (w : World) → freed f (reported w).log ≡ freed f w.log
freed-reported f w =
    freed-pushed f alib other (pushed perror w.errno w) ∙ freed-pushed f perror w.errno w

-- With `start` set and no code asked for, the helper on a stack of one node above a live stack leaves
-- a node whose `ptr` is the freed stack, when malloc answers: freeing the stack afterwards is a second
-- free.
pub helper-start_dangles :
    (m : ErrorMod) (c : ℤ) (top : ErrorMod) (d : ℤ) (prev : ErrorStack) (ms : List Bool) (w : World)
    → IsLive prev
    → (v : World) × (a_error_stack_macro_helper m false c true
          (record w { errors = entry top d prev; mallocs = true ∷ ms })
        ≡ ok tt v)
      × (v.errors ≡ entry m c dangling)
      × (a_error_stack_free v.errors v ≡ fault)
unfolding a_error_stack_macro_helper a_error_stack
helper-start_dangles m c top d prev ms w h =
    let before : World = record w { errors = entry top d prev; mallocs = true ∷ ms } in
    (
      record w { mallocs = ms; errors = entry m c dangling; log = blocks (suc (nodes prev)) w.log },
      rw (a_error_stack_free-blocks (entry top d prev) before h) refl,
      refl,
      unfold a_error_stack_free in refl,
    )

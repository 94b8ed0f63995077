-- ===== src/Log.antt =====
-- The log of a/to_do/log.c, as it is built on Unix. The calls of the C library are parameters; a format
-- with its arguments is the text that they print.
pub mod Events
pub mod Fallback
pub mod Registry
pub mod Sessions
use alib4c.Common.{ℕ, Bool, true, false, Option, none, some, List, [], ◌∷◌, ◌==◌, if◌then◌else◌}
use mathlib.Core.Option
use alib4c.World.{Ptr, World, Run, M, ok, ◌>>=◌, ◌>>◌, pure, and_then}
use alib4c.Mem.{Block, a_free}
use alib4c.Util.{a_basename}
use alib4c.Format.{Vsnprintf, a_vsprintf_malloc}

-- A_LOG_NULL to A_LOG_FILE
abbrev pub log_null : ℕ
log_null = 0

abbrev pub log_syslog : ℕ
log_syslog = 1

abbrev pub log_stderr : ℕ
log_stderr = 2

abbrev pub log_file : ℕ
log_file = 3

-- a call of the C library, with the priority or the facility and the text
pub data Effect : Type 0 where
  opened_syslog : List ℕ → ℕ → Effect
  closed_syslog : Effect
  syslogged : ℕ → List ℕ → Effect
  to_stderr : List ℕ → Effect
  opened_file : List ℕ → Effect
  closed_file : Ptr → Effect

-- `previous` is what return_previous gives.
pub data Answer : Type 0 where
  succeeded failed previous : Answer

-- `sls`, and the calls made, the latest first
pub record LogState : Type 0 where
  pub type : ℕ
  pub file : Ptr
  pub effects : List Effect

-- `prints` says whether stderr takes a text.
pub record Console : Type 0 where
  pub fopen : List ℕ → Option Ptr
  pub fclose : Ptr → Bool
  pub prints : List ℕ → Bool

abbrev pub effect : Effect → LogState → LogState
effect e st = record st { effects = e ∷ st.effects }

unfoldable pub a_log_init_syslog : List ℕ → ℕ → LogState → Answer × LogState
a_log_init_syslog path facility st =
    (succeeded, effect (opened_syslog (a_basename path) facility) (record st { type = log_syslog }))

unfoldable pub a_log_init_stderr : LogState → Answer × LogState
a_log_init_stderr st = (succeeded, record st { type = log_stderr })

unfoldable pub a_log_init_null : LogState → Answer × LogState
a_log_init_null st = (succeeded, record st { type = log_null })

unfoldable pub a_log_str_syslog : ℕ → List ℕ → LogState → Answer × LogState
a_log_str_syslog prio str st = (succeeded, effect (syslogged prio str) st)

-- with vsyslog
unfoldable pub a_log_syslog : ℕ → List ℕ → LogState → Answer × LogState
a_log_syslog prio text st = (succeeded, effect (syslogged prio text) st)

unfoldable pub a_log_cleanup_syslog : LogState → Answer × LogState
a_log_cleanup_syslog st = (succeeded, effect closed_syslog st)

module _ (console : Console) where
  unfoldable pub a_log_init_file : List ℕ → LogState → Answer × LogState
  a_log_init_file filename st =
      let t = effect (opened_file filename) (record st { type = log_file }) in
      elim (console.fopen filename) [
        | none ↦ (failed, record t { file = 0 })
        | some p ↦ (succeeded, record t { file = p })
      ]

  unfoldable pub a_log_cleanup_file : LogState → Answer × LogState
  a_log_cleanup_file st =
      (if console.fclose st.file then succeeded else failed, effect (closed_file st.file) st)

  unfoldable pub a_log_cleanup : LogState → Answer × LogState
  a_log_cleanup st =
      if st.type == log_syslog
      then a_log_cleanup_syslog st
      else (if st.type == log_stderr
          then (succeeded, st)
          else (if st.type == log_null
              then (succeeded, st)
              else (if st.type == log_file then a_log_cleanup_file st else (failed, st))))

  -- a text to stderr
  abbrev pub print : List ℕ → LogState → Bool × LogState
  print text st = (console.prints text, effect (to_stderr text) st)

  unfoldable pub a_log_str_stderr : ℕ → List ℕ → LogState → Answer × LogState
  a_log_str_stderr prio str st =
      let (text_ok, t) = print str st in
      let (eol_ok, u) = print (10 ∷ []) t in
      if text_ok then (if eol_ok then (succeeded, u) else (failed, u)) else (failed, t)

  unfoldable pub a_log_stderr : ℕ → List ℕ → LogState → Answer × LogState
  a_log_stderr prio text st =
      let (text_ok, t) = print text st in (if text_ok then succeeded else failed, t)

  unfoldable pub a_log_vargs : ℕ → List ℕ → LogState → Answer × LogState
  a_log_vargs prio text st =
      if st.type == log_syslog
      then a_log_syslog prio text st
      else (if st.type == log_stderr
          then a_log_stderr prio text st
          else (if st.type == log_null then (succeeded, st) else (failed, st)))

  unfoldable pub a_log : ℕ → List ℕ → LogState → Answer × LogState
  a_log prio text st = (previous, (a_log_vargs prio text st).1)

  unfoldable pub a_log_str : ℕ → List ℕ → LogState → Answer × LogState
  a_log_str prio str st =
      if st.type == log_syslog
      then a_log_str_syslog prio str st
      else (if st.type == log_stderr
          then a_log_str_stderr prio str st
          else (if st.type == log_null then (succeeded, st) else (failed, st)))

  -- `formatted` is what a_fmterror_vargs gives, none for NULL. a_log_error is the same on variable
  -- arguments.
  unfoldable pub a_log_error_vargs : ℕ → Option (List ℕ) → LogState → Answer × LogState
  a_log_error_vargs prio none st = (previous, st)
  a_log_error_vargs prio (some formatted) st = (previous, (a_log_str prio formatted st).1)

  -- `error` is what a_strerror gives.
  unfoldable pub a_log_error_str : ℕ → Option (List ℕ) → LogState → Answer × LogState
  a_log_error_str prio none st = (previous, st)
  a_log_error_str prio (some error) st =
      let (answer, t) = a_log_str prio error st in
      (elim answer [ succeeded ↦ succeeded | _ ↦ previous ], t)

-- a_log_syslog without vsyslog: what it does with the text that a_vsprintf_malloc gives. `reports` says
-- whether a_log_str_syslog of a block reports an error. The two calls of a_free are given whether the
-- block is still there.
unfoldable pub log_formatted : (Block → Bool) → Option Block → M Answer
log_formatted reports none w = ok failed w
log_formatted reports (some tmp) w =
    (do
      alive ← (if reports tmp then pure true else (a_free (some tmp) true >>= λ freed. pure false))
      freed ← a_free (some tmp) alive
      pure succeeded)
      w

-- `none` is a search for the length that does not end.
unfoldable pub a_log_syslog_formatting :
    ℕ → Vsnprintf → ℕ → (Block → Bool) → World → Option (Run Answer)
a_log_syslog_formatting fuel vsnprintf fmt_len reports w =
    Option.map (λ run. and_then run (λ tmp. log_formatted reports tmp))
      (a_vsprintf_malloc fuel vsnprintf fmt_len w)

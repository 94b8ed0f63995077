-- ===== src/Log/Sessions.antt =====
-- A log of a/to_do/log.c from its opening to its cleanup.
use alib4c.Common.{ℕ, ◌≡◌, refl, Bool, true, false, some, List, [], ◌∷◌, if◌then◌else◌}
use alib4c.World.{Ptr}
use alib4c.Util.{a_basename}
use alib4c.Log.{
  Effect, opened_syslog, closed_syslog, syslogged, to_stderr, opened_file, closed_file, Answer,
  succeeded, failed, LogState, Console, a_log_init_syslog, a_log_init_stderr, a_log_init_null,
  a_log_str_syslog, a_log_cleanup_syslog, a_log_init_file, a_log_cleanup_file, a_log_cleanup,
  a_log_str_stderr, a_log_str,
}

module _ (console : Console) where
  -- A text logged in a log that was just opened, and the log cleaned up: the answers, and the calls.
  abbrev pub session : Answer × LogState → ℕ → List ℕ → Answer × Answer × Answer × List Effect
  session (opened, st) prio str =
      let (logged, t) = a_log_str console prio str st in
      let (closed, u) = a_log_cleanup console t in (opened, logged, closed, u.effects)

  abbrev pub closing : Ptr → Answer
  closing p = if console.fclose p then succeeded else failed

  -- the calls for a text and the end of its line, up to one that fails
  abbrev pub line_calls : List ℕ → List Effect → List Effect
  line_calls str before =
      if console.prints str
      then to_stderr (10 ∷ []) ∷ to_stderr str ∷ before
      else to_stderr str ∷ before

  abbrev pub line_answer : List ℕ → Answer
  line_answer str =
      if console.prints str
      then (if console.prints (10 ∷ []) then succeeded else failed)
      else failed

  -- Opened for syslog, under the last part of the path, a log gives the text to syslog and closes it in
  -- the end; for stderr it writes the text and the end of the line, up to a failure, and closes nothing;
  -- as the null log it does nothing. Opened for a file, it logs no text and reports an error, and closes
  -- the file.
  pub log_str-sessions :
      (path filename str : List ℕ) (facility prio : ℕ) (p : Ptr) (st : LogState)
      → console.fopen filename ≡ some p
      → (session (a_log_init_syslog path facility st) prio str ≡ (
        succeeded,
        succeeded,
        succeeded,
        closed_syslog ∷ syslogged prio str ∷ opened_syslog (a_basename path) facility ∷ st.effects,
      ))
        × (session (a_log_init_stderr st) prio str
            ≡ (succeeded, line_answer str, succeeded, line_calls str st.effects))
        × (session (a_log_init_null st) prio str ≡ (succeeded, succeeded, succeeded, st.effects))
        × (session (a_log_init_file console filename st) prio str
            ≡ (succeeded, failed, closing p, closed_file p ∷ opened_file filename ∷ st.effects))
  unfolding a_log_init_syslog a_log_init_stderr a_log_init_null a_log_init_file a_log_str
      a_log_str_syslog a_log_str_stderr a_log_cleanup a_log_cleanup_syslog a_log_cleanup_file
  log_str-sessions path filename str facility prio p st e =
      (refl, go (console.prints str) (console.prints (10 ∷ [])), refl, rw (e, a_log_init_file) refl)
    where
      go :
          (a b : Bool)
          → ◌≡◌ {A = Answer × Answer × Answer × List Effect}
              (let r : Answer × LogState =
                  if a
                  then (if b
                      then (
                        succeeded,
                        record st {
                          type = 2;
                          effects = to_stderr (10 ∷ []) ∷ to_stderr str ∷ st.effects;
                        },
                      )
                      else (
                        failed,
                        record st {
                          type = 2;
                          effects = to_stderr (10 ∷ []) ∷ to_stderr str ∷ st.effects;
                        },
                      ))
                  else (failed, record st { type = 2; effects = to_stderr str ∷ st.effects }) in
                (
                  succeeded,
                  r.0,
                  (a_log_cleanup console r.1).0,
                  (a_log_cleanup console r.1).1.effects,
                ))
              (
                succeeded,
                (if a then (if b then succeeded else failed) else failed),
                succeeded,
                (if a
                    then to_stderr (10 ∷ []) ∷ to_stderr str ∷ st.effects
                    else to_stderr str ∷ st.effects),
              )
      go true true = refl
      go true false = refl
      go false b = refl

-- ===== src/Daemon/Lifecycle.antt =====
-- What su_daemon_service_start of a/to_do/daemon.c calls, and what it tells the service manager last.
use alib4c.Common.{
  ℕ, ◌≡◌, refl, sym, ap, ◌∙◌, ◌⊎◌, inl, inr, Bool, true, false, not, Option, none, some, List, [],
  ◌∷◌, ◌==◌, if◌then◌else◌,
}
use alib4c.World.{head_or_false}
use alib4c.Daemon.{
  stopped, Status, Callback, init, run, stop, cleanup, Happening, told, called, complained, Opcode,
  control_stop, control_interrogate, control_other, Service, Host, complain, set_service_status,
  or_flail, report_status, su_daemon_starting, su_daemon_stopping, su_daemon_running, exit_status,
  su_daemon_stopped, su_daemon_status_init, call_now, or_complain, or_error_code, or_both, or_stop,
  su_daemon_ctrl_handler, handled, call_in, give_up, clean_and_give_up, after_cleanup,
  after_stopping, after_run, after_running, after_init, after_starting, su_daemon_service_start,
}

-- the calls of init, run and cleanup in a log, the latest first
abbrev pub main_calls : List Happening → List Callback
main_calls [] = []
main_calls (told st ok ∷ log) = main_calls log
main_calls (complained ∷ log) = main_calls log
main_calls (called stop ∷ log) = main_calls log
main_calls (called init ∷ log) = init ∷ main_calls log
main_calls (called run ∷ log) = run ∷ main_calls log
main_calls (called cleanup ∷ log) = cleanup ∷ main_calls log

-- what the service manager was told last
abbrev pub last_told : List Happening → Option Status
last_told [] = none
last_told (told st ok ∷ log) = some st
last_told (complained ∷ log) = last_told log
last_told (called c ∷ log) = last_told log

abbrev pub Stopped : Status → Type 0
Stopped st = (st.state ≡ stopped) × (st.check_point ≡ 0) × (st.wait_hint ≡ 0)

if-Stopped : (b : Bool) (x y : Status) → Stopped x → Stopped y → Stopped (if b then x else y)
if-Stopped true x y h g = h
if-Stopped false x y h g = g

pub exit_status-Stopped : (n m : ℕ) (st : Status) → Stopped st → Stopped (exit_status n m st)
unfolding exit_status
exit_status-Stopped n m st h = if-Stopped (n == 0) _ _ (if-Stopped (m == 0) _ _ h h) h

pub not-false : (b : Bool) → not b ≡ false → b ≡ true
not-false true e = refl
not-false false e = absurd (cc e)

pub not-true : (b : Bool) → not b ≡ true → b ≡ false
not-true true e = absurd (cc e)
not-true false e = refl

module _ {S : Type 0} where
  abbrev pub mains : Service S → List Callback
  mains s = main_calls s.log

  or_flail-mains : (r : Bool × Service S) → mains (or_flail r).1 ≡ mains r.1
  unfolding or_flail
  or_flail-mains (true, s) = refl
  or_flail-mains (false, s) = refl

  or_flail-answer : (b : Bool) (s : Service S) → (or_flail (b, s)).0 ≡ not b
  unfolding or_flail
  or_flail-answer true s = refl
  or_flail-answer false s = refl

  report_status-mains : (s : Service S) → mains (report_status s).1 ≡ mains s
  unfolding report_status set_service_status
  report_status-mains s = or_flail-mains (set_service_status s)

  starting-mains : (s : Service S) → mains (su_daemon_starting s).1 ≡ mains s
  unfolding su_daemon_starting
  starting-mains s = report_status-mains _

  stopping-mains : (s : Service S) → mains (su_daemon_stopping s).1 ≡ mains s
  unfolding su_daemon_stopping
  stopping-mains s = report_status-mains _

  running-mains : (s : Service S) → mains (su_daemon_running s).1 ≡ mains s
  unfolding su_daemon_running
  running-mains s = report_status-mains _

  stopped-mains : (n : ℕ) (s : Service S) → mains (su_daemon_stopped n s).1 ≡ mains s
  unfolding su_daemon_stopped
  stopped-mains n s = report_status-mains _

  -- the service is over, and the service manager was told so last
  abbrev pub Over : Service S → Type 0
  Over s = Stopped s.status × (last_told s.log ≡ some s.status)

  or_flail-Over : (r : Bool × Service S) → Over r.1 → Over (or_flail r).1
  unfolding or_flail
  or_flail-Over (true, s) h = h
  or_flail-Over (false, s) h = h

  report_status-Over : (s : Service S) → Stopped s.status → Over (report_status s).1
  unfolding report_status set_service_status
  report_status-Over s h = or_flail-Over (set_service_status s) (h, refl)

  stopped-Over : (n : ℕ) (s : Service S) → Over (su_daemon_stopped n s).1
  unfolding su_daemon_stopped
  stopped-Over n s = report_status-Over _ (exit_status-Stopped n s.error_code _ (refl, refl, refl))

module _ {S : Type 0} (host : Host S) where
  or_complain-mains : (r : Bool × Service S) → mains (or_complain host r) ≡ mains r.1
  unfolding or_complain
  or_complain-mains (true, s) = refl
  or_complain-mains (false, s) = refl

  or_error_code-mains : (r : Bool × Service S) → mains (or_error_code host r) ≡ mains r.1
  unfolding or_error_code
  or_error_code-mains (true, s) = refl
  or_error_code-mains (false, s) = refl

  or_both-mains : (r : Bool × Service S) → mains (or_both host r) ≡ mains r.1
  unfolding or_both
  or_both-mains (true, s) = refl
  or_both-mains (false, s) = refl

  or_stop-mains : (r : Bool × Service S) → mains (or_stop host r) ≡ mains r.1
  unfolding or_stop call_now
  or_stop-mains (true, s) = refl
  or_stop-mains (false, s) = or_complain-mains _ ∙ stopping-mains (complain s)

  handler-mains : (o : Opcode) (s : Service S) → mains (su_daemon_ctrl_handler host o s) ≡ mains s
  unfolding su_daemon_ctrl_handler call_now set_service_status
  handler-mains control_stop s = or_both-mains _ ∙ or_error_code-mains _ ∙ stopping-mains s
  handler-mains control_interrogate s = or_stop-mains _
  handler-mains (control_other n) s = or_stop-mains _

  handled-mains : (os : List Opcode) (s : Service S) → mains (handled host os s) ≡ mains s
  unfolding handled
  handled-mains [] s = refl
  handled-mains (o ∷ os) s = handled-mains os (su_daemon_ctrl_handler host o s) ∙ handler-mains o s

  call_in-cleanup : (s : Service S) → mains (call_in host cleanup s).1 ≡ cleanup ∷ mains s
  unfolding call_in call_now
  call_in-cleanup s = ap (λ l. cleanup ∷ l) (handled-mains (host.controls cleanup) s)

  call_in-run : (s : Service S) → mains (call_in host run s).1 ≡ run ∷ mains s
  unfolding call_in call_now
  call_in-run s = ap (λ l. run ∷ l) (handled-mains (host.controls run) s)

  call_in-init : (s : Service S) → mains (call_in host init s).1 ≡ init ∷ mains s
  unfolding call_in call_now
  call_in-init s = ap (λ l. init ∷ l) (handled-mains (host.controls init) s)

  -- the service is over after these calls
  abbrev Done : List Callback → Service S → Type 0
  Done l s = (mains s ≡ l) × Over s

  give_up-Done : (s : Service S) (l : List Callback) → mains s ≡ l → Done l (give_up host s)
  unfolding give_up
  give_up-Done s l e = (stopped-mains 1 s ∙ e, stopped-Over 1 s)

  clean-Done :
      (s : Service S) (l : List Callback)
      → mains s ≡ l
      → Done (cleanup ∷ l) (clean_and_give_up host s)
  unfolding clean_and_give_up
  clean-Done s l e =
      give_up-Done _ _ (or_complain-mains _ ∙ call_in-cleanup s ∙ ap (λ c. cleanup ∷ c) e)

  complained-Done :
      (r : Bool × Service S) (l : List Callback) → Done l r.1 → Done l (or_complain host r)
  unfolding or_complain
  complained-Done (true, s) l h = h
  complained-Done (false, s) l h = h

  after_cleanup-Done :
      (r : Bool × Service S) (l : List Callback) → mains r.1 ≡ l → Done l (after_cleanup host r)
  unfolding after_cleanup
  after_cleanup-Done (true, s) l e = give_up-Done _ l (stopping-mains s ∙ e)
  after_cleanup-Done (false, s) l e =
      complained-Done (su_daemon_stopped 0 s) l (stopped-mains 0 s ∙ e, stopped-Over 0 s)

  after_stopping-Done :
      (r : Bool × Service S) (l : List Callback)
      → mains r.1 ≡ l
      → Done (cleanup ∷ l) (after_stopping host r)
  unfolding after_stopping
  after_stopping-Done (false, s) l e = clean-Done _ l (stopping-mains s ∙ e)
  after_stopping-Done (true, s) l e =
      after_cleanup-Done (call_in host cleanup s) _ (call_in-cleanup s ∙ ap (λ c. cleanup ∷ c) e)

  after_run-Done :
      (r : Bool × Service S) (l : List Callback)
      → mains r.1 ≡ l
      → Done (cleanup ∷ l) (after_run host r)
  unfolding after_run
  after_run-Done (true, s) l e = clean-Done _ l (stopping-mains s ∙ e)
  after_run-Done (false, s) l e = after_stopping-Done _ l (stopping-mains s ∙ e)

  -- the calls behind those of `l`, which end in a call of cleanup
  abbrev Cleaned : List Callback → Service S → Type 0
  Cleaned l s = Done (cleanup ∷ l) s ⊎ Done (cleanup ∷ run ∷ l) s

  after_running-Cleaned :
      (r : Bool × Service S) (l : List Callback) → mains r.1 ≡ l → Cleaned l (after_running host r)
  unfolding after_running
  after_running-Cleaned (true, s) l e = inl (clean-Done _ l (stopping-mains s ∙ e))
  after_running-Cleaned (false, s) l e =
      inr (after_run-Done (call_in host run s) _ (call_in-run s ∙ ap (λ c. run ∷ c) e))

  -- What is called after an answer of init, which is true for an error.
  abbrev Orderly : List Callback → Bool → Service S → Type 0
  Orderly l true s = Done l s
  Orderly l false s = Cleaned l s

  after_init-Orderly :
      (r : Bool × Service S) (l : List Callback) → mains r.1 ≡ l → Orderly l r.0 (after_init host r)
  unfolding after_init
  after_init-Orderly (true, s) l e = give_up-Done _ l (stopping-mains s ∙ e)
  after_init-Orderly (false, s) l e = after_running-Cleaned _ l (running-mains s ∙ e)

  abbrev init_fails : Service S → Bool
  init_fails s = (call_in host init (su_daemon_starting (su_daemon_status_init s)).1).0

  start-Orderly :
      (r : Bool × Service S) (l : List Callback)
      → mains r.1 ≡ l
      → ((r.0 ≡ false) × Done l (after_starting host r))
        ⊎ ((r.0 ≡ true) × Orderly (init ∷ l) (call_in host init r.1).0 (after_starting host r))
  unfolding after_starting
  start-Orderly (false, s) l e = inl (refl, give_up-Done s l e)
  start-Orderly (true, s) l e =
      inr (refl, after_init-Orderly (call_in host init s) _ (call_in-init s ∙ ap (λ c. init ∷ c) e))

  -- In a run whose status the service manager takes nothing is called; else init is called, and alone
  -- when it fails, and before cleanup, or before run and cleanup, when it does not.
  abbrev pub Runs : Service S → Service S → Type 0
  Runs s t =
      ((head_or_false s.answers ≡ true) × Done (mains s) t)
      ⊎ ((head_or_false s.answers ≡ false) × Orderly (init ∷ mains s) (init_fails s) t)

  starting-answer :
      (s : Service S)
      → (su_daemon_starting (su_daemon_status_init s)).0 ≡ not (head_or_false s.answers)
  unfolding su_daemon_starting su_daemon_status_init report_status set_service_status
  starting-answer s = or_flail-answer _ _

  -- Once the handler of the controls is registered, su_daemon_service_start ends with the service
  -- stopped, and has told the service manager so last. It calls init when the first call of
  -- SetServiceStatus fails, and nothing when it succeeds. A failing init ends it; behind any other comes
  -- one call of cleanup, with one of run before it or none.
  pub service_start-Runs : (s : Service S) → Runs s (su_daemon_service_start host true s)
  unfolding su_daemon_service_start su_daemon_status_init
  service_start-Runs s =
      let begun = su_daemon_starting (su_daemon_status_init s) in
      elim (start-Orderly begun (mains s) (starting-mains (su_daemon_status_init s))) [
        | inl (e, d) ↦ inl (not-false _ (sym (starting-answer s) ∙ e), d)
        | inr (e, d) ↦ inr (not-true _ (sym (starting-answer s) ∙ e), d)
      ]

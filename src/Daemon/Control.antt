-- ===== src/Daemon/Control.antt =====
-- What su_daemon_ctrl_handler of a/to_do/daemon.c does with a control.
use alib4c.Common.{ℕ, ◌≡◌, refl, ap, Bool, true, false, not, List, [], ◌∷◌, if◌then◌else◌}
use alib4c.World.{head_or_false, rest}
use alib4c.Common.{Bool-cases, inl, inr, sym, ◌∙◌}
use alib4c.Daemon.Lifecycle.{not-true, not-false}
use alib4c.Daemon.{
  stop_pending, stop, Happening, told, called, complained, Opcode, control_stop,
  control_interrogate, control_other, Service, Host, complain, set_service_status, or_flail,
  report_status, su_daemon_stopping, call_now, or_complain, or_error_code, or_both, or_stop,
  su_daemon_ctrl_handler,
}

-- a log without the error messages
abbrev pub deeds : List Happening → List Happening
deeds [] = []
deeds (told st ok ∷ log) = told st ok ∷ deeds log
deeds (complained ∷ log) = deeds log
deeds (called c ∷ log) = called c ∷ deeds log

module _ {S : Type 0} (host : Host S) where
  -- the service as it was, but that its status is told again, with an answer
  abbrev pub Told : Bool → Service S → Service S → Type 0
  Told ok s t =
      (t.status ≡ s.status)
      × (t.user ≡ s.user)
      × (deeds t.log ≡ told s.status ok ∷ deeds s.log)
      × (t.error_code ≡ s.error_code)
      × (t.answers ≡ rest s.answers)

  abbrev pub StoppedAs : S → Bool → List Happening → ℕ → Service S → Type 0
  StoppedAs user ok log e t =
      (t.status.state ≡ stop_pending)
      × (t.user ≡ user)
      × (deeds t.log ≡ called stop ∷ told t.status ok ∷ log)
      × (t.error_code ≡ e)

  -- Behind the log the new status is told, with an answer, and then stop is called; the error code is `e`.
  abbrev pub StopsWith : Bool → List Happening → ℕ → Service S → Service S → Type 0
  StopsWith ok log e s t = StoppedAs (host.call stop s.user).1 ok log e t

  abbrev pub Answered : Bool → Service S → Service S → Type 0
  Answered true s t = Told true s t
  Answered false s t =
      StopsWith (head_or_false (rest s.answers)) (told s.status false ∷ deeds s.log) 1 s t

  abbrev pub Handles : Opcode → Service S → Service S → Type 0
  Handles control_stop s t =
      StopsWith (head_or_false s.answers) (deeds s.log)
        (if (host.call stop s.user).0
          then 1
          else (if head_or_false s.answers then s.error_code else 1))
        s t
  Handles control_interrogate s t = Answered (head_or_false s.answers) s t
  Handles (control_other n) s t = Answered (head_or_false s.answers) s t

  both-StopsWith :
      (c : Bool) (e : ℕ) (u : S) (ok : Bool) (l : List Happening) (t : Service S)
      → StoppedAs u ok l e t
      → StoppedAs u ok l (if c then 1 else e) (or_both host (c, t))
  unfolding or_both
  both-StopsWith true e u ok l t (p, q, r, k) = (p, q, r, refl)
  both-StopsWith false e u ok l t h = h

  complain-StopsWith :
      (c ok : Bool) (l : List Happening) (e : ℕ) (s t : Service S)
      → StopsWith ok l e s t
      → StopsWith ok l e s (or_complain host (c, t))
  unfolding or_complain
  complain-StopsWith true ok l e s t h = h
  complain-StopsWith false ok l e s t h = h

  -- what su_daemon_stopping answers, and what it leaves
  abbrev Pending : Service S → Bool × Service S → Type 0
  Pending s (b, t) =
      (b ≡ not (head_or_false s.answers))
      × (t.status.state ≡ stop_pending)
      × (t.user ≡ s.user)
      × (deeds t.log ≡ told t.status (head_or_false s.answers) ∷ deeds s.log)
      × (t.error_code ≡ s.error_code)

  su_daemon_stopping-Pending : (s : Service S) → Pending s (su_daemon_stopping s)
  unfolding su_daemon_stopping report_status set_service_status or_flail
  su_daemon_stopping-Pending s = elim (Bool-cases (head_or_false s.answers)) [
    | inl h ↦ rw h (refl, refl, refl, refl, refl)
    | inr h ↦ rw h (refl, refl, refl, refl, refl)
  ]

  stop-StopsWith :
      (s : Service S) (r : Bool × Service S)
      → Pending s r
      → StopsWith
          (head_or_false s.answers)
          (deeds s.log)
          (if (host.call stop s.user).0
            then 1
            else (if head_or_false s.answers then s.error_code else 1))
          s
          (or_both host (call_now host stop (or_error_code host r)))
  unfolding call_now or_error_code
  stop-StopsWith s (true, t) (b, p, u, k, e) =
      let h : head_or_false s.answers ≡ false = not-true _ (sym b) in
      rw (h, sym u)
        (both-StopsWith _ 1 _ _ _ _ (p, refl, ap (λ l. called stop ∷ l) (rw h at k), refl))
  stop-StopsWith s (false, t) (b, p, u, k, e) =
      let h : head_or_false s.answers ≡ true = not-false _ (sym b) in
      rw (h, sym u)
        (both-StopsWith _ s.error_code _ _ _ _ (p, refl, ap (λ l. called stop ∷ l) (rw h at k), e))

  or_stop-Answered : (s t : Service S) (b : Bool) → Told b s t → Answered b s (or_stop host (b, t))
  unfolding or_stop call_now
  or_stop-Answered s t true h = h
  or_stop-Answered s t false (p, q, r, k, a) =
      let (b, st, u, n, e) = su_daemon_stopping-Pending (complain t) in
      let told_both =
        n
        ∙ ap (λ l. told (su_daemon_stopping (complain t)).1.status (head_or_false l) ∷ deeds t.log)
            a
        ∙ ap
            (λ l.
              told (su_daemon_stopping (complain t)).1.status (head_or_false (rest s.answers)) ∷ l)
            r in
      let (st2, u2, n2, e2) =
        complain-StopsWith (host.call stop (su_daemon_stopping (complain t)).1.user).0 _ _
          (su_daemon_stopping (complain t)).1.error_code s _
          (st, ap (λ v. (host.call stop v).1) (u ∙ q), ap (λ l. called stop ∷ l) told_both, refl) in
      (st2, u2, n2, refl)

  -- SERVICE_CONTROL_STOP puts the service in SERVICE_STOP_PENDING, tells the service manager this status
  -- and then calls stop, each once, and sets the error code when the telling or stop fails. Any other
  -- control tells the status as it is, and where that succeeds does nothing more; where it fails, it puts
  -- the service in SERVICE_STOP_PENDING, tells that, calls stop, each once, and sets the error code.
  pub ctrl_handler-Handles :
      (o : Opcode) (s : Service S) → Handles o s (su_daemon_ctrl_handler host o s)
  unfolding su_daemon_ctrl_handler set_service_status
  ctrl_handler-Handles control_stop s =
      stop-StopsWith s (su_daemon_stopping s) (su_daemon_stopping-Pending s)
  ctrl_handler-Handles control_interrogate s =
      or_stop-Answered s _ (head_or_false s.answers) (refl, refl, refl, refl, refl)
  ctrl_handler-Handles (control_other n) s =
      or_stop-Answered s _ (head_or_false s.answers) (refl, refl, refl, refl, refl)

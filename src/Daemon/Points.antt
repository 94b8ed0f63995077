-- ===== src/Daemon/Points.antt =====
-- The check points of the services of a/to_do/daemon.c, call by call.
use alib4c.Common.{
  ℕ, suc, ◌+◌, ◌%◌, ◌^◌, ◌≤◌, ◌<◌, ◌≡◌, refl, ap, ◌⊎◌, inl, inr, Bool, true, false, some, List, [],
  ◌∷◌, arith, length,
}
use alib4c.Daemon.{
  Callback, stop, ServiceState, unset, stopped, start_pending, stop_pending, running, Happening,
  told, called, complained, Opcode, control_stop, control_interrogate, control_other, Service, Host,
  complain, set_service_status, or_flail, report_status, su_daemon_starting, su_daemon_stopping,
  su_daemon_running, su_daemon_stopped, call_now, or_complain, or_error_code, or_both, or_stop,
  su_daemon_ctrl_handler, handled, call_in,
}
use alib4c.Daemon.Lifecycle.{exit_status-Stopped, last_told}

-- the states that a service is on its way in
abbrev pub is_pending : ServiceState → Bool
is_pending start_pending = true
is_pending stop_pending = true
is_pending unset = false
is_pending stopped = false
is_pending running = false

-- From the latest back: a state that is not pending is told with check point 0, and a pending one with a
-- check point that is not 0 and below `n`, and which is greater than all those told before, or else the
-- status is the very one that was told before it.
abbrev pub Climbs : ℕ → List Happening → Type 0
Climbs n [] = Unit
Climbs n (told st ok ∷ log) =
    ((is_pending st.state ≡ false) × (st.check_point ≡ 0) × Climbs n log)
    ⊎ ((is_pending st.state ≡ true)
        × (0 < st.check_point)
        × (st.check_point < n)
        × (Climbs st.check_point log ⊎ ((last_told log ≡ some st) × Climbs n log)))
Climbs n (complained ∷ log) = Climbs n log
Climbs n (called c ∷ log) = Climbs n log

Climbs-le : (log : List Happening) (n m : ℕ) → n ≤ m → Climbs n log → Climbs m log
Climbs-le [] n m h c = tt
Climbs-le (told st ok ∷ log) n m h (inl (p, e, c)) = inl (p, e, Climbs-le log n m h c)
Climbs-le (told st ok ∷ log) n m h (inr (p, z, l, inl c)) = inr (p, z, omega (arith, l, h), inl c)
Climbs-le (told st ok ∷ log) n m h (inr (p, z, l, inr (e, c))) =
    inr (p, z, omega (arith, l, h), inr (e, Climbs-le log n m h c))
Climbs-le (complained ∷ log) n m h c = Climbs-le log n m h c
Climbs-le (called d ∷ log) n m h c = Climbs-le log n m h c

counted : (n : ℕ) → suc n < 2 ^ 32 → (n + 1) % 2 ^ 32 ≡ suc n
counted n h = omega (arith, h)

module _ {S : Type 0} where
  -- A status that is not pending has check point 0, and a pending one the counter, and was told last.
  abbrev pub Steady : Service S → Type 0
  Steady s =
      ((is_pending s.status.state ≡ false) × (s.status.check_point ≡ 0))
      ⊎ ((is_pending s.status.state ≡ true)
          × (0 < s.status.check_point)
          × (s.status.check_point ≡ s.status_counter)
          × (last_told s.log ≡ some s.status))

  -- the counter has come to `k` at most
  unfoldable pub Good : ℕ → Service S → Type 0
  Good k s = Climbs (suc s.status_counter) s.log × Steady s × (s.status_counter ≤ k)

  pub complain-Good : (k : ℕ) (s : Service S) → Good k s → Good k (complain s)
  unfolding Good
  complain-Good k s h = h

  Good-suc : (k : ℕ) (s : Service S) → Good k s → Good (suc k) s
  unfolding Good
  Good-suc k s (c, a, h) = (c, a, omega (arith, h))

  tell-Good : (k : ℕ) (s : Service S) → Good k s → Good k (set_service_status s).1
  unfolding Good set_service_status
  tell-Good k s (c, inl (p, e), h) = (inl (p, e, c), inl (p, e), h)
  tell-Good k s (c, inr (p, z, e, l), h) =
      (inr (p, z, omega (arith, e), inr (l, c)), inr (p, z, e, refl), h)

  or_flail-Good : (k : ℕ) (r : Bool × Service S) → Good k r.1 → Good k (or_flail r).1
  unfolding or_flail
  or_flail-Good k (true, s) h = h
  or_flail-Good k (false, s) h = complain-Good k s h

  -- a pending status with a new count
  fresh-Good :
      (k : ℕ) (s : Service S)
      → Climbs s.status_counter s.log
      → is_pending s.status.state ≡ true
      → s.status.check_point ≡ s.status_counter
      → 0 < s.status_counter
      → s.status_counter ≤ k
      → Good k (report_status s).1
  unfolding report_status set_service_status Good
  fresh-Good k s c p e z h = or_flail-Good k (set_service_status s) (
    inr (p, omega (arith, e, z), omega (arith, e), inl (rw e c)),
    inr (p, omega (arith, e, z), e, refl),
    h,
  )

  pub starting-Good :
      (k : ℕ) (s : Service S)
      → Climbs (suc s.status_counter) s.log
      → s.status_counter ≤ k
      → suc k < 2 ^ 32
      → Good (suc k) (su_daemon_starting s).1
  unfolding su_daemon_starting
  starting-Good k s c h b =
      let e = counted s.status_counter (omega (arith, h, b)) in
      fresh-Good (suc k) _ (Climbs-le s.log _ _ (omega (arith, e)) c) refl refl (omega (arith, e))
        (omega (arith, e, h))

  pub stopping-Good :
      (k : ℕ) (s : Service S) → Good k s → suc k < 2 ^ 32 → Good (suc k) (su_daemon_stopping s).1
  unfolding su_daemon_stopping Good
  stopping-Good k s (c, a, h) b =
      let e = counted s.status_counter (omega (arith, h, b)) in
      fresh-Good (suc k) _ (Climbs-le s.log _ _ (omega (arith, e)) c) refl refl (omega (arith, e))
        (omega (arith, e, h))

  -- a status that is not pending
  rest-Good :
      (k : ℕ) (s : Service S)
      → Climbs (suc s.status_counter) s.log
      → is_pending s.status.state ≡ false
      → s.status.check_point ≡ 0
      → s.status_counter ≤ k
      → Good k (report_status s).1
  unfolding report_status Good
  rest-Good k s c p e h = or_flail-Good k (set_service_status s) (tell-Good k s (c, inl (p, e), h))

  pub running-Good : (k : ℕ) (s : Service S) → Good k s → Good k (su_daemon_running s).1
  unfolding su_daemon_running Good
  running-Good k s (c, a, h) = rest-Good k _ c refl refl h

  pub stopped-Good : (n k : ℕ) (s : Service S) → Good k s → Good k (su_daemon_stopped n s).1
  unfolding su_daemon_stopped Good
  stopped-Good n k s (c, a, h) =
      let (st, p, w) = exit_status-Stopped n s.error_code _ (refl, refl, refl) in
      rest-Good k _ c (ap is_pending st) p h

module _ {S : Type 0} (host : Host S) where
  call_now-Good : (c : Callback) (k : ℕ) (s : Service S) → Good k s → Good k (call_now host c s).1
  unfolding call_now Good
  call_now-Good c k s h = h

  pub or_complain-Good : (k : ℕ) (r : Bool × Service S) → Good k r.1 → Good k (or_complain host r)
  unfolding or_complain
  or_complain-Good k (true, s) h = complain-Good k s h
  or_complain-Good k (false, s) h = h

  or_error_code-Good : (k : ℕ) (r : Bool × Service S) → Good k r.1 → Good k (or_error_code host r)
  unfolding or_error_code Good
  or_error_code-Good k (true, s) h = h
  or_error_code-Good k (false, s) h = h

  or_both-Good : (k : ℕ) (r : Bool × Service S) → Good k r.1 → Good k (or_both host r)
  unfolding or_both Good
  or_both-Good k (true, s) h = h
  or_both-Good k (false, s) h = h

  code-Good : (k : ℕ) (s : Service S) → Good k s → Good k (record s { error_code = 1 })
  unfolding Good
  code-Good k s h = h

  or_stop-Good :
      (k : ℕ) (r : Bool × Service S) → Good k r.1 → suc k < 2 ^ 32 → Good (suc k) (or_stop host r)
  unfolding or_stop
  or_stop-Good k (true, s) h b = Good-suc k s h
  or_stop-Good k (false, s) h b = code-Good (suc k) _ (
      or_complain-Good (suc k) _
        (call_now-Good stop (suc k) _ (stopping-Good k (complain s) (complain-Good k s h) b)))

  handler-Good :
      (o : Opcode) (k : ℕ) (s : Service S)
      → Good k s
      → suc k < 2 ^ 32
      → Good (suc k) (su_daemon_ctrl_handler host o s)
  unfolding su_daemon_ctrl_handler
  handler-Good control_stop k s h b =
      or_both-Good (suc k) _
        (call_now-Good stop (suc k) _ (or_error_code-Good (suc k) _ (stopping-Good k s h b)))
  handler-Good control_interrogate k s h b = or_stop-Good k _ (tell-Good k s h) b
  handler-Good (control_other n) k s h b =
      or_stop-Good k _ (tell-Good k (complain s) (complain-Good k s h)) b

  handled-Good :
      (os : List Opcode) (k : ℕ) (s : Service S)
      → Good k s
      → k + length os < 2 ^ 32
      → Good (k + length os) (handled host os s)
  unfolding handled
  handled-Good [] k s h b = let e : k + 0 ≡ k = omega arith in rw e h
  handled-Good (o ∷ os) k s h b =
      let e : k + suc (length os) ≡ suc k + length os = omega arith in
      rw e (handled-Good os (suc k) _ (handler-Good o k s h (omega (arith, b))) (omega (arith, b)))

  -- the number of the controls that arrive while a function runs
  abbrev pub arriving : Callback → ℕ
  arriving c = length (host.controls c)

  pub call_in-Good :
      (c : Callback) (k : ℕ) (s : Service S)
      → Good k s
      → k + arriving c < 2 ^ 32
      → Good (k + arriving c) (call_in host c s).1
  unfolding call_in
  call_in-Good c k s h b = call_now-Good c _ _ (handled-Good (host.controls c) k s h b)

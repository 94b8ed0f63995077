-- ===== src/Daemon/Climbing.antt =====
-- The check points that a whole run of a service of a/to_do/daemon.c tells the service manager.
use alib4c.Common.{ℕ, suc, ◌+◌, ◌^◌, ◌<◌, ◌≡◌, Bool, true, false, [], arith, if◌then◌else◌}
use alib4c.Daemon.{
  init, run, cleanup, Service, Host, su_daemon_status_init, give_up, clean_and_give_up,
  after_cleanup, after_stopping, after_run, after_running, after_init, after_starting,
  su_daemon_service_start,
}
use alib4c.Daemon.Points.{
  Climbs, Good, complain-Good, starting-Good, stopping-Good, running-Good, stopped-Good,
  or_complain-Good, arriving, call_in-Good,
}

module _ {S : Type 0} (host : Host S) where
  abbrev pub Climbed : Service S → Type 0
  Climbed s = Climbs (suc s.status_counter) s.log

  Good-Climbed : (k : ℕ) (s : Service S) → Good k s → Climbed s
  unfolding Good
  Good-Climbed k s (c, a, h) = c

  give_up-Climbed : (k : ℕ) (s : Service S) → Good k s → Climbed (give_up host s)
  unfolding give_up
  give_up-Climbed k s h = Good-Climbed k _ (stopped-Good 1 k s h)

  clean-Climbed :
      (k : ℕ) (s : Service S)
      → Good k s
      → k + arriving host cleanup < 2 ^ 32
      → Climbed (clean_and_give_up host s)
  unfolding clean_and_give_up
  clean-Climbed k s h b =
      give_up-Climbed _ _ (or_complain-Good host _ _ (call_in-Good host cleanup k s h b))

  after_cleanup-Climbed :
      (k : ℕ) (r : Bool × Service S) → Good k r.1 → suc k < 2 ^ 32 → Climbed (after_cleanup host r)
  unfolding after_cleanup
  after_cleanup-Climbed k (true, s) h b =
      give_up-Climbed (suc k) _ (complain-Good (suc k) _ (stopping-Good k s h b))
  after_cleanup-Climbed k (false, s) h b =
      Good-Climbed k _ (or_complain-Good host k _ (stopped-Good 0 k s h))

  after_stopping-Climbed :
      (k : ℕ) (r : Bool × Service S)
      → Good k r.1
      → suc k + arriving host cleanup < 2 ^ 32
      → Climbed (after_stopping host r)
  unfolding after_stopping
  after_stopping-Climbed k (false, s) h b =
      clean-Climbed (suc k) _ (stopping-Good k s h (omega (arith, b))) b
  after_stopping-Climbed k (true, s) h b =
      after_cleanup-Climbed _ _ (call_in-Good host cleanup k s h (omega (arith, b)))
        (omega (arith, b))

  after_run-Climbed :
      (k : ℕ) (r : Bool × Service S)
      → Good k r.1
      → 2 + k + arriving host cleanup < 2 ^ 32
      → Climbed (after_run host r)
  unfolding after_run
  after_run-Climbed k (true, s) h b =
      clean-Climbed (suc k) _ (complain-Good (suc k) _ (stopping-Good k s h (omega (arith, b))))
        (omega (arith, b))
  after_run-Climbed k (false, s) h b =
      after_stopping-Climbed (suc k) _ (stopping-Good k s h (omega (arith, b))) (omega (arith, b))

  after_running-Climbed :
      (k : ℕ) (r : Bool × Service S)
      → Good k r.1
      → 2 + k + arriving host run + arriving host cleanup < 2 ^ 32
      → Climbed (after_running host r)
  unfolding after_running
  after_running-Climbed k (true, s) h b =
      clean-Climbed (suc k) _ (stopping-Good k s h (omega (arith, b))) (omega (arith, b))
  after_running-Climbed k (false, s) h b =
      after_run-Climbed _ _ (call_in-Good host run k s h (omega (arith, b))) (omega (arith, b))

  after_init-Climbed :
      (k : ℕ) (r : Bool × Service S)
      → Good k r.1
      → 2 + k + arriving host run + arriving host cleanup < 2 ^ 32
      → Climbed (after_init host r)
  unfolding after_init
  after_init-Climbed k (true, s) h b =
      give_up-Climbed (suc k) _ (complain-Good (suc k) _ (stopping-Good k s h (omega (arith, b))))
  after_init-Climbed k (false, s) h b = after_running-Climbed k _ (running-Good k s h) b

  after_starting-Climbed :
      (k : ℕ) (r : Bool × Service S)
      → Good k r.1
      → 2 + k + arriving host init + arriving host run + arriving host cleanup < 2 ^ 32
      → Climbed (after_starting host r)
  unfolding after_starting
  after_starting-Climbed k (false, s) h b = give_up-Climbed k s h
  after_starting-Climbed k (true, s) h b =
      after_init-Climbed _ _ (call_in-Good host init k s h (omega (arith, b))) (omega (arith, b))

  if_registered :
      (b : Bool) (x y : Service S) → Climbed x → Climbed y → Climbed (if b then x else y)
  if_registered true x y h g = h
  if_registered false x y h g = g

  -- From a log without an entry, and with less than 2^32 - 3 controls that arrive, whatever
  -- su_daemon_service_start and the control handler tell the service manager of a pending service has a
  -- check point that is not 0 and greater than all those told before, but where the control handler tells
  -- the last status again as it is; and all they tell of a service that runs or has stopped has the
  -- check point 0.
  pub service_start-Climbs :
      (registered : Bool) (s : Service S)
      → s.log ≡ []
      → 3 + arriving host init + arriving host run + arriving host cleanup < 2 ^ 32
      → Climbed (su_daemon_service_start host registered s)
  unfolding su_daemon_service_start su_daemon_status_init Good
  service_start-Climbs registered s e b =
      let c : Climbs 1 s.log = rw e tt in
      if_registered registered _ _
        (after_starting-Climbed 1 _ (starting-Good 0 _ c (omega arith) (omega arith))
          (omega (arith, b)))
        c

-- ===== src/Daemon/Unix.antt =====
-- su_daemon of a/to_do/daemon.c, as it is built on Unix: the order of its calls and the exit code.
use alib4c.Common.{ℕ, zero, suc, ◌≡◌, ◌⊎◌, Bool, true, false, List, [], ◌∷◌}
use alib4c.Daemon.{Callback, init, run, stop, cleanup, Host}

-- What it calls of the library and of the system: su_log_init_syslog, signal and daemon.
pub data Setup : Type 0 where
  log_init set_sigterm set_sigint daemonize : Setup

pub data Action : Type 0 where
  setup : Setup → Action
  call_of : Callback → Action

-- `fails` says which calls of the system fail; `signals` is the number of the signals SIGTERM and SIGINT
-- that arrive while the run function runs.
pub record System : Type 0 where
  pub fails : Setup → Bool
  pub signals : ℕ

-- The exit code, and what was called, with true for a failure, the first at the front.
pub record Outcome : Type 0 where
  pub code : ℕ
  pub acts : List (Action × Bool)

abbrev pub behind : Action → Bool → Outcome → Outcome
behind a failed o = record o { acts = (a, failed) ∷ o.acts }

-- `if(...) exit(1);` or su_fatal_flail(1, ...)
unfoldable pub or_exit : Action → Bool → Outcome → Outcome
or_exit a failed go_on = elim failed [
  | true ↦ record { code = 1; acts = (a, true) ∷ [] }
  | false ↦ behind a false go_on
]

module _ {S : Type 0} (host : Host S) (sys : System) where
  abbrev pub set_up : Setup → Outcome → Outcome
  set_up c go_on = or_exit (setup c) (sys.fails c) go_on

  unfoldable pub call_then : Callback → S → (S → Outcome) → Outcome
  call_then c u go_on = or_exit (call_of c) (host.call c u).0 (go_on (host.call c u).1)

  -- su_daemon_sig_term, which does not look at the answer of stop
  unfoldable pub su_daemon_sig_term : S → Bool × S
  su_daemon_sig_term u = host.call stop u

  -- the signals that arrive while the daemon runs
  unfoldable pub signalled : ℕ → S → (S → Outcome) → Outcome
  signalled zero u go_on = go_on u
  signalled (suc n) u go_on =
      let (failed, v) = su_daemon_sig_term u in behind (call_of stop) failed (signalled n v go_on)

  unfoldable pub su_daemon : S → Outcome
  su_daemon u = set_up log_init (
      call_then init u (λ u1. set_up set_sigterm (
        set_up set_sigint (
          set_up daemonize (
            signalled sys.signals u1 (λ u2.
              call_then run u2
                (λ u3. call_then cleanup u3 (λ u4. record { code = 0; acts = [] }))))))))

module _ {S : Type 0} (host : Host S) (sys : System) where
  -- Calls of the system, in order, up to the first that fails: then the code is 1, and else it goes on.
  abbrev pub SetsUp :
      List Setup → (List (Action × Bool) → Type 0) → ℕ → List (Action × Bool) → Type 0
  SetsUp [] rest code l = rest l
  SetsUp (c ∷ cs) rest code l =
      ((sys.fails c ≡ true) × (code ≡ 1) × (l ≡ (setup c, true) ∷ []))
      ⊎ ((sys.fails c ≡ false)
          × ((m : List (Action × Bool)) × (l ≡ (setup c, false) ∷ m) × SetsUp cs rest code m))

  -- A call of a function on `u`: with an error the code is 1, and without it goes on from the new state.
  abbrev pub Calls :
      Callback → S → (S → List (Action × Bool) → Type 0) → ℕ → List (Action × Bool) → Type 0
  Calls c u rest code l =
      (((host.call c u).0 ≡ true) × (code ≡ 1) × (l ≡ (call_of c, true) ∷ []))
      ⊎ (((host.call c u).0 ≡ false)
          × ((m : List (Action × Bool)) × (l ≡ (call_of c, false) ∷ m) × rest (host.call c u).1 m))

  -- The calls of stop for some signals, each on the state that the one before has left, whatever they
  -- answer.
  abbrev pub Stops : ℕ → S → (S → List (Action × Bool) → Type 0) → List (Action × Bool) → Type 0
  Stops zero u rest l = rest u l
  Stops (suc n) u rest l =
      (m : List (Action × Bool)) × (l ≡ (call_of stop, (host.call stop u).0) ∷ m)
      × Stops n (host.call stop u).1 rest m

  abbrev pub CleansUp : ℕ → S → List (Action × Bool) → Type 0
  CleansUp code u l = Calls cleanup u (λ v m. (code ≡ 0) × (m ≡ [])) code l

  abbrev pub RunsOn : ℕ → S → List (Action × Bool) → Type 0
  RunsOn code u l = Stops sys.signals u (λ v m. Calls run v (CleansUp code) code m) l

  abbrev pub Follows : S → ℕ → List (Action × Bool) → Type 0
  Follows u code l =
      SetsUp (log_init ∷ [])
        (λ m.
          Calls init u
            (λ v k. SetsUp (set_sigterm ∷ set_sigint ∷ daemonize ∷ []) (RunsOn code v) code k) code
            m)
        code l

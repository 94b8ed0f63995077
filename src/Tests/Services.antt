-- ===== src/Tests/Services.antt =====
-- A daemon whose user data counts the calls, under a service manager that answers at first and then not.
use alib4c.Common.{ℕ, suc, refl, true, false, Option, some, List, [], ◌∷◌, arith}
use alib4c.Daemon.{
  unset, no_error, run, control_stop, control_interrogate, Service, Host, su_daemon_ctrl_handler,
  su_daemon_service_start,
}
use alib4c.Daemon.Lifecycle.{Runs, service_start-Runs}
use alib4c.Daemon.Control.{Handles, ctrl_handler-Handles}
use alib4c.Daemon.Climbing.{Climbed, service_start-Climbs}
use alib4c.Daemon.Unix.{System}
use alib4c.Socket.{Round, write_file}
use alib4c.Socket.Copying.{received, between, Sends, write_file-Sends}

-- run fails; a stop arrives while it runs
abbrev counting : Host ℕ
counting = record {
  call = λ c n. (elim c [ run ↦ true | _ ↦ false ], suc n);
  controls = λ c. elim c [ run ↦ control_interrogate ∷ control_stop ∷ [] | _ ↦ [] ];
}

-- the first status is not taken, the others are
abbrev before : Service ℕ
before = record {
  status = record {
    state = unset;
    win32_exit = no_error;
    specific_exit = 0;
    check_point = 0;
    wait_hint = 0;
  };
  status_counter = 0;
  error_code = 0;
  user = 0;
  answers = false ∷ true ∷ true ∷ true ∷ true ∷ true ∷ [];
  log = [];
}

service_start-Runs_example : Runs counting before (su_daemon_service_start counting true before)
service_start-Runs_example = service_start-Runs counting before

ctrl_handler-Handles_example :
    Handles counting control_stop before (su_daemon_ctrl_handler counting control_stop before)
ctrl_handler-Handles_example = ctrl_handler-Handles counting control_stop before

service_start-Climbs_example : Climbed counting (su_daemon_service_start counting true before)
service_start-Climbs_example = service_start-Climbs counting true before refl (omega arith)

-- two signals arrive
abbrev calm : System
calm = record { fails = λ c. false; signals = 2 }

-- a short write, and SIGPIPE in the second round
abbrev rounds : List Round
rounds = (some (7 ∷ 8 ∷ []), false) ∷ (some (9 ∷ []), true) ∷ []

abbrev short_writes : List (Option ℕ)
short_writes = some 1 ∷ some 1 ∷ some 1 ∷ []

write_file-Sends_example :
    Sends
      (received rounds)
      []
      (between (write_file rounds short_writes []).0)
      (write_file rounds short_writes []).1
write_file-Sends_example = write_file-Sends rounds short_writes []

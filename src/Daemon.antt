-- ===== src/Daemon.antt =====
-- The services of a/to_do/daemon.c, as they are built on Windows. The functions that the daemon gives,
-- what the service manager answers and the controls that it sends are parameters. An error of su_error_t
-- is true, and success false. The type of the service and the controls that it accepts are constants.
pub mod Climbing
pub mod Control
pub mod Lifecycle
pub mod Install
pub mod Points
pub mod Unix
use alib4c.Common.{ℕ, suc, ◌+◌, ◌%◌, ◌^◌, Bool, true, false, List, [], ◌∷◌, if◌then◌else◌, ◌==◌}
use alib4c.World.{head_or_false, rest}

-- dwCurrentState, before it is set and after
pub data ServiceState : Type 0 where
  unset stopped start_pending stop_pending running : ServiceState

-- NO_ERROR and ERROR_SERVICE_SPECIFIC_ERROR
pub data ExitCode : Type 0 where
  no_error specific_error : ExitCode

pub record Status : Type 0 where
  pub state : ServiceState
  pub win32_exit : ExitCode
  pub specific_exit : ℕ
  pub check_point : ℕ
  pub wait_hint : ℕ

-- the functions of type su_daemon_callback
pub data Callback : Type 0 where
  init run stop cleanup : Callback

-- What a daemon does to the outside: a status told to the service manager, with its answer, a call of
-- one of the functions, an error message.
pub data Happening : Type 0 where
  told : Status → Bool → Happening
  called : Callback → Happening
  complained : Happening

pub data Opcode : Type 0 where
  control_stop control_interrogate : Opcode
  control_other : ℕ → Opcode

-- `user` is what `arg` points to, `answers` are the coming answers of SetServiceStatus, and the log has
-- its latest entry first.
pub record Service (S : Type 0) : Type 0 where
  pub status : Status
  pub status_counter : ℕ
  pub error_code : ℕ
  pub user : S
  pub answers : List Bool
  pub log : List Happening

-- `call` is true for an error; `controls` are the controls that arrive while a function runs.
pub record Host (S : Type 0) : Type 0 where
  pub call : Callback → S → Bool × S
  pub controls : Callback → List Opcode

-- WAIT_HINT
abbrev pub wait_ms : ℕ
wait_ms = 5000

abbrev pub next_count : ℕ → ℕ
next_count n = (n + 1) % 2 ^ 32

abbrev pub complain : {S : Type 0} → Service S → Service S
complain s = record s { log = complained ∷ s.log }

-- SetServiceStatus of the status that is kept
unfoldable pub set_service_status : {S : Type 0} → Service S → Bool × Service S
set_service_status s =
    let ok = head_or_false s.answers in
    (ok, record s { answers = rest s.answers; log = told s.status ok ∷ s.log })

unfoldable pub or_flail : {S : Type 0} → Bool × Service S → Bool × Service S
or_flail (true, s) = (false, s)
or_flail (false, s) = (true, complain s)

-- `if(!SetServiceStatus(...)) return_flail(...); return_success();`
unfoldable pub report_status : {S : Type 0} → Service S → Bool × Service S
report_status s = or_flail (set_service_status s)

unfoldable pub su_daemon_starting : {S : Type 0} → Service S → Bool × Service S
su_daemon_starting s =
    let n = next_count s.status_counter in
    let st = record s.status { state = start_pending; check_point = n; wait_hint = wait_ms } in
    report_status (record s { status_counter = n; status = st })

unfoldable pub su_daemon_stopping : {S : Type 0} → Service S → Bool × Service S
su_daemon_stopping s =
    let n = next_count s.status_counter in
    let st = record s.status { state = stop_pending; check_point = n; wait_hint = wait_ms } in
    report_status (record s { status_counter = n; status = st })

unfoldable pub su_daemon_running : {S : Type 0} → Service S → Bool × Service S
su_daemon_running s =
    let st = record s.status { state = running; check_point = 0; wait_hint = 0 } in
    report_status (record s { status = st })

-- With no exit code and no error the specific code stays what it was.
unfoldable pub exit_status : ℕ → ℕ → Status → Status
exit_status exit_code error_code st =
    if exit_code == 0
    then (if error_code == 0
        then record st { win32_exit = no_error }
        else record st { specific_exit = error_code; win32_exit = specific_error })
    else record st { specific_exit = exit_code; win32_exit = specific_error }

unfoldable pub su_daemon_stopped : {S : Type 0} → ℕ → Service S → Bool × Service S
su_daemon_stopped exit_code s =
    let st = record s.status { state = stopped; check_point = 0; wait_hint = 0 } in
    report_status (record s { status = exit_status exit_code s.error_code st })

unfoldable pub su_daemon_status_init : {S : Type 0} → Service S → Service S
su_daemon_status_init s = record s {
  status_counter = 0;
  status = record {
    state = start_pending;
    win32_exit = no_error;
    specific_exit = 0;
    check_point = 0;
    wait_hint = wait_ms;
  };
}

module _ {S : Type 0} (host : Host S) where
  unfoldable pub call_now : Callback → Service S → Bool × Service S
  call_now c s =
      let (failed, u) = host.call c s.user in
      (failed, record s { user = u; log = called c ∷ s.log })

  unfoldable pub or_complain : Bool × Service S → Service S
  or_complain (true, s) = complain s
  or_complain (false, s) = s

  unfoldable pub or_error_code : Bool × Service S → Service S
  or_error_code (true, s) = record s { error_code = 1 }
  or_error_code (false, s) = s

  -- `if(sds.stop(sds.arg)) { su_flail(...); sds.error_code = 1; }`
  unfoldable pub or_both : Bool × Service S → Service S
  or_both (true, s) = record (complain s) { error_code = 1 }
  or_both (false, s) = s

  -- the current status told again, and the daemon stopped where that fails
  unfoldable pub or_stop : Bool × Service S → Service S
  or_stop (true, s) = s
  or_stop (false, s) = record (or_complain (call_now stop (su_daemon_stopping (complain s)).1)) {
    error_code = 1;
  }

  unfoldable pub su_daemon_ctrl_handler : Opcode → Service S → Service S
  su_daemon_ctrl_handler control_stop s =
      or_both (call_now stop (or_error_code (su_daemon_stopping s)))
  su_daemon_ctrl_handler control_interrogate s = or_stop (set_service_status s)
  su_daemon_ctrl_handler (control_other n) s = or_stop (set_service_status (complain s))

  unfoldable pub handled : List Opcode → Service S → Service S
  handled [] s = s
  handled (o ∷ os) s = handled os (su_daemon_ctrl_handler o s)

  -- A call of a function from the main routine, while controls arrive.
  unfoldable pub call_in : Callback → Service S → Bool × Service S
  call_in c s = call_now c (handled (host.controls c) s)

  -- The ends of su_daemon_service_start.
  unfoldable pub give_up : Service S → Service S
  give_up s = (su_daemon_stopped 1 s).1

  unfoldable pub clean_and_give_up : Service S → Service S
  clean_and_give_up s = give_up (or_complain (call_in cleanup s))

  unfoldable pub after_cleanup : Bool × Service S → Service S
  after_cleanup (true, s) = give_up (complain (su_daemon_stopping s).1)
  after_cleanup (false, s) = or_complain (su_daemon_stopped 0 s)

  unfoldable pub after_stopping : Bool × Service S → Service S
  after_stopping (false, s) = clean_and_give_up (su_daemon_stopping s).1
  after_stopping (true, s) = after_cleanup (call_in cleanup s)

  unfoldable pub after_run : Bool × Service S → Service S
  after_run (true, s) = clean_and_give_up (complain (su_daemon_stopping s).1)
  after_run (false, s) = after_stopping (su_daemon_stopping s)

  unfoldable pub after_running : Bool × Service S → Service S
  after_running (true, s) = clean_and_give_up (su_daemon_stopping s).1
  after_running (false, s) = after_run (call_in run s)

  unfoldable pub after_init : Bool × Service S → Service S
  after_init (true, s) = give_up (complain (su_daemon_stopping s).1)
  after_init (false, s) = after_running (su_daemon_running s)

  unfoldable pub after_starting : Bool × Service S → Service S
  after_starting (false, s) = give_up s
  after_starting (true, s) = after_init (call_in init s)

  -- The argument says whether RegisterServiceCtrlHandler gives a handle.
  unfoldable pub su_daemon_service_start : Bool → Service S → Service S
  su_daemon_service_start registered s =
      if registered
      then after_starting (su_daemon_starting (su_daemon_status_init s))
      else complain (su_daemon_status_init s)

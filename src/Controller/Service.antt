-- ===== src/Controller/Service.antt =====
-- controller/controller.go: `Start`, `Stop`, `Clear` and `Status`. What is printed is left out.
use trakx.Common.{
  ℕ, zero, suc, Bool, true, false, not, ◌&&◌, ◌||◌, Option, none, some, length, ◌==◌, if◌then◌else◌,
}
use trakx.Common.Bytes.{Bytes}
use trakx.Common.Files.{File}
use trakx.Common.Outcome.{Result, ok, panic}
use trakx.Bencoding.Decimal.{ℤ, pos, negsuc}
use trakx.Udp.Protocol.Types.{heartbeat_ok}
use trakx.Storage.Types.{Bytes-discrete}
use mathlib.Core.Bool.{decide}
use trakx.Controller.PidFile.{PidError, read, write, clear}

-- The errors of `syscall.Kill`, of which one is told apart by its text.
pub data KillError : Type 0 where
  no_such_process other_error : KillError

-- The errors that the operations return, by the text they are wrapped in.
pub data ControlError : Type 0 where
  already_running log_not_opened not_started pid_not_written no_process not_signalled pid_not_read
        timed_out not_killed not_cleared :
      ControlError

-- The system calls and the network, beside those on the file. `kill_probe` sends the signal 0,
-- `sleep` lasts 100 ms; the two answers are those to a heartbeat.
pub record System (file : File) : Type 0 where
  pub kill_probe : ℤ → file.World → Option KillError
  pub find_process : ℤ → file.World → Bool
  pub signal_stop : ℤ → file.World → file.World × Bool
  pub sleep : file.World → file.World
  pub open_log : file.World → file.World × Bool
  pub start_process : file.World → file.World × Option ℤ
  pub udp_answer : file.World → Option Bytes
  pub http_answer : file.World → Option ℕ

pub record Settings : Type 0 where
  pub udp_enabled : Bool
  pub http_enabled : Bool

-- What `Status` returns.
pub record Status : Type 0 where
  pub pid_file_exists : Bool
  pub process_alive : Bool
  pub heartbeat : Bool

abbrev pub is_nil {ℓ} : {A : Type ℓ} → Option A → Bool
is_nil none = true
is_nil (some a) = false

abbrev pub is_failed : ℤ → Bool
is_failed (pos n) = false
is_failed (negsuc zero) = true
is_failed (negsuc (suc n)) = false

abbrev pub udp_alive : Option Bytes → Bool
udp_alive none = false
udp_alive (some data_bytes) =
    (length data_bytes == 1) && decide (Bytes-discrete data_bytes heartbeat_ok)

abbrev pub http_alive : Option ℕ → Bool
http_alive none = false
http_alive (some code) = code == 200

module _ (file : File) (system : System file) where
  unfoldable pub status : Settings → file.World → Status
  status settings w =
      let (process_id, e) = read file w in
      let exists = not (is_failed process_id) in
      record {
        pid_file_exists = exists;
        process_alive = exists && is_nil (system.kill_probe process_id w);
        heartbeat =
            (settings.udp_enabled && udp_alive (system.udp_answer w))
            || (settings.http_enabled && http_alive (system.http_answer w));
      }

  abbrev pub recorded : file.World × Bool → file.World × Option ControlError
  recorded (w, true) = (w, none)
  recorded (w, false) = (w, some pid_not_written)

  -- `Start` behind the start of the process.
  unfoldable pub record_process : file.World × Option ℤ → file.World × Option ControlError
  record_process (w, none) = (w, some not_started)
  record_process (w, some process_id) = recorded (write file process_id w)

  -- `Start` behind the opening of the log.
  unfoldable pub start_logged : file.World × Bool → file.World × Option ControlError
  start_logged (w, true) = record_process (system.start_process w)
  start_logged (w, false) = (w, some log_not_opened)

  unfoldable pub start : Settings → file.World → file.World × Option ControlError
  start settings w =
      let st = status settings w in
      if st.pid_file_exists || st.process_alive || st.heartbeat
      then (w, some already_running)
      else start_logged (system.open_log w)

  unfoldable pub clear_file : file.World → file.World × Option ControlError
  clear_file w =
      let (w', cleared) = clear file w in (w', if cleared then none else some not_cleared)

  -- The loop of `Stop`, with `i` and `err`, for as many tests of its condition as the fuel allows.
  unfoldable pub stop_loop :
      ℕ → ℤ → ℕ → Option KillError → file.World → Option (file.World × ℕ × Option KillError)
  stop_loop zero process_id i e w = none
  stop_loop (suc fuel) process_id i e w = elim (is_nil e || (i == 100)) [
    | true ↦
        let w' = system.sleep w in
        stop_loop fuel process_id (suc i) (system.kill_probe process_id w') w'
    | false ↦ some (w, i, e)
  ]

  -- What `Stop` does behind its loop. The text of a nil error cannot be read.
  unfoldable pub stopped :
      file.World × ℕ × Option KillError → Result (file.World × Option ControlError)
  stopped (w, i, e) = if i == 100 then ok (w, some timed_out) else elim e [
    | none ↦ panic
    | some no_such_process ↦ ok (clear_file w)
    | some other_error ↦ ok (w, some not_killed)
  ]

  unfoldable pub wait :
      ℕ → ℤ × Option PidError → file.World → Option (Result (file.World × Option ControlError))
  wait fuel (process_id, some e) w = some (ok (w, some pid_not_read))
  wait fuel (process_id, none) w = elim (stop_loop fuel process_id 0 none w) [
    | none ↦ none
    | some r ↦ some (stopped r)
  ]

  -- `Stop` behind its signal.
  unfoldable pub signalled :
      ℕ → file.World × Bool → Option (Result (file.World × Option ControlError))
  signalled fuel (w1, true) = wait fuel (read file w1) w1
  signalled fuel (w1, false) = some (ok (w1, some not_signalled))

  unfoldable pub signal :
      ℕ → ℤ × Option PidError → file.World → Option (Result (file.World × Option ControlError))
  signal fuel (process_id, some e) w = some (ok (w, some no_process))
  signal fuel (process_id, none) w = elim (system.find_process process_id w) [
    | true ↦ signalled fuel (system.signal_stop process_id w)
    | false ↦ some (ok (w, some no_process))
  ]

  -- `none` is a wait that goes on for longer than the fuel.
  unfoldable pub stop : ℕ → file.World → Option (Result (file.World × Option ControlError))
  stop fuel w = signal fuel (read file w) w

-- ===== src/Controller/Tests.antt =====
-- A machine in memory, and the theorems on the controller at it.
use trakx.Common.{
  ℕ, zero, suc, ◌+◌, ◌≡◌, refl, ap, true, false, Option, none, some, [], ◌∷◌, ltb, lt→ltb, le→ltb,
  if◌then◌else◌, arith,
}
use trakx.Common.Bytes.{Bytes, codes}
use trakx.Common.Disk.{disk, disk-IsFile}
use trakx.Common.Outcome.{ok}
use trakx.Strconv.{atoi, parse_unsigned, parse_digits}
use trakx.Bencoding.Decimal.{pos, format_int, itoa}
use trakx.Controller.PidFile.{clear, read, read_contents, write}
use trakx.Controller.Service.{
  System, Settings, KillError, no_such_process, already_running, status, start, stop,
}
use trakx.Controller.Waits.{sleeps, last_test, IsGoneFrom, stop-alive}
use trakx.Controller.Command.{
  main, run_command, print_help, returns, rebooting, rebooted, invalid_command, help,
}
use trakx.Controller.Restarts.{main-restarted}
use trakx.Storage.Types.{Bytes-discrete}

run : Unit {0}
unfolding read read_contents atoi parse_unsigned parse_digits status
run = tt

abbrev machine : (ℕ → Option KillError) → System disk
machine probe = record {
  kill_probe = λ process_id w. probe w.1;
  find_process = λ process_id w. true;
  signal_stop = λ process_id w. (w, true);
  sleep = λ w. (w.0, suc w.1);
  open_log = λ w. (w, true);
  start_process = λ w. (w, some (pos 77));
  udp_answer = λ w. none;
  http_answer = λ w. none;
}

-- A process that needs three sleeps to exit.
abbrev exits : ℕ → Option KillError
exits t = if ltb t 3 then none else some no_such_process

abbrev running : Option Bytes × ℕ
running = (some (codes "77"), 0)

sleeps_time : (probe : ℕ → Option KillError) (k : ℕ) → (sleeps disk (machine probe) k running).1 ≡ k
sleeps_time probe zero = refl
sleeps_time probe (suc k) = ap suc (sleeps_time probe k)

exits-IsGoneFrom : IsGoneFrom disk (machine exits) 3 (pos 77) running
exits-IsGoneFrom = record {
  alive = λ k h i. rw (sleeps_time exits k) (rw (lt→ltb k 3 i) refl);
  gone = λ k h. rw (sleeps_time exits k) (rw (le→ltb k 3 h) refl);
}

given : read disk running ≡ (pos 77, none)
unfolding run
given = refl

stop-alive_example : stop disk (machine (λ t. none)) 1000 running ≡ none
stop-alive_example =
    stop-alive disk (machine (λ t. none)) (pos 77) given refl refl given (λ k. refl) 1000

abbrev settings : Settings
settings = record { udp_enabled = true; http_enabled = true }

idle :
    status disk (machine exits) settings (none, 0)
    ≡ record { pid_file_exists = false; process_alive = false; heartbeat = false }
unfolding run
idle = refl

written : write disk (pos 77) (none, 0) ≡ (running, true)
unfolding run format_int itoa
written = refl

-- A service that is restarted.
abbrev cleared_disk : Option Bytes × ℕ
cleared_disk = (some [], 3)

abbrev restarted_disk : Option Bytes × ℕ
restarted_disk = (some (codes "77"), 3)

cleared_lem : clear disk (sleeps disk (machine exits) (last_test 3) running) ≡ (cleared_disk, true)
cleared_lem = refl

restarted_lem : write disk (pos 77) cleared_disk ≡ (restarted_disk, true)
unfolding format_int itoa
restarted_lem = refl

main-restarted_example :
    (main disk (machine exits) (2 + 3) settings (codes "trakx" ∷ (codes "restart" ∷ [])) running
      ≡ some (ok (restarted_disk, returns, rebooting ∷ (rebooted ∷ []))))
    × (read disk restarted_disk ≡ (pos 77, none))
    × (start disk (machine exits) settings restarted_disk ≡ (restarted_disk, some already_running))
main-restarted_example =
    main-restarted disk (machine exits) disk-IsFile settings 2 (codes "trakx") (pos 77) (pos 77)
      given refl refl given exits-IsGoneFrom cleared_lem refl refl refl refl restarted_lem
      (omega arith) refl

unknown_command :
    main disk (machine exits) 0 settings (codes "trakx" ∷ (codes "go" ∷ [])) running
    ≡ some (
        ok (
          running,
          returns,
          invalid_command (codes "go") ∷ (help (print_help (codes "trakx")) ∷ []),
        ))
unfolding main run_command Bytes-discrete mathlib.Core.Bool.decide
unknown_command = refl

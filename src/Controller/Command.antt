-- ===== src/Controller/Command.antt =====
-- cli_entry.go: the command line.
use trakx.Common.{ℕ, ◌-◌, List, [], ◌∷◌, ◌++◌, Option, none, some, length, replicate, if◌then◌else◌}
use trakx.Common.Bytes.{Bytes, codes}
use trakx.Common.Files.{File}
use trakx.Common.Outcome.{Result, ok, err, panic}
use trakx.Config.Settings.{text_is}
use trakx.Controller.Service.{
  System, Settings, Status, ControlError, status, start, stop, clear_file,
}

-- `%-12s`.
abbrev pub pad : Bytes → Bytes
pad s = s ++ replicate (12 - length s) b' '

abbrev pub help_line : Bytes → Bytes → Bytes
help_line command does = codes "   " ++ (pad command ++ (codes " " ++ (does ++ codes "\n")))

-- `printHelp`, with the name of the program.
unfoldable pub print_help : Bytes → Bytes
print_help program =
    codes "Commands:\n"
    ++ (help_line (codes "status") (codes "returns the status of trakx")
        ++ (help_line (codes "start") (codes "starts trakx daemon")
            ++ (help_line (codes "stop") (codes "stops trakx daemon")
                ++ (help_line (codes "restart") (codes "restarts trakx daemon")
                    ++ (help_line (codes "execute") (codes "executes trakx, doesn't return")
                        ++ (help_line (codes "reset") (
                              codes
                                "wipes trakx pid file, use if you encounter errors with start/stop/restart commands")
                            ++ (codes "Usage:\n"
                                ++ ((codes "   " ++ (program ++ codes " <command>\n"))
                                    ++ (codes "Example:\n"
                                        ++ (codes "   " ++ (program ++ codes " status\n")))))))))))

-- What is printed.
pub data Line : Type 0 where
  valid_pid_file invalid_pid_file process_is_alive process_is_dead heartbeat_successful
        heartbeat_failed rebooting rebooted wiping wiped :
      Line
  invalid_command : (command : Bytes) → Line
  help : (text : Bytes) → Line

-- How the process ends: `main` returns, `logFatal` exits, or the tracker runs in its place.
pub data End : Type 0 where
  returns : End
  log_fatal : ControlError → End
  executes : End

unfoldable pub status_lines : Status → List Line
status_lines st =
    (if st.pid_file_exists then valid_pid_file else invalid_pid_file)
    ∷ ((if st.process_alive then process_is_alive else process_is_dead)
        ∷ ((if st.heartbeat then heartbeat_successful else heartbeat_failed) ∷ []))

module _ (file : File) (system : System file) where
  -- A call that may fail, with the lines before it and those behind it.
  unfoldable pub or_fatal :
      List Line → List Line → file.World × Option ControlError → file.World × End × List Line
  or_fatal before behind (w, none) = (w, returns, before ++ behind)
  or_fatal before behind (w, some e) = (w, log_fatal e, before)

  abbrev pub after_stop :
      (file.World × Option ControlError → file.World × End × List Line)
      → Option (Result (file.World × Option ControlError))
      → Option (Result (file.World × End × List Line))
  after_stop f none = none
  after_stop f (some (ok r)) = some (ok (f r))
  after_stop f (some (err e)) = some (err e)
  after_stop f (some panic) = some panic

  unfoldable pub restart :
      Settings → file.World × Option ControlError → file.World × End × List Line
  restart settings (w, some e) = (w, log_fatal e, rebooting ∷ [])
  restart settings (w, none) =
      or_fatal (rebooting ∷ []) (rebooted ∷ []) (start file system settings w)

  -- The switch of `main`. `none` is a wait that goes on for longer than the fuel.
  unfoldable pub run_command :
      ℕ → Settings → Bytes → Bytes → file.World → Option (Result (file.World × End × List Line))
  run_command fuel settings program command w =
      if text_is command (codes "status")
      then some (ok (w, returns, status_lines (status file system settings w)))
      else if text_is command (codes "execute")
      then some (ok (w, executes, []))
      else if text_is command (codes "start")
      then some (ok (or_fatal [] [] (start file system settings w)))
      else if text_is command (codes "stop")
      then after_stop (or_fatal [] []) (stop file system fuel w)
      else if text_is command (codes "restart")
      then after_stop (restart settings) (stop file system fuel w)
      else if text_is command (codes "reboot")
      then after_stop (restart settings) (stop file system fuel w)
      else if text_is command (codes "reset")
      then some (ok (or_fatal (wiping ∷ []) (wiped ∷ []) (clear_file file system w)))
      else some (ok (w, returns, invalid_command command ∷ (help (print_help program) ∷ [])))

  -- `main`, with `os.Args`; of none at all, as it may be, `printHelp` would read the first.
  unfoldable pub main :
      ℕ → Settings → List Bytes → file.World → Option (Result (file.World × End × List Line))
  main fuel settings [] w = some panic
  main fuel settings (program ∷ []) w = some (ok (w, returns, help (print_help program) ∷ []))
  main fuel settings (program ∷ (command ∷ args)) w = run_command fuel settings program command w

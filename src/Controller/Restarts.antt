-- ===== src/Controller/Restarts.antt =====
-- The command restart of cli_entry.go.
use trakx.Common.{
  ℕ, suc, ◌+◌, ◌≡◌, refl, ap, ◌∙◌, false, true, if◌then◌else◌, [], ◌∷◌, none, some, Bool-cases, inl,
  inr,
}
use trakx.Common.Bytes.{Bytes, codes}
use trakx.Common.Files.{File, IsFile}
use trakx.Common.Outcome.{ok}
use trakx.Bencoding.Decimal.{ℤ}
use trakx.Strconv.{IsInt64}
use trakx.Storage.Types.{Bytes-discrete}
use trakx.Controller.PidFile.{read, write, clear, read-clear}
use trakx.Controller.Service.{
  System, Settings, not_cleared, already_running, is_failed, status, start, stop, clear_file,
}
use trakx.Controller.Waits.{sleeps, last_test, IsGoneFrom, stop-IsGoneFrom}
use trakx.Controller.Starts.{start-started}
use trakx.Controller.Command.{
  returns, rebooting, rebooted, or_fatal, after_stop, restart, run_command, main,
}

module _ (file : File) (system : System file) (law : IsFile file) (settings : Settings) where
  -- Nothing answers and the process id file is cleared.
  status_cleared :
      {w w2 : file.World}
      → clear file w ≡ (w2, true)
      → system.udp_answer w2 ≡ none
      → system.http_answer w2 ≡ none
      → status file system settings w2
        ≡ record { pid_file_exists = false; process_alive = false; heartbeat = false }
  unfolding status
  status_cleared {w} {w2} cleared no_udp no_http =
      rw (read-clear file law cleared, no_udp, no_http)
        (elim (Bool-cases settings.udp_enabled) [
          | inl e ↦
              rw e
                (elim (Bool-cases settings.http_enabled) [ inl f ↦ rw f refl | inr f ↦ rw f refl ])
          | inr e ↦
              rw e
                (elim (Bool-cases settings.http_enabled) [ inl f ↦ rw f refl | inr f ↦ rw f refl ])
        ])

  main-restart :
      (fuel : ℕ) (program : Bytes) (w : file.World)
      → main file system fuel settings (program ∷ (codes "restart" ∷ [])) w
        ≡ after_stop file system (restart file system settings) (stop file system fuel w)
  unfolding main run_command Bytes-discrete mathlib.Core.Bool.decide
  main-restart fuel program w = refl

  -- The process id file names a process that takes the signal to stop, which does not change the file, and that is gone
  -- at some test and stays gone. The file can then be cleared, nothing answers a heartbeat, the log
  -- can be opened, a process starts, and its id can be written. Then `main` with the
  -- command restart returns, having said that it reboots and that it has, the file reads as the id of the new process,
  -- and to start another is refused.
  pub main-restarted :
      (n : ℕ) (program : Bytes) (old new : ℤ) {w w1 w2 w3 w4 w5 : file.World}
      → read file w ≡ (old, none)
      → system.find_process old w ≡ true
      → system.signal_stop old w ≡ (w1, true)
      → read file w1 ≡ (old, none)
      → IsGoneFrom file system (suc n) old w1
      → clear file (sleeps file system (last_test (suc n)) w1) ≡ (w2, true)
      → system.udp_answer w2 ≡ none
      → system.http_answer w2 ≡ none
      → system.open_log w2 ≡ (w3, true)
      → system.start_process w3 ≡ (w4, some new)
      → write file new w4 ≡ (w5, true)
      → IsInt64 new
      → is_failed new ≡ false
      → (main file system (n + 3) settings (program ∷ (codes "restart" ∷ [])) w
          ≡ some (ok (w5, returns, rebooting ∷ (rebooted ∷ []))))
        × (read file w5 ≡ (new, none))
        × (start file system settings w5 ≡ (w5, some already_running))
  unfolding restart or_fatal clear_file
  main-restarted n program old new {w} {w1} {w2} given found sent kept gone cleared no_udp no_http
        opened started written int valid =
      let (start_lem, back, refused) =
        start-started file system law settings new int valid (status_cleared cleared no_udp no_http)
          opened started written in
      let stopped_lem : stop file system (n + 3) w ≡ some (ok (w2, none)) =
        stop-IsGoneFrom file system old given found sent kept n gone
        ∙ ap (λ r. some (ok (r.0, if r.1 then none else some not_cleared))) cleared in
      (
        main-restart (n + 3) program w
            ∙ ap (after_stop file system (restart file system settings)) stopped_lem
            ∙ ap (λ r. some (ok (or_fatal file system (rebooting ∷ []) (rebooted ∷ []) r)))
                start_lem,
        back,
        refused,
      )

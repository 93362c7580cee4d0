-- ===== src/Controller/Starts.antt =====
-- What `Start` of controller/controller.go leaves behind.
use trakx.Common.{◌≡◌, ap, ◌∙◌, true, false, none, some, not}
use trakx.Common.Files.{File, IsFile}
use trakx.Bencoding.Decimal.{ℤ}
use trakx.Strconv.{IsInt64}
use trakx.Controller.PidFile.{read, write, read-write}
use trakx.Controller.Service.{
  System, Settings, already_running, is_failed, status, start, start_logged, record_process,
  recorded,
}

module _ (file : File) (system : System file) (law : IsFile file) (settings : Settings) where
  start_refused :
      {process_id : ℤ} {w : file.World}
      → read file w ≡ (process_id, none)
      → is_failed process_id ≡ false
      → start file system settings w ≡ (w, some already_running)
  unfolding start
  start_refused {process_id} {w} given valid =
      let exists : (status file system settings w).pid_file_exists ≡ true =
        unfold status in (ap (λ r. not (is_failed r.0)) given ∙ ap not valid) in
      rw (exists, start)

  -- When nothing runs, the log can be opened, a process starts, and its id can be written, `Start`
  -- succeeds. The process id file then reads as that id, and a second `Start` is refused and changes
  -- nothing.
  pub start-started :
      (process_id : ℤ) {w w1 w2 w3 : file.World}
      → IsInt64 process_id
      → is_failed process_id ≡ false
      → status file system settings w
        ≡ record { pid_file_exists = false; process_alive = false; heartbeat = false }
      → system.open_log w ≡ (w1, true)
      → system.start_process w1 ≡ (w2, some process_id)
      → write file process_id w2 ≡ (w3, true)
      → (start file system settings w ≡ (w3, none))
        × (read file w3 ≡ (process_id, none))
        × (start file system settings w3 ≡ (w3, some already_running))
  unfolding start start_logged record_process
  start-started process_id {w} {w1} {w2} {w3} int valid idle opened started written =
      let back = read-write file law process_id int written in
      (
        rw (idle, start)
            (ap (start_logged file system) opened
              ∙ ap (record_process file system) started
              ∙ ap (recorded file system) written),
        back,
        start_refused back valid,
      )

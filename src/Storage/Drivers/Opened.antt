-- ===== src/Storage/Drivers/Opened.antt =====
-- What `Open` makes of a file that the database was saved to.
use trakx.Common.{◌≡◌, refl, ◌∙◌, false, [], All, none, some}
use trakx.Common.Assoc.{get, set}
use trakx.Common.Bytes.{codes}
use trakx.Common.Files.{File, IsFile}
use trakx.Common.Outcome.{ok}
use trakx.Stats.{Stats}
use trakx.Storage.Types.{Bytes-discrete}
use trakx.Storage.Memory.{HashMap}
use trakx.Storage.Memory.Counts.{IsValid}
use trakx.Storage.Sound.{IsSound}
use trakx.Storage.Trim.{sync_expvars}
use trakx.Storage.Trim.Synced.{sync_expvars-Tracks}
use trakx.Storage.Binary.Entries.{IsStorable}
use trakx.Storage.Backup.{SqlDb, load, save_file}
use trakx.Storage.Backup.Restore.{load-save_file}
use trakx.Storage.Drivers.{
  Process, register, register_backups, synced, open_with, open_db, init, sync_process, gomap,
  file_backup,
}

module _ (file : File) (pg : SqlDb) where
  open_db_file :
      (s : Process false file pg)
      → open_db (register (gomap false file pg) []) (codes "gomap") (codes "file") s
        ≡ open_with (gomap false file pg).db file_backup s
  unfolding open_db register register_backups get set Bytes-discrete mathlib.Core.Bool.decide
  open_db_file s = refl

  -- A process that saved a valid database, whose hashes and entries are storable, to its
  -- file, and one that then opens the driver "gomap" with the backup "file": the second has the
  -- database of the first, which is sound again. This is so in the build without the tag fast, if no
  -- address was counted in the second process before.
  pub open_db-save_file :
      (law : IsFile file) (m : HashMap) (w : file.World) (s : Process false file pg)
      → IsValid m
      → All IsStorable m
      → save_file file m w ≡ (s.disk, ok tt)
      → s.stats.ip_stats ≡ []
      → (st : Stats) × (open_db (register (gomap false file pg) []) (codes "gomap") (codes "file") s
          ≡ some (record s { memory = some m; stats = st }, ok tt))
        × IsSound (record { hashmap = m; stats = st })
  unfolding open_with init sync_process synced sync_expvars
  open_db-save_file law m w s v t saved fresh =
      let loaded : load file s.disk none ≡ some (some m, ok tt) =
        load-save_file file law m none w v t saved in
      (
        (sync_expvars false (some m) s.stats).0,
        open_db_file s ∙ rw (loaded, open_with) refl,
        record { valid = v; tracks = sync_expvars-Tracks m s.stats fresh },
      )

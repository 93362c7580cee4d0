-- ===== src/Storage/Drivers.antt =====
-- tracker/storage/driver.go and database.go: the drivers that are registered, and `Open`; and the
-- driver "gomap" of tracker/storage/map/register.go with `Init` of memory.go, less the goroutines that
-- save and trim now and then.
pub mod Opened
use trakx.Common.{Bool, true, false, List, [], ◌∷◌, Option, none, some}
use trakx.Common.Assoc.{get, set}
use trakx.Common.Bytes.{Bytes, codes}
use trakx.Common.Files.{File}
use trakx.Common.Outcome.{Error, Result, ok, err, panic, query_failed, bad_driver, bad_backup}
use trakx.Stats.{Stats}
use trakx.Storage.Types.{Bytes-discrete}
use trakx.Storage.Memory.{HashMap}
use trakx.Storage.Trim.{sync_expvars}
use trakx.Storage.Backup.{Loaded, load, init_none, SqlDb, load_pg}

-- The methods of a `Database` that `Open` calls, over backups `B` and what the process holds, `S`.
-- `none` is a call without an end.
pub record Database (B S : Type 0) : Type 0 where
  pub init : B → S → Option (S × Result (Unit {0}))
  pub sync : S → S × Result (Unit {0})

pub record DatabaseDriver (B S : Type 0) : Type 0 where
  pub db : Database B S
  pub backups : List (Bytes × B)

pub record DatabaseInfo (B S : Type 0) : Type 0 where
  pub name : Bytes
  pub db : Database B S
  pub backups : List (Bytes × B)

unfoldable pub register_backups :
    {B : Type 0} → List (Bytes × B) → List (Bytes × B) → List (Bytes × B)
register_backups [] m = m
register_backups ((name, back) ∷ infos) m = register_backups infos (set Bytes-discrete name back m)

module _ {B S : Type 0} where
  unfoldable pub register :
      DatabaseInfo B S → List (Bytes × DatabaseDriver B S) → List (Bytes × DatabaseDriver B S)
  register info drivers =
      set Bytes-discrete info.name
        (record { db = info.db; backups = register_backups info.backups [] }) drivers

  -- `Open` behind `Init`.
  unfoldable pub synced : Database B S → S × Result (Unit {0}) → S × Result (Unit {0})
  synced db (s, ok u) = db.sync s
  synced db (s, err e) = (s, err e)
  synced db (s, panic) = (s, panic)

  unfoldable pub open_with : Database B S → B → S → Option (S × Result (Unit {0}))
  open_with db backup s = elim (db.init backup s) [ none ↦ none | some r ↦ some (synced db r) ]

  -- The two names are those of the configuration.
  unfoldable pub open_db :
      List (Bytes × DatabaseDriver B S) → Bytes → Bytes → S → Option (S × Result (Unit {0}))
  open_db drivers db_type backup_type s = elim (get Bytes-discrete db_type drivers) [
    | none ↦ some (s, err bad_driver)
    | some driver ↦ elim (get Bytes-discrete backup_type driver.backups) [
      | none ↦ some (s, err bad_backup)
      | some backup ↦ open_with driver.db backup s
    ]
  ]

pub data Backup : Type 0 where
  file_backup pg_backup none_backup : Backup

module _ (fast : Bool) (file : File) (pg : SqlDb) where
  -- The process: what lies outside, the map of the database, and the global counters.
  pub record Process : Type 0 where
    pub disk : file.World
    pub sql : pg.World
    pub memory : Option HashMap
    pub stats : Stats

  abbrev pub put_loaded : Process → Option Loaded → Option (Process × Result (Unit {0}))
  put_loaded s none = none
  put_loaded s (some (m, r)) = some (record s { memory = m }, r)

  -- `Init` and then `Load` of a `PgBackup`.
  unfoldable pub init_pg : Process → pg.World × Bool → Option (Process × Result (Unit {0}))
  init_pg s (w, true) = put_loaded (record s { sql = w }) (load_pg pg w none)
  init_pg s (w, false) = some (record s { sql = w }, err query_failed)

  -- `Init` of the database, which is new then: its map is nil.
  unfoldable pub init : Backup → Process → Option (Process × Result (Unit {0}))
  init file_backup s = put_loaded s (load file s.disk none)
  init pg_backup s = init_pg (record s { memory = none }) (pg.init s.sql)
  init none_backup s = put_loaded s (some (init_none none))

  unfoldable pub sync_process : Process → Process × Result (Unit {0})
  sync_process s = let (st, r) = sync_expvars fast s.memory s.stats in (record s { stats = st }, r)

  abbrev pub gomap : DatabaseInfo Backup Process
  gomap = record {
    name = codes "gomap";
    db = record { init = init; sync = sync_process };
    backups =
        (codes "file", file_backup)
        ∷ ((codes "pg", pg_backup) ∷ ((codes "none", none_backup) ∷ []));
  }

-- ===== src/Storage/Backup.antt =====
-- The backups of tracker/storage/map: `FileBackup` of backup_file.go, `NoneBackup` of backup_none.go
-- and `PgBackup` of backup_pg.go. The text an error is wrapped in is left out.
pub mod Restore
pub mod Postgres
pub mod Tests
use trakx.Common.{
  ℕ, ◌+◌, ◌%◌, ◌^◌, Bool, true, false, not, ◌&&◌, [], Option, none, some, length, ltb,
  if◌then◌else◌,
}
use trakx.Common.Bytes.{Bytes}
use trakx.Common.Files.{File, there, not_there, stat_failed}
use trakx.Common.Outcome.{Error, Result, ok, err, panic, file_failed, query_failed}
use trakx.Storage.Memory.{HashMap}
use trakx.Storage.Binary.{Decoded, encode_binary, decode_binary}

-- The map of the database, `none` being nil, and how the call ended.
abbrev pub Loaded : Type 0
Loaded = Option HashMap × Result (Unit {0})

-- The map after `decodeBinary` of the data; `none` is a reading without an end.
unfoldable pub load_data : Bytes → Option Loaded
load_data data_bytes = elim (decode_binary data_bytes) [
  | none ↦ none
  | some d ↦ some (some d.hashmap, d.result)
]

module _ (file : File) where
  unfoldable pub load_file : file.World → Option HashMap → Option Loaded
  load_file w m = elim (file.read_file w) [
    | none ↦ some (m, err file_failed)
    | some data_bytes ↦ load_data data_bytes
  ]

  -- `Load` of a `FileBackup`: a file that is not there is an empty database.
  unfoldable pub load : file.World → Option HashMap → Option Loaded
  load w m = elim (file.stat w) [
    | not_there ↦ some (some [], ok tt)
    | stat_failed ↦ some (m, err file_failed)
    | there ↦ load_file w m
  ]

  abbrev pub written : file.World × Bool → file.World × Result (Unit {0})
  written (w, true) = (w, ok tt)
  written (w, false) = (w, err file_failed)

  -- `Save` of a `FileBackup`.
  unfoldable pub save_file : HashMap → file.World → file.World × Result (Unit {0})
  save_file m w = elim (encode_binary m) [
    | ok encoded ↦ written (file.write_file encoded w)
    | err e ↦ (w, err e)
    | panic ↦ (w, panic)
  ]

-- `Init` of a `NoneBackup`; its `Load` leaves the database as it is.
abbrev pub init_none : Option HashMap → Loaded
init_none m = (some [], ok tt)

-- The answer to the `SELECT`: no row, an error, or a row with the room behind its bytes in memory and
-- its age in nanoseconds, 0 for one from the future.
pub data Answer : Type 0 where
  no_rows : Answer
  failed : Answer
  row : (bytes : Bytes) → (room : ℕ) → (age : ℕ) → Answer

-- The connection with its table, and the queries, which read or change the world that holds the table.
pub record SqlDb : Type 1 where
  pub World : Type 0
  pub init : World → World × Bool
  pub select : World → Answer
  pub insert : Bytes → World → World × Bool
  pub wait : World → World
  pub delete_old : World → World × Option ℕ
  pub delete_more : World → World × Option ℕ

-- Ten minutes.
abbrev pub backup_recent_window : ℕ
backup_recent_window = 600000000000

-- A slice `data[:20]`, which reads into the room behind the data.
abbrev pub head_of : ℕ → Bytes → Result (Unit {0})
head_of room data_bytes = if ltb (length data_bytes + room) 20 then panic else ok tt

-- `Load` behind the queries.
unfoldable pub decode_row : Bytes → ℕ → Option Loaded
decode_row bytes room = elim (load_data bytes) [
  | none ↦ none
  | some (m, r) ↦ some (m, (elim r [ ok u ↦ head_of room bytes | err e ↦ err e | panic ↦ panic ]))
]

module _ (pg : SqlDb) where
  -- `Load` of a `PgBackup` from its label; the flag is `firstTry`. The second attempt is the last, so
  -- that the recursion is on the flag.
  unfoldable pub attempt_last : pg.World → Option HashMap → Option Loaded
  attempt_last w m = elim (pg.select w) [
    | no_rows ↦ some (some [], ok tt)
    | failed ↦ some (m, err query_failed)
    | row bytes room age ↦ decode_row bytes room
  ]

  unfoldable pub load_pg : pg.World → Option HashMap → Option Loaded
  load_pg w m = elim (pg.select w) [
    | no_rows ↦ some (some [], ok tt)
    | failed ↦ some (m, err query_failed)
    | row bytes room age ↦ elim (ltb backup_recent_window age) [
      | true ↦ attempt_last (pg.wait w) m
      | false ↦ decode_row bytes room
    ]
  ]

  abbrev pub inserted : Bytes → ℕ → pg.World × Bool → pg.World × Result (Unit {0})
  inserted encoded room (w, true) = (w, head_of room encoded)
  inserted encoded room (w, false) = (w, err query_failed)

  -- `Save` of a `PgBackup`: the start of the data is logged behind the query. `room` is what the
  -- buffer of the encoder has behind the data.
  unfoldable pub save_pg : HashMap → ℕ → pg.World → pg.World × Result (Unit {0})
  save_pg m room w = elim (encode_binary m) [
    | ok encoded ↦ inserted encoded room (pg.insert encoded w)
    | err e ↦ (w, err e)
    | panic ↦ (w, panic)
  ]

  -- `trim` of a `PgBackup`, with the number of the rows that are gone; `none` is its error.
  abbrev pub add_rows : ℕ → pg.World × Option ℕ → pg.World × Option ℕ
  add_rows n (w, none) = (w, none)
  add_rows n (w, some k) = (w, some ((n + k) % 2 ^ 64))

  abbrev pub trim_more : pg.World × Option ℕ → pg.World × Option ℕ
  trim_more (w, none) = (w, none)
  trim_more (w, some n) = add_rows n (pg.delete_more w)

  abbrev pub trim_pg : pg.World → pg.World × Option ℕ
  trim_pg w = trim_more (pg.delete_old w)

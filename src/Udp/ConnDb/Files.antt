-- ===== src/Udp/ConnDb/Files.antt =====
-- tracker/udp/conndb.go: the connections in their file; and `Init` and `WriteConns` of
-- tracker/udp/udptracker.go, less the goroutine that trims now and then.
use trakx.Common.{ℕ, ◌≡◌, ap, Bool, true, false, [], Option, none, some}
use trakx.Common.Bytes.{Bytes}
use trakx.Common.Files.{File, IsFile}
use trakx.Udp.ConnDb.{ConnectionMap, ConnectionDatabase, new_connection_database}

-- The package encoding/gob at the map: `Encode`, and `Decode` with the map that it leaves and whether
-- it succeeded.
pub record Gob : Type 0 where
  pub encode : ConnectionMap → Bytes
  pub decode : Bytes → ConnectionMap × Bool

-- What was encoded is decoded.
abbrev pub IsDecoded : Gob → ConnectionMap → Type 0
IsDecoded gob m = gob.decode (gob.encode m) ≡ (m, true)

module _ (file : File) (gob : Gob) where
  unfoldable pub write_to_file : ConnectionDatabase → file.World → file.World × Bool
  write_to_file db w = file.write_file (gob.encode db.connection_map) w

  abbrev pub gob_decode : ConnectionDatabase → ConnectionMap × Bool → ConnectionDatabase × Bool
  gob_decode db (m, decoded) = (record db { connection_map = m }, decoded)

  unfoldable pub load_from_file : ConnectionDatabase → file.World → ConnectionDatabase × Bool
  load_from_file db w = elim (file.read_file w) [
    | none ↦ (db, false)
    | some data_bytes ↦ gob_decode db (gob.decode data_bytes)
  ]

  -- A failed load leaves an empty map.
  abbrev pub loaded_or_empty : ConnectionDatabase × Bool → ConnectionDatabase
  loaded_or_empty (db, true) = db
  loaded_or_empty (db, false) = record db { connection_map = [] }

  unfoldable pub init : ℕ → file.World → ConnectionDatabase
  init expiry w = loaded_or_empty (load_from_file (new_connection_database expiry) w)

  -- `none` is the nil database of a tracker that was not initiated.
  unfoldable pub write_conns : Option ConnectionDatabase → file.World → file.World × Bool
  write_conns none w = (w, true)
  write_conns (some db) w = write_to_file db w

  -- The connections that were written are read when the tracker is initiated, with the new expiry.
  pub init-write_conns :
      (file-IsFile : IsFile file) (db : ConnectionDatabase) (expiry : ℕ) (w : file.World)
      {w' : file.World}
      → IsDecoded gob db.connection_map
      → write_conns (some db) w ≡ (w', true)
      → init expiry w' ≡ record { connection_map = db.connection_map; expiry = expiry }
  unfolding init write_conns write_to_file load_from_file new_connection_database
  init-write_conns file-IsFile db expiry w back e =
      rw (file-IsFile.read_written _ e, load_from_file)
        (ap (λ r. loaded_or_empty (gob_decode (new_connection_database expiry) r)) back)

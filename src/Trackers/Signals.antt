-- ===== src/Trackers/Signals.antt =====
-- tracker/signalhandler.go: `signalHandler`, for a tracker with the backup "file"; and the start of
-- `Run` in tracker/tracker.go, with `Open` and `Init` of the UDP tracker. `Shutdown` closes sockets and
-- is left out.
use trakx.Common.{ℕ, Bool, true, false, [], Option, none, some}
use trakx.Common.Bytes.{codes}
use trakx.Common.Files.{File}
use trakx.Common.Outcome.{Result, ok, err, panic, not_initiated}
use trakx.Stats.{Stats}
use trakx.Storage.Backup.{SqlDb, save_file}
use trakx.Storage.Drivers.{Process, register, open_db, gomap}
use trakx.Udp.ConnDb.Files.{Gob, init, write_conns}
use trakx.Udp.Tracker.Handlers.{UdpTracker}

pub data Signal : Type 0 where
  interrupt sigterm sigusr1 other_signal : Signal

-- The counters of a process that starts.
abbrev pub zero_stats : Stats
zero_stats = record {
  hits = 0;
  connects = 0;
  announces = 0;
  scrapes = 0;
  seeds = 0;
  leeches = 0;
  ip_stats = [];
  server_errors = 0;
  client_errors = 0;
}

module _ (fast : Bool) (file conn_file : File) (pg : SqlDb) (gob : Gob) where
  -- The trackers with the two files, with the UDP tracker enabled.
  pub record Running : Type 0 where
    pub trackers : UdpTracker
    pub disk : file.World
    pub conn_disk : conn_file.World

  -- The errors of the two saves are logged.
  unfoldable pub save_all : Running → Running
  save_all r = record r {
    disk = (save_file file r.trackers.peerdb.hashmap r.disk).0;
    conn_disk = (write_conns conn_file gob (some r.trackers.conndb) r.conn_disk).0;
  }

  -- One round of the loop; the flag says that the process exits.
  unfoldable pub handle_signal : Signal → Running → Running × Bool
  handle_signal interrupt r = (save_all r, true)
  handle_signal sigterm r = (save_all r, true)
  handle_signal sigusr1 r = (save_all r, false)
  handle_signal other_signal r = (r, false)

  -- The trackers over the database that was opened.
  unfoldable pub boot_with :
      ℕ → conn_file.World → Process fast file pg × Result (Unit {0}) → Result UdpTracker
  boot_with expiry c (s, err e) = err e
  boot_with expiry c (s, panic) = panic
  boot_with expiry c (s, ok u) = elim s.memory [
    | none ↦ err not_initiated
    | some m ↦ ok (record {
      peerdb = record { hashmap = m; stats = s.stats };
      conndb = init conn_file gob expiry c;
    })
  ]

  -- A process that starts with the two files, with the UDP tracker enabled.
  unfoldable pub boot : ℕ → file.World → pg.World → conn_file.World → Option (Result UdpTracker)
  boot expiry d q c =
      elim (open_db (register (gomap fast file pg) []) (codes "gomap") (codes "file")
        (record { disk = d; sql = q; memory = none; stats = zero_stats })) [
          | none ↦ none
          | some r ↦ some (boot_with expiry c r)
        ]

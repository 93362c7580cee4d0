-- ===== src/Trackers.antt =====
-- The two trackers over one database, as tracker/tracker.go runs them: datagrams, requests, the two
-- trims and the publishing of the statistics, in whatever order they come. Each is one step.
pub mod Runs
pub mod Signals
pub mod Publish
pub mod Launch
pub mod Launched
pub mod Restart
pub mod Tests
use trakx.Common.{ℕ, Bool, List, [], ◌∷◌, some}
use trakx.Common.Bytes.{Bytes}
use trakx.Common.Outcome.{Result, ok, ◌>>=◌}
use trakx.Storage.Memory.{Store}
use trakx.Storage.Trim.{trim}
use trakx.Udp.ConnDb
use trakx.Trackers.Publish.{Readings, publish}
use trakx.Udp.Tracker.Handlers
use trakx.Udp.Tracker.Process.{Remote, serve}
use trakx.Http.Announce
use trakx.Http.Worker.{Outside, work}

pub data Event : Type 0 where
  datagram : (env : Handlers.Env) → (d : Bytes) → (remote : Remote) → Event
  request : (env : Announce.Env) → (data_bytes : Bytes) → (size : ℕ) → (host : Bytes) → Event
  trim_peerdb : (now : ℕ) → Event
  trim_conndb : (now : ℕ) → Event
  publish_stats : (readings : Readings) → Event

-- The configuration, and the files that are embedded.
pub record Settings : Type 0 where
  pub udp : Handlers.Config
  pub http : Announce.Config
  pub expiry : ℕ
  pub file_cache : List (Bytes × Bytes)

module _ (fast : Bool) (out : Outside) (settings : Settings) where
  unfoldable pub step : Event → Handlers.UdpTracker → Result Handlers.UdpTracker
  step (datagram env d remote) u = do (u', answers) ← serve fast settings.udp env d remote u; ok u'
  step (request env data_bytes size host) u = do
    (db, answers) ←
        work out fast settings.http env settings.file_cache data_bytes size host u.peerdb
    ok (record u { peerdb = db })
  step (trim_peerdb now) u = ok (record u { peerdb = (trim fast now settings.expiry u.peerdb).0 })
  step (trim_conndb now) u = ok (record u { conndb = ConnDb.trim now u.conndb })
  step (publish_stats readings) u =
      ok (record u { peerdb = (publish fast readings (some u.conndb) u.peerdb).1 })

  unfoldable pub run : List Event → Handlers.UdpTracker → Result Handlers.UdpTracker
  run [] u = ok u
  run (e ∷ es) u = do u' ← step e u; run es u'

-- ===== src/Trackers/Runs.antt =====
-- What holds of every run of the two trackers.
use trakx.Common.{ℕ, ◌≤◌, ◌≡◌, refl, false, List, [], ◌∷◌, some, All, length}
use trakx.Common.Outcome.{Result, ok, err, panic, ◌>>=◌}
use trakx.Storage.Memory.{Store}
use trakx.Storage.Sound.{IsSound}
use trakx.Storage.Trim.Outer.{trim-IsSwept}
use trakx.Storage.Trim.Counters.{trim-Tracks}
use trakx.Udp.Tracker.Handlers.{UdpTracker}
use trakx.Udp.Tracker.Kept.{IsServed}
use trakx.Udp.Tracker.Served.{serve-IsServed}
use trakx.Http.Worker.{Outside}
use trakx.Http.Served.{IsAnswered, work-IsAnswered}
use trakx.Trackers.Publish.{publish-sound}
use trakx.Trackers.{
  Event, datagram, request, trim_peerdb, trim_conndb, publish_stats, Settings, step, run,
}

-- The buffers that the pools hand out have room for one peer, and what was read of a request lies in
-- the buffer.
unfoldable pub HasRoom : Event → Type 0
HasRoom (datagram env d remote) = (6 ≤ length env.peers4.array) × (18 ≤ length env.peers6.array)
HasRoom (request env data_bytes size host) =
    (6 ≤ length env.peers4.array) × (18 ≤ length env.peers6.array) × (size ≤ length data_bytes)
HasRoom (trim_peerdb now) = Unit
HasRoom (trim_conndb now) = Unit
HasRoom (publish_stats readings) = Unit

module _ (out : Outside) (settings : Settings) where
  served :
      (r : Result (UdpTracker × List (List ℕ)))
      → IsServed 1 r
      → (u : UdpTracker) × ((do (v, answers) ← r; ok v) ≡ ok u) × IsSound u.peerdb
  unfolding IsServed
  served (ok (u, answers)) h = (u, refl, h.0)
  served (err e) h = elim h [ ]
  served panic h = elim h [ ]

  answered :
      (u : UdpTracker) (r : Result (Store × List (List ℕ)))
      → IsAnswered r
      → (v : UdpTracker) × ((do (db, answers) ← r; ok (record u { peerdb = db })) ≡ ok v)
        × IsSound v.peerdb
  unfolding IsAnswered
  answered u (ok (db, answers)) h = (record u { peerdb = db }, refl, h.0)
  answered u (err e) h = elim h [ ]
  answered u panic h = elim h [ ]

  step-IsSound :
      (e : Event) (u : UdpTracker)
      → HasRoom e
      → IsSound u.peerdb
      → (v : UdpTracker) × (step false out settings e u ≡ ok v) × IsSound v.peerdb
  unfolding step HasRoom
  step-IsSound (datagram env d remote) u (r4, r6) s =
      served _ (serve-IsServed settings.udp env r4 r6 d remote u s)
  step-IsSound (request env data_bytes size host) u (r4, r6, k) s = answered u _ (
      work-IsAnswered out settings.http env settings.file_cache r4 r6 data_bytes size host u.peerdb
        k s)
  step-IsSound (trim_peerdb now) u h s = (
    _,
    refl,
    record {
      valid = (trim-IsSwept false now settings.expiry u.peerdb s.valid).valid;
      tracks = trim-Tracks now settings.expiry u.peerdb s.valid s.tracks;
    },
  )
  step-IsSound (trim_conndb now) u h s = (_, refl, s)
  step-IsSound (publish_stats readings) u h s =
      (_, refl, publish-sound readings (some u.conndb) u.peerdb s)

  -- Whatever datagrams, requests, trims and rounds of publishing come, in whatever order, none panics,
  -- and the database that they leave is valid and in step with the global counters. This holds in the
  -- build without the tags fast and heroku, if the database was so at first, the buffers that the
  -- pools hand out have room for one peer, and no request has more bytes than the buffer it was read
  -- into.
  pub run-IsSound :
      (es : List Event) (u : UdpTracker)
      → All HasRoom es
      → IsSound u.peerdb
      → (v : UdpTracker) × (run false out settings es u ≡ ok v) × IsSound v.peerdb
  unfolding run
  run-IsSound [] u h s = (u, refl, s)
  run-IsSound (e ∷ es) u (h, hs) s =
      let (v, stepped, sound) = step-IsSound e u h s in
      let (w, ran, end) = run-IsSound es v hs sound in (w, rw (stepped, run) ran, end)

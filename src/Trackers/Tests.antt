-- ===== src/Trackers/Tests.antt =====
-- A run of the two trackers.
use trakx.Common.{
  ◌%◌, ◌^◌, length, ◌≡◌, refl, Bool, true, false, [], ◌∷◌, List, All, none, some, arith,
}
use trakx.Common.Bytes.{Bytes, codes}
use trakx.Common.Assoc.{get}
use trakx.Common.Disk.{disk}
use trakx.Common.Outcome.{Result, ok, err, panic}
use trakx.Storage.Sound.{IsSound}
use trakx.Storage.Binary.{encode_binary, encode_hashes}
use trakx.Storage.Binary.Tests.{database}
use trakx.Storage.Backup.{save_file}
use trakx.Storage.Backup.Tests.{table}
use trakx.Udp.ConnDb.{marshall_binary, unmarshall_binary, new_connection_database}
use trakx.Udp.ConnDb.Files.{Gob, write_conns, write_to_file}
use trakx.Trackers.Signals.{Running}
use trakx.Udp.Tracker.Handlers.{UdpTracker}
use trakx.Udp.Tracker.Tests.{config, env, remote, ready, announce_datagram, start-IsSound}
use trakx.Http.Tests.{out, config as http_config, env as http_env}
use trakx.Trackers.{Event, datagram, request, trim_peerdb, trim_conndb, Settings, run}
use trakx.Trackers.Runs.{HasRoom, run-IsSound}
use trakx.Trackers.Launch
use trakx.Trackers.Launch.{
  Action, warn_not_validated, log_short_expiry, open_storage, initialize_pools, go_signal_handler,
  go_serve_info, init_udp, go_serve_udp, block_forever, warnings, run_opened, run_http, run_info,
  run_udp, launch, info_routes, info_response,
}
use trakx.Trackers.Launched.{allowed, initial, run-allowed, opened_by, accepted, opened_by-launch}
use trakx.Trackers.Publish.{Readings, publish, peer_count, publish-IsSound}
use trakx.Bencoding.Decimal.{format_int, itoa}
use trakx.Bencoding.Dictionary.{write, new_dictionary, int64, get_bytes}
use trakx.Config.Settings.{parse}
use trakx.Config.Tests.{sample, machine}
use trakx.Storage.Memory.Counts.{seed, leech}
use trakx.Storage.Memory.Sums.{total_of}
use trakx.Storage.Types.{Bytes-discrete}

abbrev settings : Settings
settings = record { udp = config; http = http_config; expiry = 600; file_cache = [] }

-- A peer announces itself, the statistics are asked for, and the peer is trimmed.
abbrev events : List Event
events =
    datagram env announce_datagram remote
    ∷ (request http_env (codes "GET /stats HTTP/1.1") 19 []
        ∷ (trim_conndb 5200 ∷ (trim_peerdb 9000 ∷ [])))

events-HasRoom : All HasRoom events
unfolding HasRoom
events-HasRoom =
    ((omega arith, omega arith), ((omega arith, omega arith, omega arith), (tt, (tt, tt))))

run-IsSound_example :
    (v : UdpTracker) × (run false out settings events ready ≡ ok v) × IsSound v.peerdb
run-IsSound_example = run-IsSound out settings events ready events-HasRoom start-IsSound

-- A stand-in for gob: the binary form of the connections.
abbrev bytes_of : Result Bytes → Bytes
bytes_of (ok b) = b
bytes_of (err e) = []
bytes_of panic = []

abbrev succeeded : Result (Unit {0}) → Bool
succeeded (ok u) = true
succeeded (err e) = false
succeeded panic = false

abbrev gob : Gob
gob = record {
  encode = λ m. bytes_of (marshall_binary (record { connection_map = m; expiry = 0 }));
  decode = λ b.
      let (db, r) = unmarshall_binary b (new_connection_database 0) in
      (db.connection_map, succeeded r);
}

abbrev running : Running false disk disk table gob
running = record {
  trackers = record ready { peerdb = record { hashmap = database; stats = ready.peerdb.stats } };
  disk = (none, 0);
  conn_disk = (none, 0);
}

saved : save_file disk database (none, 0) ≡ ((some (encode_hashes database), 0), ok tt)
unfolding save_file encode_binary
saved = refl

written :
    write_conns disk gob (some ready.conndb) (none, 0)
    ≡ ((some (gob.encode ready.conndb.connection_map), 0), true)
unfolding write_conns write_to_file
written = refl

-- The parsed configuration is launched.
run-allowed_example :
    (actions : List Action) × (Launch.run (some (record sample { loaded = true })) true (some [])
      ≡ ok actions)
    × (allowed initial actions ≡ true)
run-allowed_example = run-allowed (record sample { loaded = true }) true (some [])

opened_by-launch_example :
    opened_by (launch machine (some sample) true (some [])) ≡ accepted (parse machine sample)
opened_by-launch_example = opened_by-launch machine sample true (some []) refl

-- What is started for it.
started :
    Launch.run (some (record sample { loaded = true; http_mode = codes "info" })) true (some [])
    ≡ ok (
        warn_not_validated
        ∷ (log_short_expiry
            ∷ (open_storage true
                ∷ (initialize_pools 150
                    ∷ (go_signal_handler
                        ∷ (go_serve_info []
                            ∷ (init_udp ∷ (go_serve_udp ∷ (block_forever ∷ [])))))))))
unfolding Launch.run warnings run_opened run_http run_info run_udp Bytes-discrete
    mathlib.Core.Bool.decide
started = refl

announce_response :
    get Bytes-discrete (codes "/announce") (info_routes [] []) ≡ some (codes "d8:intervali86400ee")
unfolding info_routes info_response write new_dictionary int64 get_bytes format_int itoa get
    Bytes-discrete
announce_response = refl

abbrev readings : Readings
readings = record {
  dictionaries = 1;
  peers = 2;
  peerlists4 = 3;
  peerlists6 = 4;
  num_goroutine = 5;
  seconds = 6;
}

publish-IsSound_example :
    ((publish false readings none ready.peerdb).0.seeds
      ≡ total_of seed ready.peerdb.hashmap % 2 ^ 64)
    × ((publish false readings none ready.peerdb).0.leeches
        ≡ total_of leech ready.peerdb.hashmap % 2 ^ 64)
    × ((publish false readings none ready.peerdb).0.peers
        ≡ peer_count ready.peerdb.hashmap % 2 ^ 64)
    × ((publish false readings none ready.peerdb).0.hashes ≡ length ready.peerdb.hashmap)
    × ((publish false readings none ready.peerdb).1.hashmap ≡ ready.peerdb.hashmap)
    × ((publish false readings none ready.peerdb).1.stats.hits ≡ 0)
    × ((publish false readings none ready.peerdb).1.stats.connects ≡ 0)
    × ((publish false readings none ready.peerdb).1.stats.announces ≡ 0)
    × ((publish false readings none ready.peerdb).1.stats.scrapes ≡ 0)
    × IsSound (publish false readings none ready.peerdb).1
publish-IsSound_example = publish-IsSound readings none ready.peerdb start-IsSound

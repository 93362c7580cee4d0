-- ===== src/Trackers/Publish.antt =====
-- tracker/stats/publish.go: one round of `Publish`, and `Connections` of tracker/udp/udptracker.go. The
-- names of the variables are those of the source; each is the bits of an `int64`.
use trakx.Common.{
  ℕ, ◌+◌, ◌-◌, ◌%◌, ◌^◌, ◌≡◌, refl, Bool, false, List, [], ◌∷◌, Option, none, some, length, arith,
}
use trakx.Common.Assoc.{sum_by}
use trakx.Common.Bytes.{Bytes}
use trakx.Stats.{Stats, total}
use trakx.Storage.Types.{Peer}
use trakx.Storage.Memory.{HashMap, Store, hashes}
use trakx.Storage.Memory.Counts.{seed, leech}
use trakx.Storage.Memory.Sums.{total_of}
use trakx.Storage.Sound.{IsSound, recounted}
use trakx.Udp.ConnDb.{ConnectionDatabase, size}

-- `Connections`: -1 for a UDP tracker that was not made.
unfoldable pub connections : Option ConnectionDatabase → ℕ
connections none = 2 ^ 64 - 1
connections (some db) = size db

-- What the pools, the runtime and the clock say.
pub record Readings : Type 0 where
  pub dictionaries : ℕ
  pub peers : ℕ
  pub peerlists4 : ℕ
  pub peerlists6 : ℕ
  pub num_goroutine : ℕ
  pub seconds : ℕ

pub record Published : Type 0 where
  pub hits : ℕ
  pub connects : ℕ
  pub announces : ℕ
  pub scrapes : ℕ
  pub seeds : ℕ
  pub leeches : ℕ
  pub peers : ℕ
  pub ips : ℕ
  pub hashes : ℕ
  pub udp_connections : ℕ
  pub server_errors : ℕ
  pub client_errors : ℕ
  pub dictionary_pool : ℕ
  pub peer_pool : ℕ
  pub peerlist4_pool : ℕ
  pub peerlist6_pool : ℕ
  pub goroutines : ℕ
  pub uptime : ℕ

-- `set expvars`.
unfoldable pub set_expvars : Bool → Readings → ℕ → Store → Published
set_expvars fast readings udpconns db = record {
  hits = db.stats.hits;
  connects = db.stats.connects;
  announces = db.stats.announces;
  scrapes = db.stats.scrapes;
  seeds = db.stats.seeds;
  leeches = db.stats.leeches;
  peers = (db.stats.seeds + db.stats.leeches) % 2 ^ 64;
  ips = total fast db.stats.ip_stats;
  hashes = hashes db;
  udp_connections = udpconns;
  server_errors = db.stats.server_errors;
  client_errors = db.stats.client_errors;
  dictionary_pool = readings.dictionaries;
  peer_pool = readings.peers;
  peerlist4_pool = readings.peerlists4;
  peerlist6_pool = readings.peerlists6;
  goroutines = readings.num_goroutine;
  uptime = readings.seconds;
}

-- The requests of the next interval are counted from zero.
unfoldable pub reset_requests : Stats → Stats
reset_requests s = record s { hits = 0; connects = 0; announces = 0; scrapes = 0 }

unfoldable pub publish : Bool → Readings → Option ConnectionDatabase → Store → Published × Store
publish fast readings conndb db = (
  set_expvars fast readings (connections conndb) db,
  record db { stats = reset_requests db.stats },
)

-- The peers under all hashes.
abbrev pub peer_count : HashMap → ℕ
peer_count m = sum_by (λ pm. length pm.peers) m

over_peers_count :
    (peers : List (Bytes × Peer)) → sum_by seed peers + sum_by leech peers ≡ length peers
unfolding sum_by
over_peers_count [] = refl
over_peers_count ((id, p) ∷ peers) = ground (arith, over_peers_count peers)

total_of-peer_count : (m : HashMap) → total_of seed m + total_of leech m ≡ peer_count m
unfolding total_of sum_by
total_of-peer_count [] = refl
total_of-peer_count ((hash, pm) ∷ m) =
    omega (arith, total_of-peer_count m, over_peers_count pm.peers)

pub publish-sound :
    (readings : Readings) (conndb : Option ConnectionDatabase) (db : Store)
    → IsSound db
    → IsSound (publish false readings conndb db).1
unfolding publish reset_requests
publish-sound readings conndb db s = recounted db (reset_requests db.stats) refl refl refl s

-- Of a database that is valid and in step with the counters, without the build tag `fast`, a round
-- publishes the number of its seeders, of its leechers and of all its peers, as far as 64 bits go, and the number of
-- its hashes. The database stays so, with the same peers, and hits, connects, announces and scrapes are all four
-- counted from zero.
pub publish-IsSound :
    (readings : Readings) (conndb : Option ConnectionDatabase) (db : Store)
    → IsSound db
    → ((publish false readings conndb db).0.seeds ≡ total_of seed db.hashmap % 2 ^ 64)
      × ((publish false readings conndb db).0.leeches ≡ total_of leech db.hashmap % 2 ^ 64)
      × ((publish false readings conndb db).0.peers ≡ peer_count db.hashmap % 2 ^ 64)
      × ((publish false readings conndb db).0.hashes ≡ length db.hashmap)
      × ((publish false readings conndb db).1.hashmap ≡ db.hashmap)
      × ((publish false readings conndb db).1.stats.hits ≡ 0)
      × ((publish false readings conndb db).1.stats.connects ≡ 0)
      × ((publish false readings conndb db).1.stats.announces ≡ 0)
      × ((publish false readings conndb db).1.stats.scrapes ≡ 0)
      × IsSound (publish false readings conndb db).1
unfolding publish set_expvars reset_requests hashes
publish-IsSound readings conndb db s = (
  s.tracks.seeds,
  s.tracks.leeches,
  omega (arith, s.tracks.seeds, s.tracks.leeches, total_of-peer_count db.hashmap),
  refl,
  refl,
  refl,
  refl,
  refl,
  refl,
  publish-sound readings conndb db s,
)

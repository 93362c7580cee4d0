-- ===== src/Udp/Tracker/Tests.antt =====
-- A client of the UDP tracker that connects and announces, and the theorems at its datagrams.
use trakx.Udp.Tracker.Loop
use trakx.Udp.Tracker.Loop.{Received, closed, failed, datagram, loop-IsServed}
use trakx.Common.{
  List, ℕ, ◌≡◌, refl, true, false, ◌==◌, [], ◌∷◌, ◌++◌, some, length, replicate, arith,
}
use trakx.Common.Assoc.{get, sum_by}
use trakx.Common.Bytes.{Bytes, be, le, of_be, of_le}
use trakx.Common.Outcome.{ok, read, read_be}
use trakx.Storage.Types.{Addr, v4, Peer, Addr-discrete, Bytes-discrete, unmap}
use trakx.Storage.Memory.Sums.{peer_of, total_of}
use trakx.Storage.PeerList.{new_peerlist4, new_peerlist6, peer_list_bytes}
use trakx.Storage.PeerList.Total.{peer_list_bytes_total}
use trakx.Storage.Memory.{PeerMap}
use trakx.Storage.PeerList.Compact.{compact, listed, peer_list_bytes-compact}
use trakx.Udp.ConnDb.Binary.{plain4}
use trakx.Stats.{Stats}
use trakx.Udp.ConnDb.{AddrPort, AddrPort-discrete, check}
use trakx.Udp.Protocol.Types.{action_error}
use trakx.Udp.Protocol.Connect
use trakx.Udp.Protocol.Announce.{Announce}
use trakx.Udp.Protocol.Announce
use trakx.Udp.Protocol.Error
use mathlib.Core.Logic.{ite}
use trakx.Udp.Tracker.Messages.{bad_connection_id}
use trakx.Udp.Tracker.Handlers.{Config, Env, UdpTracker}
use trakx.Udp.Tracker.Process.{Remote, addr_port, zero_announce, txid_of, connid_of, serve}
use trakx.Storage.Sound.{IsSound}
use trakx.Udp.Tracker.Kept.{IsServed}
use trakx.Udp.Tracker.Session.{connected, serve-connect, serve-refused}
use trakx.Udp.Tracker.Announced.{serve-announce}

abbrev pub config : Config
config = record {
  numwant_default = 50;
  numwant_limit = 100;
  announce_base = 1800;
  announce_fuzz = 0;
  validate = true;
}

abbrev blank : Peer
blank = record { complete = false; ip = Addr.invalid; port = 0; last_seen = 0 }

abbrev pub env : Env
env = record {
  now = 5000;
  int63 = 77;
  int31n = 0;
  recycled = blank;
  peers4 = record { array = replicate 12 0; len = 12 };
  peers6 = record { array = replicate 36 0; len = 0 };
}

abbrev pub remote : Remote
remote = record { ip = 10 ∷ 0 ∷ 0 ∷ 1 ∷ []; port = 4000 }

abbrev no_stats : Stats
no_stats = record {
  hits = 0;
  connects = 0;
  announces = 0;
  scrapes = 0;
  seeds = 0;
  leeches = 0;
  ip_stats = [];
  server_errors = 0;
  client_errors = 0;
}

abbrev start : UdpTracker
start = record {
  peerdb = record { hashmap = []; stats = no_stats };
  conndb = record { connection_map = []; expiry = 300 };
}

abbrev home : AddrPort
home = (v4 (10 ∷ 0 ∷ 0 ∷ 1 ∷ []), 4000)

-- With the connection from `home` made.
abbrev pub ready : UdpTracker
ready = record start {
  conndb = record {
    connection_map = (home, record { id = 77; time_stamp = 4900 }) ∷ [];
    expiry = 300;
  };
}

abbrev connect_datagram : Bytes
connect_datagram = 0 ∷ 0 ∷ 4 ∷ 0x17 ∷ 0x27 ∷ 0x10 ∷ 0x19 ∷ 0x80 ∷ 0 ∷ 0 ∷ 0 ∷ 0 ∷ 0 ∷ 0 ∷ 0 ∷ 9 ∷ []

-- A leecher behind port 6881, under connection 77.
abbrev pub announce_datagram : Bytes
announce_datagram =
    0
    ∷ 0
    ∷ 0
    ∷ 0
    ∷ 0
    ∷ 0
    ∷ 0
    ∷ 77
    ∷ 0
    ∷ 0
    ∷ 0
    ∷ 1
    ∷ 0
    ∷ 0
    ∷ 0
    ∷ 9
    ∷ (replicate 20 b'a'
        ++ (replicate 20 b'x'
            ++ (replicate 8 0
                ++ (0
                    ∷ 0
                    ∷ 0
                    ∷ 0
                    ∷ 0
                    ∷ 0
                    ∷ 0
                    ∷ 5
                    ∷ (replicate 8 0
                        ++ (0 ∷ 0 ∷ 0 ∷ 2 ∷ (replicate 12 0 ++ (0x1a ∷ 0xe1 ∷ []))))))))

abbrev announced : Announce
announced = record {
  connection_id = 77;
  action = 1;
  transaction_id = 9;
  info_hash = replicate 20 b'a';
  peer_id = replicate 20 b'x';
  downloaded = 0;
  left = 5;
  uploaded = 0;
  event = 2;
  ip = 0;
  key = 0;
  num_want = 0;
  port = 6881;
}

pub start-IsSound : IsSound start.peerdb
unfolding total_of sum_by get
start-IsSound = record {
  valid = record { hashes = tt; peermaps = tt };
  tracks = record { seeds = refl; leeches = refl; ips = λ ip. refl; ip_keys = tt };
}

run : Unit {0}
unfolding read read_be of_be of_le be le unmap Bytes-discrete Addr-discrete AddrPort-discrete get
    check addr_port Announce.unmarshall Announce.decode new_peerlist4 new_peerlist6
run = tt

known : check 77 (addr_port remote) ready.conndb ≡ true
unfolding run
known = refl

unknown : check 0 (addr_port remote) start.conndb ≡ false
unfolding run
unknown = refl

read_announce : Announce.unmarshall zero_announce announce_datagram ≡ ok announced
unfolding run
read_announce = refl

connid : connid_of announce_datagram ≡ 77
unfolding run
connid = refl

first_buffer : (new_peerlist4 2 ≡ env.peers4) × (length (new_peerlist6 2).array ≡ 36)
unfolding run
first_buffer = (refl, refl)

serve-connect_example :
    (u' : UdpTracker) × (b : Bytes) × (serve false config env connect_datagram remote start
      ≡ ok (u', b ∷ []))
    × (Connect.marshall_resp (connected env connect_datagram) ≡ ok b)
    × ((id : ℕ) (a : AddrPort)
        → check id a u'.conndb
          ≡ ite (AddrPort-discrete a (addr_port remote)) (77 == id) (check id a start.conndb))
serve-connect_example =
    serve-connect false config env remote connect_datagram start (omega arith) refl

unaccepted : check (connid_of announce_datagram) (addr_port remote) start.conndb ≡ false
unfolding run
unaccepted = refl

accepted : check (connid_of announce_datagram) (addr_port remote) ready.conndb ≡ true
unfolding run
accepted = refl

serve-refused_example :
    (u' : UdpTracker) × (b : Bytes) × (serve false config env announce_datagram remote start
      ≡ ok (u', b ∷ []))
    × (Error.marshall (record {
      action = action_error;
      transaction_id = txid_of announce_datagram;
      error_string = bad_connection_id;
    })
        ≡ ok b)
    × (u'.conndb ≡ start.conndb)
    × (u'.peerdb.hashmap ≡ start.peerdb.hashmap)
serve-refused_example =
    serve-refused false config env remote announce_datagram start (omega arith) (omega arith)
      (omega arith) refl unaccepted

serve-announce_example :
    (u' : UdpTracker) × (b : Bytes) × (serve false config env announce_datagram remote ready
      ≡ ok (u', b ∷ []))
    × (peer_of (replicate 20 b'a') (replicate 20 b'x') u'.peerdb.hashmap
        ≡ some
            (record { complete = false; ip = (addr_port remote).0; port = 6881; last_seen = 5000 }))
serve-announce_example =
    serve-announce false config env remote announce_datagram ready announced (omega arith)
      (omega arith) (omega arith) refl read_announce accepted (omega arith) (omega arith)

peer_list_bytes_total_example :
    (lists : Bytes × Bytes) × (peer_list_bytes
        (replicate 20 b'a')
        50
        env.peers4
        env.peers6
        ready.peerdb.hashmap
      ≡ ok lists)
peer_list_bytes_total_example =
    peer_list_bytes_total (replicate 20 b'a') 50 env.peers4 env.peers6 ready.peerdb.hashmap
      (omega arith) (omega arith)

abbrev listed_peer : Peer
listed_peer = record {
  complete = true;
  ip = v4 (10 ∷ 0 ∷ 0 ∷ 9 ∷ []);
  port = 6881;
  last_seen = 4000;
}

abbrev one_peer : PeerMap
one_peer = record { complete = 1; incomplete = 0; peers = (replicate 20 b'x', listed_peer) ∷ [] }

found : get Bytes-discrete (replicate 20 b'a') ((replicate 20 b'a', one_peer) ∷ []) ≡ some one_peer
unfolding run
found = refl

peer_list_bytes-compact_example :
    peer_list_bytes
      (replicate 20 b'a')
      50
      env.peers4
      env.peers6
      ((replicate 20 b'a', one_peer) ∷ [])
    ≡ ok (compact false (listed 2 2 one_peer.peers), compact true (listed 2 2 one_peer.peers))
peer_list_bytes-compact_example =
    peer_list_bytes-compact (replicate 20 b'a') 50 2 env.peers4 env.peers6
      ((replicate 20 b'a', one_peer) ∷ []) found (plain4 _ refl, tt) (omega arith) (omega arith)
      (omega arith) refl refl

-- A connect and an announce come, with an error of the socket between them, and the socket is closed.
abbrev arriving : List Received
arriving =
    datagram env connect_datagram remote
    ∷ (failed ∷ (datagram env announce_datagram remote ∷ (closed ∷ [])))

loop-IsServed_example : IsServed 2 (Loop.loop false config arriving start)
unfolding Loop.HasRoom
loop-IsServed_example =
    loop-IsServed config arriving start
      ((omega arith, omega arith), (tt, ((omega arith, omega arith), (tt, tt)))) start-IsSound

-- ===== src/Storage/Memory.antt =====
-- tracker/storage/map: the peer database in local memory, in memory.go, peer.go and hash.go.
-- Each handler is taken as one step, as if no other ran beside it. A `*PeerMap` or `*Peer` is
-- written back where the map holds it.
pub mod Counts
pub mod Sums
pub mod Totals
pub mod Lookup
use trakx.Common.{
  ℕ, ◌+◌, ◌-◌, ◌%◌, ◌^◌, Bool, true, false, not, ◌&&◌, List, [], ◌∷◌, Option, none, some, length,
  ◌==◌, if◌then◌else◌,
}
use trakx.Common.Assoc.{get, set, delete}
use trakx.Common.Bytes.{Bytes}
use trakx.Storage.Types.{Addr, Peer, Bytes-discrete, Addr-discrete, signed_gt, sub64}
use trakx.Stats.{Stats, incr64, decr64, inc, remove}
use mathlib.Core.Logic.{ite}

abbrev pub Peers : Type 0
Peers = List (Bytes × Peer)

-- `Complete` and `Incomplete` are `uint16`s.
pub record PeerMap : Type 0 where
  pub complete : ℕ
  pub incomplete : ℕ
  pub peers : Peers

abbrev pub HashMap : Type 0
HashMap = List (Bytes × PeerMap)

-- The database with the global counters that it keeps.
pub record Store : Type 0 where
  pub hashmap : HashMap
  pub stats : Stats

abbrev pub incr16 : ℕ → ℕ
incr16 n = (n + 1) % 2 ^ 16

abbrev pub decr16 : ℕ → ℕ
decr16 n = (n + (2 ^ 16 - 1)) % 2 ^ 16

abbrev pub new_peermap : PeerMap
new_peermap = record { complete = 0; incomplete = 0; peers = [] }

unfoldable pub make_peermap : Bytes → HashMap → HashMap × PeerMap
make_peermap hash m = (set Bytes-discrete hash new_peermap m, new_peermap)

-- The peermap of the hash, made if it is not there.
unfoldable pub find_or_make : Bytes → HashMap → HashMap × PeerMap
unfolding make_peermap
find_or_make hash m = elim (get Bytes-discrete hash m) [
  | none ↦ make_peermap hash m
  | some pm ↦ (m, pm)
]

-- The counts of the peermap, from the peer as it was and the new flag.
unfoldable pub update_counts : Option Peer → Bool → PeerMap → PeerMap
update_counts (some peer) complete pm =
    if not peer.complete && complete
    then record pm { incomplete = decr16 pm.incomplete; complete = incr16 pm.complete }
    else if peer.complete && not complete
    then record pm { complete = decr16 pm.complete; incomplete = incr16 pm.incomplete }
    else pm
update_counts none complete pm =
    if complete
    then record pm { complete = incr16 pm.complete }
    else record pm { incomplete = incr16 pm.incomplete }

-- The seed and leech counters.
unfoldable pub update_totals : Option Peer → Bool → Stats → Stats
update_totals (some peer) complete s =
    if not peer.complete && complete
    then record s { leeches = decr64 s.leeches; seeds = incr64 s.seeds }
    else if peer.complete && not complete
    then record s { seeds = decr64 s.seeds; leeches = incr64 s.leeches }
    else s
update_totals none complete s =
    if complete
    then record s { seeds = incr64 s.seeds }
    else record s { leeches = incr64 s.leeches }

-- What `Drop` and `delete` do to the counters.
unfoldable pub drop_counts : Peer → PeerMap → PeerMap
drop_counts peer pm =
    if peer.complete
    then record pm { complete = decr16 pm.complete }
    else record pm { incomplete = decr16 pm.incomplete }

module _ (fast : Bool) where
  -- The counts by address.
  unfoldable pub update_ips : Option Peer → Addr → Stats → Stats
  update_ips (some peer) ip s =
      ite (Addr-discrete peer.ip ip) s
        (record s { ip_stats = inc fast ip (remove fast peer.ip s.ip_stats) })
  update_ips none ip s = record s { ip_stats = inc fast ip s.ip_stats }

  -- `update metrics`: skipped under the build tag `fast`.
  unfoldable pub update_stats : Option Peer → Bool → Addr → Stats → Stats
  update_stats peer complete ip s =
      if fast then s else update_ips peer ip (update_totals peer complete s)

  -- `recycled` is the peer that `pools.Peers.Get()` hands out, in whatever state it was put back;
  -- `now` is the clock.
  unfoldable pub save : Peer → ℕ → Addr → ℕ → Bool → Bytes → Bytes → Store → Store
  save recycled now ip port complete hash id s =
      let (hashmap, peermap) = find_or_make hash s.hashmap in
      let existing = get Bytes-discrete id peermap.peers in
      let peer : Peer = elim existing [ none ↦ recycled | some p ↦ p ] in
      let peer' : Peer = record peer {
        complete = complete;
        ip = ip;
        port = port;
        last_seen = now;
      } in
      let counted = update_counts existing complete peermap in
      let peermap' : PeerMap = record counted {
        peers = set Bytes-discrete id peer' peermap.peers;
      } in
      record {
        hashmap = set Bytes-discrete hash peermap' hashmap;
        stats = update_stats existing complete ip s.stats;
      }

  unfoldable pub drop_stats : Peer → Stats → Stats
  drop_stats peer s =
      if fast
      then s
      else let s' : Stats =
          if peer.complete
          then record s { seeds = decr64 s.seeds }
          else record s { leeches = decr64 s.leeches } in
        record s' { ip_stats = remove fast peer.ip s'.ip_stats }

  -- `delete`: the peermap without the peer, and the counters.
  unfoldable pub delete_peer : Peer → PeerMap → Bytes → Stats → PeerMap × Stats
  unfolding drop_counts drop_stats
  delete_peer peer pm id s =
      let pm' : PeerMap = record pm { peers = delete Bytes-discrete id pm.peers } in
      (drop_counts peer pm', drop_stats peer s)

  unfoldable pub drop : Bytes → Bytes → Store → Store
  drop hash id s = elim (get Bytes-discrete hash s.hashmap) [
    | none ↦ s
    | some pm ↦ elim (get Bytes-discrete id pm.peers) [
      | none ↦ s
      | some peer ↦
          let pm' : PeerMap = record pm { peers = delete Bytes-discrete id pm.peers } in
          record {
            hashmap = set Bytes-discrete hash (drop_counts peer pm') s.hashmap;
            stats = drop_stats peer s.stats;
          }
    ]
  ]

unfoldable pub hashes : Store → ℕ
hashes s = length s.hashmap

-- `(complete, incomplete)`; zeros for a hash that is not there.
unfoldable pub hash_stats : Bytes → Store → ℕ × ℕ
hash_stats hash s = elim (get Bytes-discrete hash s.hashmap) [
  | none ↦ (0, 0)
  | some pm ↦ (pm.complete, pm.incomplete)
]

-- ===== src/Storage/Trim.antt =====
-- `Trim` of tracker/storage/map/memory.go, and `SyncExpvars` of expvar.go.

pub mod Inner
pub mod Outer
pub mod Counters
pub mod Synced
use trakx.Common.{
  ℕ, zero, suc, ◌+◌, ◌%◌, ◌^◌, Bool, true, false, List, [], ◌∷◌, Option, none, some, length, ◌==◌,
  if◌then◌else◌,
}
use trakx.Common.Assoc.{set, delete}
use trakx.Common.Bytes.{Bytes}
use trakx.Common.Outcome.{Result, ok, err, not_initiated}
use trakx.Storage.Types.{Addr, Peer, Bytes-discrete, signed_gt, sub64}
use trakx.Storage.Memory.{PeerMap, Peers, HashMap, Store, delete_peer}
use trakx.Stats.{Stats, inc}

-- `now-peer.LastSeen > peerTimeout`, on `int64`s.
unfoldable pub is_expired : ℕ → ℕ → Peer → Bool
is_expired now timeout peer = signed_gt (sub64 now peer.last_seen) timeout

module _ (fast : Bool) (now timeout : ℕ) where
  -- One round of the inner loop.
  unfoldable pub trim_peer : Bytes → Peer → PeerMap × Stats → PeerMap × Stats
  trim_peer id peer (pm, st) =
      if is_expired now timeout peer then delete_peer fast peer pm id st else (pm, st)

  -- The inner loop, over the entries that `range` still has to yield; the count of removed peers.
  unfoldable pub trim_peers : Peers → PeerMap × Stats → PeerMap × Stats × ℕ
  trim_peers [] (pm, st) = (pm, st, 0)
  trim_peers ((id, peer) ∷ es) (pm, st) =
      let (pm', st', n) = trim_peers es (trim_peer id peer (pm, st)) in
      (pm', st', (if is_expired now timeout peer then n + 1 else n))

  -- The outer loop: the counts of removed peers and hashes. A peermap is changed in place, and taken
  -- out of the map if no peer is left in it.
  unfoldable pub trim_hashes : HashMap → Store → Store × ℕ × ℕ
  trim_hashes [] s = (s, 0, 0)
  trim_hashes ((hash, pm) ∷ es) s =
      let (pm', st', n) = trim_peers pm.peers (pm, s.stats) in
      let empty = length pm'.peers == 0 in
      let m' = set Bytes-discrete hash pm' s.hashmap in
      let s' : Store = record {
        hashmap = if empty then delete Bytes-discrete hash m' else m';
        stats = st';
      } in
      let (s'', peers, hashes) = trim_hashes es s' in
      (s'', n + peers, (if empty then hashes + 1 else hashes))

  unfoldable pub trim : Store → Store × ℕ × ℕ
  trim s = trim_hashes s.hashmap s

-- The counts of `SyncExpvars` over the peers, and the stores at its end.
module _ (fast : Bool) where
  unfoldable pub sync_peers : Peers → ℕ × ℕ × Stats → ℕ × ℕ × Stats
  sync_peers [] (seeds, leeches, st) = (seeds, leeches, st)
  sync_peers ((id, peer) ∷ es) (seeds, leeches, st) = sync_peers es (
    (if peer.complete then (seeds + 1) % 2 ^ 64 else seeds),
    (if peer.complete then leeches else (leeches + 1) % 2 ^ 64),
    record st { ip_stats = inc fast peer.ip st.ip_stats },
  )

  unfoldable pub sync_hashes : HashMap → ℕ × ℕ × Stats → ℕ × ℕ × Stats
  sync_hashes [] acc = acc
  sync_hashes ((hash, pm) ∷ es) acc = sync_hashes es (sync_peers pm.peers acc)

  -- `none` is the nil map of a database that was not initiated.
  unfoldable pub sync_expvars : Option HashMap → Stats → Stats × Result (Unit {0})
  sync_expvars none st = (st, err not_initiated)
  sync_expvars (some m) st =
      let (seeds, leeches, st') = sync_hashes m (0, 0, st) in
      (record st' { seeds = seeds; leeches = leeches }, ok tt)

-- ===== src/Storage/Locks.antt =====
-- tracker/storage/map with the locks: `Save`, `Drop` and a round of `trim` as threads. A step runs from
-- one lock to the next, with the counters changed in one step. The hashmap holds pointers to peermaps,
-- and these to peers, so that a thread may go on with a peermap that has left the map, or with a peer that has
-- gone back to the pool.
pub mod Invariant
pub mod Moves
pub mod Allocated
pub mod Alone
pub mod Pointed
pub mod Sole
pub mod Lost
pub mod Stale
pub mod Tests
use trakx.Common.{
  ℕ, Bool, true, false, List, [], ◌∷◌, ◌++◌, Option, none, some, length, ◌==◌, if◌then◌else◌,
}
use trakx.Common.Assoc.{get}
use trakx.Common.Assoc
use trakx.Common.Bytes.{Bytes}
use trakx.Common.Heap.{deref, take_out}
use trakx.Common
use trakx.Stats.{Stats}
use trakx.Storage.Types.{Addr, Peer, Bytes-discrete}
use trakx.Storage.Memory.{PeerMap, update_counts, update_stats, drop_counts, drop_stats}
use trakx.Storage.Trim.{is_expired}

-- A `PeerMap` with pointers to its peers.
-- The hashmap points to peermaps, these to peers; `pool` has the pointers that were put back.
pub record SharedMap : Type 0 where
  pub complete : ℕ
  pub incomplete : ℕ
  pub pointers : List (Bytes × ℕ)

pub record Shared : Type 0 where
  pub hashmap : List (Bytes × ℕ)
  pub peermaps : List SharedMap
  pub peers : List Peer
  pub pool : List ℕ
  pub stats : Stats

-- The arguments of `Save`, with the clock and the place of the peer that the pool hands out: a new
-- one is made if nothing stands there.
pub record Saving : Type 0 where
  pub choice : ℕ
  pub now : ℕ
  pub ip : Addr
  pub port : ℕ
  pub complete : Bool
  pub hash : Bytes
  pub id : Bytes

-- Where a thread stands, with its live variables. `looking` to `storing` are those of `Save`,
-- `drop_looking` to `drop_counting` those of `Drop`, and the next two those of a round of `trim`.
pub data Thread : Type 0 where
  looking making : (a : Saving) → Thread
  reading : (a : Saving) → (peermap : ℕ) → Thread
  writing : (a : Saving) → (peermap : ℕ) → (found : Option ℕ) → Thread
  counting : (a : Saving) → (peer : ℕ) → (existed : Bool) → Thread
  storing : (a : Saving) → (peer : ℕ) → Thread
  drop_looking : (hash id : Bytes) → Thread
  drop_locking : (id : Bytes) → (peermap : ℕ) → Thread
  drop_counting : (peer : ℕ) → Thread
  sweeping : (now timeout : ℕ) → (hash : Bytes) → (peermap : ℕ) → Thread
  emptying : (hash : Bytes) → Thread
  finished : Thread
  nil_pointer : Thread

-- The counts of a peermap, changed as in the one-step model.
abbrev pub counts_of : SharedMap → PeerMap
counts_of pm = record { complete = pm.complete; incomplete = pm.incomplete; peers = [] }

abbrev pub with_counts : PeerMap → List (Bytes × ℕ) → SharedMap
with_counts c pointers = record {
  complete = c.complete;
  incomplete = c.incomplete;
  pointers = pointers;
}

abbrev pub zero_peer : Peer
zero_peer = record { complete = false; ip = Addr.invalid; port = 0; last_seen = 0 }

-- `pools.Peers.Get()`: which of the peers that were put back comes is up to the pool.
unfoldable pub get_peer : ℕ → Shared → ℕ × Shared
get_peer choice s = elim (deref choice s.pool) [
  | none ↦ (length s.peers, record s { peers = s.peers ++ (zero_peer ∷ []) })
  | some q ↦ (q, record s { pool = take_out choice s.pool })
]

-- Under the lock of the peermap: a peer that was not found is made, although another may stand there
-- by now, and the counts are changed by what was found.
unfoldable pub write_new : Saving → ℕ → SharedMap → Shared → Thread × Shared
write_new a p pm s =
    let (q, s') = get_peer a.choice s in
    (
      counting a q false,
      record s' {
        peermaps = Common.set s'.peermaps p (
            with_counts (update_counts none a.complete (counts_of pm))
              (Assoc.set Bytes-discrete a.id q pm.pointers));
      },
    )

unfoldable pub write_found : Saving → ℕ → SharedMap → ℕ → Peer → Shared → Thread × Shared
write_found a p pm q peer s = (
  counting a q true,
  record s {
    peermaps =
        Common.set s.peermaps p
          (with_counts (update_counts (some peer) a.complete (counts_of pm)) pm.pointers);
  },
)

-- The peer as it is stored last, without a lock.
abbrev pub saved_peer : Saving → Peer
saved_peer a = record { complete = a.complete; ip = a.ip; port = a.port; last_seen = a.now }

unfoldable pub step_writing : Saving → ℕ → Option ℕ → Shared → Thread × Shared
step_writing a p found s = elim (deref p s.peermaps) [
  | none ↦ (nil_pointer, s)
  | some pm ↦ elim found [
    | none ↦ write_new a p pm s
    | some q ↦ elim (deref q s.peers) [
      | none ↦ (nil_pointer, s)
      | some peer ↦ write_found a p pm q peer s
    ]
  ]
]

module _ (fast : Bool) where
  unfoldable pub step_counting : Saving → ℕ → Bool → Shared → Thread × Shared
  step_counting a q existed s = elim (deref q s.peers) [
    | none ↦ (nil_pointer, s)
    | some peer ↦ (
      storing a q,
      record s {
        stats = update_stats fast (if existed then some peer else none) a.complete a.ip s.stats;
      },
    )
  ]

  -- `Drop` under the lock of the peermap.
  unfoldable pub step_dropping : Bytes → ℕ → Shared → Thread × Shared
  step_dropping id p s = elim (deref p s.peermaps) [
    | none ↦ (nil_pointer, s)
    | some pm ↦ elim (get Bytes-discrete id pm.pointers) [
      | none ↦ (finished, s)
      | some q ↦ elim (deref q s.peers) [
        | none ↦ (nil_pointer, s)
        | some peer ↦ (
          drop_counting q,
          record s {
            peermaps = Common.set s.peermaps p (
                with_counts (drop_counts peer (counts_of pm))
                  (Assoc.delete Bytes-discrete id pm.pointers));
          },
        )
      ]
    ]
  ]

  -- The loop of `trim` over the peers of a peermap, under its lock, with the counters and the pool;
  -- `none` is a nil pointer.
  unfoldable pub sweep :
      ℕ
      → ℕ
      → List Peer
      → List (Bytes × ℕ)
      → SharedMap × Stats × List ℕ
      → Option (SharedMap × Stats × List ℕ)
  sweep now timeout peers [] r = some r
  sweep now timeout peers ((id, q) ∷ es) (pm, st, pool) = elim (deref q peers) [
    | none ↦ none
    | some peer ↦ sweep now timeout peers es (
        if is_expired now timeout peer
        then (
          with_counts (drop_counts peer (counts_of pm))
              (Assoc.delete Bytes-discrete id pm.pointers),
          drop_stats fast peer st,
          q ∷ pool,
        )
        else (pm, st, pool))
  ]

  unfoldable pub step_sweeping : ℕ → ℕ → Bytes → ℕ → Shared → Thread × Shared
  step_sweeping now timeout hash p s = elim (deref p s.peermaps) [
    | none ↦ (nil_pointer, s)
    | some pm ↦ elim (sweep now timeout s.peers pm.pointers (pm, s.stats, s.pool)) [
      | none ↦ (nil_pointer, s)
      | some (pm', st, pool) ↦ (
        (if length pm'.pointers == 0 then emptying hash else finished),
        record s { peermaps = Common.set s.peermaps p pm'; stats = st; pool = pool },
      )
    ]
  ]

  -- From one lock to the next.
  unfoldable pub step : Thread → Shared → Thread × Shared
  step (looking a) s = elim (get Bytes-discrete a.hash s.hashmap) [
    | none ↦ (making a, s)
    | some p ↦ (reading a p, s)
  ]
  step (making a) s = (
    reading a (length s.peermaps),
    record s {
      hashmap = Assoc.set Bytes-discrete a.hash (length s.peermaps) s.hashmap;
      peermaps = s.peermaps ++ (record { complete = 0; incomplete = 0; pointers = [] } ∷ []);
    },
  )
  step (reading a p) s = elim (deref p s.peermaps) [
    | none ↦ (nil_pointer, s)
    | some pm ↦ (writing a p (get Bytes-discrete a.id pm.pointers), s)
  ]
  step (writing a p found) s = step_writing a p found s
  step (counting a q existed) s = step_counting a q existed s
  step (storing a q) s = elim (deref q s.peers) [
    | none ↦ (nil_pointer, s)
    | some peer ↦ (finished, record s { peers = Common.set s.peers q (saved_peer a) })
  ]
  step (drop_looking hash id) s = elim (get Bytes-discrete hash s.hashmap) [
    | none ↦ (finished, s)
    | some p ↦ (drop_locking id p, s)
  ]
  step (drop_locking id p) s = step_dropping id p s
  step (drop_counting q) s = elim (deref q s.peers) [
    | none ↦ (nil_pointer, s)
    | some peer ↦ (finished, record s { stats = drop_stats fast peer s.stats; pool = q ∷ s.pool })
  ]
  step (sweeping now timeout hash p) s = step_sweeping now timeout hash p s
  step (emptying hash) s =
      (finished, record s { hashmap = Assoc.delete Bytes-discrete hash s.hashmap })
  step finished s = (finished, s)
  step nil_pointer s = (nil_pointer, s)

  -- The thread at the place takes a step; a place with no thread does nothing.
  unfoldable pub turn : ℕ → List Thread × Shared → List Thread × Shared
  turn i (threads, s) = elim (deref i threads) [
    | none ↦ (threads, s)
    | some t ↦ let (t', s') = step t s in (Common.set threads i t', s')
  ]

  -- A schedule: whose turn it is, one after the other.
  unfoldable pub run : List ℕ → List Thread × Shared → List Thread × Shared
  run [] r = r
  run (i ∷ is) r = run is (turn i r)

-- The peer that a lookup finds.
unfoldable pub peer_at : Bytes → Bytes → Shared → Option Peer
peer_at hash id s = elim (get Bytes-discrete hash s.hashmap) [
  | none ↦ none
  | some p ↦ elim (deref p s.peermaps) [
    | none ↦ none
    | some pm ↦ elim (get Bytes-discrete id pm.pointers) [ none ↦ none | some q ↦ deref q s.peers ]
  ]
]

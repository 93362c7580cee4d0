-- ===== src/Storage/Binary.antt =====
-- tracker/storage/map/encode_binary.go: the database as bytes, for the file backup.
pub mod Total
pub mod Entries
pub mod RoundTrip
pub mod Tests
use trakx.Common.{
  ℕ, zero, suc, ◌+◌, ◌-◌, ◌%◌, ◌^◌, Bool, true, false, not, List, [], ◌∷◌, ◌++◌, Option, none, some,
  length, ◌==◌, leb, if◌then◌else◌,
}
use trakx.Common.Assoc.{set}
use trakx.Common.Bytes.{Bytes, le}
use trakx.Common.Outcome.{
  Result, ok, err, panic, Error, eof, unexpected_eof, bad_addr, ◌>>=◌, read, read_le,
}
use trakx.Storage.Types.{Addr, Peer, as_slice, addr_from_slice, Bytes-discrete}
use trakx.Storage.Memory.{PeerMap, Peers, HashMap, make_peermap, incr16}

-- A `bool` is one byte; the length of the address an `int32`.
unfoldable pub encode_peer : Bytes × Peer → Bytes
encode_peer (id, peer) =
    id
    ++ (le 1 (if peer.complete then 1 else 0)
        ++ (le 4 (length (as_slice peer.ip))
            ++ (as_slice peer.ip ++ (le 2 peer.port ++ le 8 peer.last_seen))))

unfoldable pub encode_peers : Peers → Bytes
encode_peers [] = []
encode_peers (e ∷ es) = encode_peer e ++ encode_peers es

unfoldable pub encode_hash : Bytes × PeerMap → Bytes
encode_hash (hash, pm) = hash ++ (le 4 (length pm.peers % 2 ^ 32) ++ encode_peers pm.peers)

unfoldable pub encode_hashes : HashMap → Bytes
encode_hashes [] = []
encode_hashes (e ∷ es) = encode_hash e ++ encode_hashes es

unfoldable pub encode_binary : HashMap → Result Bytes
encode_binary m = ok (encode_hashes m)

-- `make` panics at a negative length.
unfoldable pub make_read : ℕ → Bytes → Result (Bytes × Bytes)
make_read len b = if leb (2 ^ 31) len then panic else read len b

unfoldable pub from_slice : Bytes → Result Addr
from_slice b = elim (addr_from_slice b) [ none ↦ err bad_addr | some a ↦ ok a ]

unfoldable pub decode_peer : Bytes → Result ((Bytes × Peer) × Bytes)
decode_peer b = do
  (id, b1) ← read 20 b
  (complete, b2) ← read_le 1 b1
  (len, b3) ← read_le 4 b2
  (slice, b4) ← make_read len b3
  ip ← from_slice slice
  (port, b5) ← read_le 2 b4
  (last_seen, b6) ← read_le 8 b5
  ok (
    (id, record { complete = not (complete == 0); ip = ip; port = port; last_seen = last_seen }),
    b6,
  )

-- What the loop over the peers of one hash has filled in: the peers, the number of peers of the
-- whole file so far, and the `uint16` of complete ones.
pub record Filled : Type 0 where
  pub found : Peers
  pub peers : ℕ
  pub complete : ℕ

unfoldable pub fill : Bytes × Peer → Filled → Filled
fill (id, peer) f = record {
  found = set Bytes-discrete id peer f.found;
  peers = f.peers + 1;
  complete = if peer.complete then incr16 f.complete else f.complete;
}

unfoldable pub decode_peers : ℕ → Bytes → Filled → Filled × Result Bytes
decode_peers zero b f = (f, ok b)
decode_peers (suc n) b f = elim (decode_peer b) [
  | ok (e, rest) ↦ decode_peers n rest (fill e f)
  | err x ↦ (f, err x)
  | panic ↦ (f, panic)
]

-- The database so far, the counts, and how the reading ended.
pub record Decoded : Type 0 where
  pub hashmap : HashMap
  pub peers : ℕ
  pub hashes : ℕ
  pub result : Result (Unit {0})

-- The counters of a peermap are set when all its peers are read.
unfoldable pub counted_peermap : Filled → PeerMap
counted_peermap f = record {
  complete = f.complete;
  incomplete = (length f.found % 2 ^ 16 + (2 ^ 16 - f.complete)) % 2 ^ 16;
  peers = f.found;
}

abbrev pub uncounted : Filled → PeerMap
uncounted f = record { complete = 0; incomplete = 0; peers = f.found }

-- What the end of the loop over the peers leaves of the peermap of `hash`.
unfoldable pub finish_hash : Bytes → Decoded → Filled × Result Bytes → Decoded × Option Bytes
finish_hash hash d (f, ok next) = (
  record d {
    hashmap = set Bytes-discrete hash (counted_peermap f) d.hashmap;
    peers = f.peers;
    hashes = d.hashes + 1;
  },
  some next,
)
finish_hash hash d (f, err x) = (
  record d {
    hashmap = set Bytes-discrete hash (uncounted f) d.hashmap;
    peers = f.peers;
    result = err x;
  },
  none,
)
finish_hash hash d (f, panic) = (
  record d {
    hashmap = set Bytes-discrete hash (uncounted f) d.hashmap;
    peers = f.peers;
    result = panic;
  },
  none,
)

-- One hash with its peers: what follows, or how the reading ends.
unfoldable pub decode_hash : Bytes → Bytes → Decoded → Decoded × Option Bytes
decode_hash hash b d =
    let d1 : Decoded = record d { hashmap = (make_peermap hash d.hashmap).0 } in
    elim (read_le 4 b) [
      | err x ↦ (record d1 { result = err x }, none)
      | panic ↦ (record d1 { result = panic }, none)
      | ok (count, rest) ↦
          finish_hash hash d1
            (decode_peers count rest (record { found = []; peers = d.peers; complete = 0 }))
    ]

-- The endless loop, on fuel; `none` means that the fuel ran out. At a clean end of the data the
-- error is reset to nil.
unfoldable pub decode_loop : ℕ → Bytes → Decoded → Option Decoded
decode_loop zero b d = none
decode_loop (suc n) b d = elim (read 20 b) [
  | err eof ↦ some (record d { result = ok tt })
  | err x ↦ some (record d { result = err x })
  | panic ↦ some (record d { result = panic })
  | ok (hash, rest) ↦
      let (d', next) = decode_hash hash rest d in
      elim next [ none ↦ some d' | some b' ↦ decode_loop n b' d' ]
]

unfoldable pub decode_binary : Bytes → Option Decoded
decode_binary b =
    decode_loop (suc (length b)) b (record { hashmap = []; peers = 0; hashes = 0; result = ok tt })

-- ===== src/Storage/PeerList.antt =====
-- `PeerListBytes` of tracker/storage/map/hash.go, with the buffers of pools/pools.go.
pub mod Total
pub mod Fill
pub mod Compact
use trakx.Common.{
  ℕ, ◌+◌, ◌-◌, ◌*◌, ◌^◌, Bool, true, false, List, [], ◌∷◌, ◌++◌, Option, none, some, length, take,
  drop, replicate, ◌==◌, ltb, if◌then◌else◌,
}
use trakx.Common.Assoc.{get}
use trakx.Common.Bytes.{Bytes, be}
use trakx.Common.Outcome.{Result, ok, panic, ◌>>=◌}
use trakx.Storage.Types.{Addr, Peer, as_slice, is6, Bytes-discrete}
use trakx.Storage.Memory.{PeerMap, Peers, HashMap}

-- A byte slice: its whole capacity, and its length.
pub record Slice : Type 0 where
  pub array : Bytes
  pub len : ℕ

-- What a new buffer of the pools is. A used one comes back with any bytes and any length.
unfoldable pub new_peerlist4 : ℕ → Slice
new_peerlist4 numwant_limit = record {
  array = replicate (6 * numwant_limit) 0;
  len = 6 * numwant_limit;
}

unfoldable pub new_peerlist6 : ℕ → Slice
new_peerlist6 numwant_limit = record {
  array = replicate (18 * numwant_limit) 0;
  len = 18 * numwant_limit;
}

-- `copy` to a place in the array.
unfoldable pub copy : ℕ → Bytes → Bytes → Bytes
copy pos bs array = take pos array ++ (bs ++ drop (pos + length bs) array)

-- One peer in a window of `size` bytes for the address and 2 for the port. A window behind the
-- capacity panics.
unfoldable pub put : ℕ → Peer → Bytes × ℕ → Result (Bytes × ℕ)
put size peer (array, pos) =
    if ltb (length array) (pos + size + 2)
    then panic
    else let addressed = copy pos (take size (as_slice peer.ip)) array in
      ok (copy (pos + size) (be 2 peer.port) addressed, pos + size + 2)

-- The two arrays, and what is filled of each.
pub record Lists : Type 0 where
  pub four : Bytes × ℕ
  pub six : Bytes × ℕ

-- There is no room for one more peer.
unfoldable pub is_full : ℕ → Bytes × ℕ → Bool
is_full size (array, pos) = ltb (length array) (pos + size + 2)

unfoldable pub list_peers : Peers → Lists → Result Lists
list_peers [] s = ok s
list_peers ((id, peer) ∷ es) s =
    if is6 peer.ip
    then put 16 peer s.six >>= (λ six.
      let s' : Lists = record s { six = six } in if is_full 16 six then ok s' else list_peers es s')
    else put 4 peer s.four >>= (λ four.
      let s' : Lists = record s { four = four } in
      if is_full 4 four then ok s' else list_peers es s')

abbrev pub contents : Slice → Bytes
contents s = take s.len s.array

-- The bytes of the two slices that are returned, from the buffers that the pools hand out.
unfoldable pub peer_list_bytes : Bytes → ℕ → Slice → Slice → HashMap → Result (Bytes × Bytes)
peer_list_bytes hash num_want peers4 peers6 m = elim (get Bytes-discrete hash m) [
  | none ↦ ok (contents peers4, contents peers6)
  | some pm ↦
      let num_peers = length pm.peers in
      let num_want' = if ltb num_peers num_want then num_peers else num_want in
      if num_want' == 0
      then ok (contents peers4, contents peers6)
      else list_peers pm.peers (record { four = (peers4.array, 0); six = (peers6.array, 0) })
        >>= (λ s. ok (take s.four.1 s.four.0, take s.six.1 s.six.0))
]

-- ===== src/Storage/PeerList/Total.antt =====
-- Listing the peers writes within the buffers.
use trakx.Common.{
  ℕ, ◌+◌, ◌≤◌, ◌≡◌, refl, [], ◌∷◌, length, take, ◌==◌, ltb, if◌then◌else◌, Bool-cases, inl, inr,
  Option-cases, le→ltb, false, arith,
}
use trakx.Common.Assoc.{get}
use trakx.Common.Bytes.{Bytes, be}
use trakx.Common.Outcome.{ok}
use trakx.Storage.Types.{Peer, as_slice, is6, Bytes-discrete}
use trakx.Storage.Memory.{Peers, HashMap}
use trakx.Storage.PeerList.{Slice, copy, put, Lists, is_full, list_peers, contents, peer_list_bytes}

-- There is room for one more peer.
abbrev pub HasRoom : ℕ → Bytes × ℕ → Type 0
HasRoom size (array, pos) = pos + size + 2 ≤ length array

put-HasRoom :
    (size : ℕ) (peer : Peer) (s : Bytes × ℕ)
    → HasRoom size s
    → (s' : Bytes × ℕ) × (put size peer s ≡ ok s')
put-HasRoom size peer (array, pos) h =
    let placed = copy pos (take size (as_slice peer.ip)) array in
    (
      (copy (pos + size) (be 2 peer.port) placed, pos + size + 2),
      unfold put in rw (le→ltb (length array) (pos + size + 2) h),
    )

room_or_full : (size : ℕ) (s : Bytes × ℕ) → is_full size s ≡ false → HasRoom size s
unfolding is_full
room_or_full size (array, pos) e = ground arith

-- With room for one more in each buffer, listing the peers does not panic.
pub list_peers_total :
    (es : Peers) (s : Lists)
    → HasRoom 4 s.four
    → HasRoom 16 s.six
    → (s' : Lists) × (list_peers es s ≡ ok s')
unfolding list_peers
list_peers_total [] s h4 h6 = (s, refl)
list_peers_total ((id, peer) ∷ es) s h4 h6 = elim (Bool-cases (is6 peer.ip)) [
  | inl e ↦
      let (six, p) = put-HasRoom 16 peer s.six h6 in
      let s' : Lists = record s { six = six } in
      elim (Bool-cases (is_full 16 six)) [
        | inl f ↦ (s', rw (e, p, f))
        | inr f ↦
            let (s'', q) = list_peers_total es s' h4 (room_or_full 16 six f) in
            (s'', rw (e, p, f) q)
      ]
  | inr e ↦
      let (four, p) = put-HasRoom 4 peer s.four h4 in
      let s' : Lists = record s { four = four } in
      elim (Bool-cases (is_full 4 four)) [
        | inl f ↦ (s', rw (e, p, f))
        | inr f ↦
            let (s'', q) = list_peers_total es s' (room_or_full 4 four f) h6 in
            (s'', rw (e, p, f) q)
      ]
]

-- A list of peers is made whatever the database and the number that is wanted, if each buffer that
-- the pools hand out has room for one peer at least.
pub peer_list_bytes_total :
    (hash : Bytes) (num_want : ℕ) (peers4 peers6 : Slice) (m : HashMap)
    → 6 ≤ length peers4.array
    → 18 ≤ length peers6.array
    → (lists : Bytes × Bytes) × (peer_list_bytes hash num_want peers4 peers6 m ≡ ok lists)
unfolding peer_list_bytes
peer_list_bytes_total hash num_want peers4 peers6 m h4 h6 =
    elim (Option-cases (get Bytes-discrete hash m)) [
      | inl e ↦ ((contents peers4, contents peers6), rw (e, peer_list_bytes))
      | inr (pm, e) ↦
          let num_peers = length pm.peers in
          let num_want' = if ltb num_peers num_want then num_peers else num_want in
          let s0 : Lists = record { four = (peers4.array, 0); six = (peers6.array, 0) } in
          let (s, p) = list_peers_total pm.peers s0 h4 h6 in
          elim (Bool-cases (num_want' == 0)) [
            | inl f ↦ ((contents peers4, contents peers6), rw (e, peer_list_bytes, f))
            | inr f ↦
                ((take s.four.1 s.four.0, take s.six.1 s.six.0), rw (e, peer_list_bytes, f, p))
          ]
    ]

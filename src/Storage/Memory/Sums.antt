-- ===== src/Storage/Memory/Sums.antt =====
-- How one call changes a sum over all peers of the database, and what can be looked up after it.
use trakx.Common.{ℕ, ◌+◌, ◌≡◌, refl, ap, Bool, Option, none, some, arith, Option-cases, inl, inr}
use trakx.Common.Assoc.{get, set, delete, sum_by, weight, get-set_self, sum_by-set, sum_by-delete}
use trakx.Common.Bytes.{Bytes}
use trakx.Storage.Types.{Addr, Peer, Bytes-discrete}
use trakx.Storage.Memory.{
  PeerMap, HashMap, Store, new_peermap, make_peermap, find_or_make, update_counts, update_stats,
  save, drop_counts, drop_stats, drop,
}

-- The peer with this id under this hash.
unfoldable pub peer_of : Bytes → Bytes → HashMap → Option Peer
peer_of hash id m = elim (get Bytes-discrete hash m) [
  | none ↦ none
  | some pm ↦ get Bytes-discrete id pm.peers
]

pub peer_of-eq-some :
    (hash id : Bytes) (m : HashMap) {p : Peer}
    → peer_of hash id m ≡ some p
    → (pm : PeerMap) × (get Bytes-discrete hash m ≡ some pm)
      × (get Bytes-discrete id pm.peers ≡ some p)
unfolding peer_of
peer_of-eq-some hash id m e = ground arith

-- A sum over all peers of all hashes.
abbrev pub over_peers : (Peer → ℕ) → PeerMap → ℕ
over_peers g pm = sum_by g pm.peers

unfoldable pub total_of : (Peer → ℕ) → HashMap → ℕ
total_of g m = sum_by (over_peers g) m

over_new : (g : Peer → ℕ) → over_peers g new_peermap ≡ 0
unfolding sum_by
over_new g = refl

peers-update_counts :
    (p : Option Peer) (c : Bool) (pm : PeerMap) → (update_counts p c pm).peers ≡ pm.peers
unfolding update_counts
peers-update_counts p c pm = ground arith

peers-drop_counts : (p : Peer) (pm : PeerMap) → (drop_counts p pm).peers ≡ pm.peers
unfolding drop_counts
peers-drop_counts p pm = ground arith

module _ (hash : Bytes) (m : HashMap) where
  found_total : (g : Peer → ℕ) → total_of g (find_or_make hash m).0 ≡ total_of g m
  unfolding find_or_make total_of make_peermap
  found_total g =
      ground (arith, sum_by-set Bytes-discrete (over_peers g) hash new_peermap m, over_new g)

  found_get : get Bytes-discrete hash (find_or_make hash m).0 ≡ some (find_or_make hash m).1
  unfolding find_or_make make_peermap
  found_get = ground (arith, get-set_self Bytes-discrete hash new_peermap m)

  found_peer :
      (id : Bytes) → get Bytes-discrete id (find_or_make hash m).1.peers ≡ peer_of hash id m
  unfolding find_or_make peer_of get make_peermap
  found_peer id = ground arith

module _ (fast : Bool) (recycled : Peer) (now : ℕ) (ip : Addr) (port : ℕ) (complete : Bool)
    (hash id : Bytes) (s : Store) where
  abbrev pub saved_peer : Peer
  saved_peer = record { complete = complete; ip = ip; port = port; last_seen = now }

  -- `Save` adds the new peer's share and takes the old one's away.
  pub total_of-save :
      (g : Peer → ℕ)
      → total_of g (save fast recycled now ip port complete hash id s).hashmap
          + weight g (peer_of hash id s.hashmap)
        ≡ total_of g s.hashmap + g saved_peer
  unfolding save total_of
  total_of-save g =
      let m = (find_or_make hash s.hashmap).0 in
      let pm = (find_or_make hash s.hashmap).1 in
      let old = get Bytes-discrete id pm.peers in
      let pm' : PeerMap = record (update_counts old complete pm) {
        peers = set Bytes-discrete id saved_peer pm.peers;
      } in
      omega (
        arith,
        found_total hash s.hashmap g,
        ap (weight (over_peers g)) (found_get hash s.hashmap),
        ap (weight g) (found_peer hash s.hashmap id),
        sum_by-set Bytes-discrete g id saved_peer pm.peers,
        sum_by-set Bytes-discrete (over_peers g) hash pm' m,
      )

  pub stats-save :
      (save fast recycled now ip port complete hash id s).stats
      ≡ update_stats fast (peer_of hash id s.hashmap) complete ip s.stats
  unfolding save
  stats-save = ap (λ old. update_stats fast old complete ip s.stats) (found_peer hash s.hashmap id)

module _ (fast : Bool) (hash id : Bytes) (s : Store) where
  pub stats-drop :
      {p : Peer}
      → peer_of hash id s.hashmap ≡ some p
      → (drop fast hash id s).stats ≡ drop_stats fast p s.stats
  unfolding drop peer_of
  stats-drop e = ground arith

  -- `Drop` takes the share of the peer away, if it is there.
  pub total_of-drop :
      (g : Peer → ℕ)
      → total_of g (drop fast hash id s).hashmap + weight g (peer_of hash id s.hashmap)
        ≡ total_of g s.hashmap
  unfolding drop total_of peer_of
  total_of-drop g = elim (Option-cases (get Bytes-discrete hash s.hashmap)) [
    | inl e ↦ rw (e, drop, peer_of) (omega arith)
    | inr (pm, e) ↦ elim (Option-cases (get Bytes-discrete id pm.peers)) [
      | inl f ↦ rw (e, f, drop, peer_of) (omega arith)
      | inr (peer, f) ↦
          let pm0 : PeerMap = record pm { peers = delete Bytes-discrete id pm.peers } in
          let pm' : PeerMap = drop_counts peer pm0 in
          rw (e, f, drop, peer_of)
            (omega (
              arith,
              ap (weight (over_peers g)) e,
              ap (weight g) f,
              ap (sum_by g) (peers-drop_counts peer pm0),
              sum_by-delete Bytes-discrete g id pm.peers,
              sum_by-set Bytes-discrete (over_peers g) hash pm' s.hashmap,
            ))
    ]
  ]

  pub drop_absent : peer_of hash id s.hashmap ≡ none → drop fast hash id s ≡ s
  unfolding drop peer_of
  drop_absent h = ground arith

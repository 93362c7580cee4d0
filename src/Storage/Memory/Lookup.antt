-- ===== src/Storage/Memory/Lookup.antt =====
-- What can be looked up after `Save` and `Drop`.
use mathlib.Core.Logic.{ite}
use trakx.Common.{
  Option, ℕ, ◌≡◌, ◌≢◌, refl, sym, ap, ◌∙◌, Bool, none, some, arith, Option-cases, inl, inr,
}
use trakx.Common.Assoc.{
  get, set, delete, get-set, get-set_self, get-set_ne, get-delete_self, get-delete_ne,
  get-AllValues, Distinct,
}
use trakx.Common.Bytes.{Bytes}
use trakx.Storage.Types.{Addr, Peer, Bytes-discrete}
use trakx.Storage.Memory.{
  PeerMap, HashMap, Store, new_peermap, make_peermap, find_or_make, save, drop, drop_counts,
}
use trakx.Storage.Memory.Counts.{IsValid, IsCounted}
use trakx.Storage.Memory.Sums.{peer_of, peer_of-eq-some, drop_absent}

-- Another peer than the one with this hash and id.
abbrev pub IsOther : Bytes → Bytes → Bytes → Bytes → Type 0
IsOther hash id h i = ¬ ((h ≡ hash) × (i ≡ id))

peer_of-set_self :
    (hash i : Bytes) (pm : PeerMap) (m : HashMap)
    → peer_of hash i (set Bytes-discrete hash pm m) ≡ get Bytes-discrete i pm.peers
unfolding peer_of
peer_of-set_self hash i pm m = rw (get-set_self Bytes-discrete hash pm m, peer_of)

peer_of-set_ne :
    (hash h i : Bytes) (pm : PeerMap) (m : HashMap)
    → h ≢ hash
    → peer_of h i (set Bytes-discrete hash pm m) ≡ peer_of h i m
unfolding peer_of
peer_of-set_ne hash h i pm m n = rw (get-set_ne Bytes-discrete h hash pm m n, peer_of)

found_peer_of :
    (hash h i : Bytes) (m : HashMap) → peer_of h i (find_or_make hash m).0 ≡ peer_of h i m
unfolding find_or_make make_peermap peer_of get
found_peer_of hash h i m = ground (arith, get-set Bytes-discrete h hash new_peermap m)

found_get :
    (hash i : Bytes) (m : HashMap)
    → get Bytes-discrete i (find_or_make hash m).1.peers ≡ peer_of hash i m
unfolding find_or_make make_peermap peer_of get
found_get hash i m = ground arith

-- One peer is changed, and the others are as they were.
changed_one :
    (hash id : Bytes) (x : Option Peer) (m m' : HashMap) (h i : Bytes)
    → peer_of hash id m' ≡ x
    → ((h i : Bytes) → IsOther hash id h i → peer_of h i m' ≡ peer_of h i m)
    → peer_of h i m'
      ≡ ite (Bytes-discrete h hash) (ite (Bytes-discrete i id) x (peer_of h i m)) (peer_of h i m)
changed_one hash id x m m' h i e k = elim (Bytes-discrete h hash) [
  | yes p ↦ elim (Bytes-discrete i id) [
    | yes q ↦ ground (arith, p, q, e)
    | no q ↦ ground (arith, p, q, k h i (λ r. q r.1))
  ]
  | no p ↦ ground (arith, p, k h i (λ r. p r.0))
]

module _ (fast : Bool) (hash id : Bytes) (s : Store) where
  saved :
      (recycled : Peer) (now : ℕ) (ip : Addr) (port : ℕ) (complete : Bool)
      → (peer_of hash id (save fast recycled now ip port complete hash id s).hashmap
          ≡ some (record { complete = complete; ip = ip; port = port; last_seen = now }))
        × ((h i : Bytes)
            → IsOther hash id h i
            → peer_of h i (save fast recycled now ip port complete hash id s).hashmap
              ≡ peer_of h i s.hashmap)
  unfolding save
  saved recycled now ip port complete =
      (peer_of-set_self hash id _ _ ∙ get-set_self Bytes-discrete id _ _, others)
    where
      others :
          (h i : Bytes)
          → IsOther hash id h i
          → peer_of h i (save fast recycled now ip port complete hash id s).hashmap
            ≡ peer_of h i s.hashmap
      others h i n = elim (Bytes-discrete h hash) [
        | yes e ↦ rw e (
            peer_of-set_self hash i _ _
            ∙ get-set_ne Bytes-discrete i id _ _ (λ q. n (e, q))
            ∙ found_get hash i s.hashmap)
        | no q ↦ peer_of-set_ne hash h i _ _ q ∙ found_peer_of hash h i s.hashmap
      ]

  peers-drop_counts : (p : Peer) (pm : PeerMap) → (drop_counts p pm).peers ≡ pm.peers
  unfolding drop_counts
  peers-drop_counts p pm = ground arith

  dropped :
      (pm : PeerMap) (p : Peer)
      → get Bytes-discrete hash s.hashmap ≡ some pm
      → get Bytes-discrete id pm.peers ≡ some p
      → Distinct Bytes-discrete pm.peers
      → (peer_of hash id (drop fast hash id s).hashmap ≡ none)
        × ((h i : Bytes)
            → IsOther hash id h i
            → peer_of h i (drop fast hash id s).hashmap ≡ peer_of h i s.hashmap)
  dropped pm p found there ids = rw after (here, others)
    where
      left : PeerMap
      left = record pm { peers = delete Bytes-discrete id pm.peers }

      after : (drop fast hash id s).hashmap ≡ set Bytes-discrete hash (drop_counts p left) s.hashmap
      after = unfold drop in rw (found, there, drop)

      peers' : (drop_counts p left).peers ≡ delete Bytes-discrete id pm.peers
      peers' = peers-drop_counts p left

      here : peer_of hash id (set Bytes-discrete hash (drop_counts p left) s.hashmap) ≡ none
      here =
          peer_of-set_self hash id _ _
          ∙ ap (get Bytes-discrete id) peers'
          ∙ get-delete_self Bytes-discrete id pm.peers ids

      before : (i : Bytes) → peer_of hash i s.hashmap ≡ get Bytes-discrete i pm.peers
      before i = unfold peer_of in rw (found, peer_of)

      others :
          (h i : Bytes)
          → IsOther hash id h i
          → peer_of h i (set Bytes-discrete hash (drop_counts p left) s.hashmap)
            ≡ peer_of h i s.hashmap
      others h i n = elim (Bytes-discrete h hash) [
        | yes e ↦ rw e (
            peer_of-set_self hash i _ _
            ∙ ap (get Bytes-discrete i) peers'
            ∙ get-delete_ne Bytes-discrete i id pm.peers (λ q. n (e, q))
            ∙ sym (before i))
        | no q ↦ peer_of-set_ne hash h i _ _ q
      ]

  drop_lem :
      IsValid s.hashmap
      → (peer_of hash id (drop fast hash id s).hashmap ≡ none)
        × ((h i : Bytes)
            → IsOther hash id h i
            → peer_of h i (drop fast hash id s).hashmap ≡ peer_of h i s.hashmap)
  drop_lem v = elim (Option-cases (peer_of hash id s.hashmap)) [
    | inl e ↦ rw (drop_absent fast hash id s e) (e, λ h i n. refl)
    | inr (p, e) ↦
        let (pm, found, there) = peer_of-eq-some hash id s.hashmap e in
        let ids = (get-AllValues Bytes-discrete IsCounted hash s.hashmap v.peermaps found).ids in
        dropped pm p found there ids
  ]

  -- After `Save` the peer is there with the values that were given, whatever the pool handed out,
  -- and every other peer is as it was.
  pub peer_of-save :
      (recycled : Peer) (now : ℕ) (ip : Addr) (port : ℕ) (complete : Bool) (h i : Bytes)
      → peer_of h i (save fast recycled now ip port complete hash id s).hashmap
        ≡ ite
            (Bytes-discrete h hash)
            (ite
              (Bytes-discrete i id)
              (some (record { complete = complete; ip = ip; port = port; last_seen = now }))
              (peer_of h i s.hashmap))
            (peer_of h i s.hashmap)
  peer_of-save recycled now ip port complete h i =
      let (here, others) = saved recycled now ip port complete in
      changed_one hash id _ s.hashmap _ h i here others

  pub peer_of-save_self :
      (recycled : Peer) (now : ℕ) (ip : Addr) (port : ℕ) (complete : Bool)
      → peer_of hash id (save fast recycled now ip port complete hash id s).hashmap
        ≡ some (record { complete = complete; ip = ip; port = port; last_seen = now })
  peer_of-save_self recycled now ip port complete = (saved recycled now ip port complete).0

  -- When the database is valid, after `Drop` the peer is gone, and every other peer is as it was.
  pub peer_of-drop :
      (h i : Bytes)
      → IsValid s.hashmap
      → peer_of h i (drop fast hash id s).hashmap
        ≡ ite
            (Bytes-discrete h hash)
            (ite (Bytes-discrete i id) none (peer_of h i s.hashmap))
            (peer_of h i s.hashmap)
  peer_of-drop h i v =
      let (here, others) = drop_lem v in changed_one hash id none s.hashmap _ h i here others

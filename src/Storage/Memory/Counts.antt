-- ===== src/Storage/Memory/Counts.antt =====
-- The invariant of the peermaps: the two counters are the numbers of complete and incomplete peers,
-- as far as 16 bits go, and no key stands twice.
use trakx.Common.{ℕ, ◌%◌, ◌^◌, ◌≡◌, refl, Bool, some, if◌then◌else◌, arith, Option-cases, inl, inr}
use trakx.Common.Assoc.{
  get, set, delete, sum_by, Distinct, AllValues, sum_by-set, sum_by-delete, set-Distinct,
  delete-Distinct, set-AllValues, get-AllValues,
}
use trakx.Common.Bytes.{Bytes}
use trakx.Storage.Types.{Addr, Peer, Bytes-discrete}
use trakx.Storage.Memory.{
  PeerMap, HashMap, Store, new_peermap, find_or_make, update_counts, save, drop_counts, drop,
}

abbrev pub seed : Peer → ℕ
seed p = if p.complete then 1 else 0

abbrev pub leech : Peer → ℕ
leech p = if p.complete then 0 else 1

abbrev pub seeds_in : PeerMap → ℕ
seeds_in pm = sum_by seed pm.peers

abbrev pub leeches_in : PeerMap → ℕ
leeches_in pm = sum_by leech pm.peers

pub record IsCounted (pm : PeerMap) : Type 0 where
  pub seeds : pm.complete ≡ seeds_in pm % 2 ^ 16
  pub leeches : pm.incomplete ≡ leeches_in pm % 2 ^ 16
  pub ids : Distinct Bytes-discrete pm.peers

pub record IsValid (m : HashMap) : Type 0 where
  pub hashes : Distinct Bytes-discrete m
  pub peermaps : AllValues Bytes-discrete IsCounted m

new_peermap-IsCounted : IsCounted new_peermap
unfolding sum_by
new_peermap-IsCounted = record { seeds = refl; leeches = refl; ids = tt }

-- One peer saved in a peermap.
pub saved : Peer → Bytes → PeerMap → PeerMap
saved peer id pm = record (update_counts (get Bytes-discrete id pm.peers) peer.complete pm) {
  peers = set Bytes-discrete id peer pm.peers;
}

saved-IsCounted :
    (peer : Peer) (id : Bytes) (pm : PeerMap) → IsCounted pm → IsCounted (saved peer id pm)
unfolding saved update_counts
saved-IsCounted peer id pm h = record {
  seeds = ground (arith, h.seeds, sum_by-set Bytes-discrete seed id peer pm.peers);
  leeches = ground (arith, h.leeches, sum_by-set Bytes-discrete leech id peer pm.peers);
  ids = set-Distinct Bytes-discrete id peer pm.peers h.ids;
}

pub removed-IsCounted :
    (peer : Peer) (id : Bytes) (pm : PeerMap)
    → get Bytes-discrete id pm.peers ≡ some peer
    → IsCounted pm
    → IsCounted (drop_counts peer (record pm { peers = delete Bytes-discrete id pm.peers }))
unfolding drop_counts
removed-IsCounted peer id pm e h = record {
  seeds = ground (arith, h.seeds, sum_by-delete Bytes-discrete seed id pm.peers);
  leeches = ground (arith, h.leeches, sum_by-delete Bytes-discrete leech id pm.peers);
  ids = ground (arith, delete-Distinct Bytes-discrete id pm.peers h.ids);
}

pub set-IsValid :
    (hash : Bytes) (pm : PeerMap) (m : HashMap)
    → IsCounted pm
    → IsValid m
    → IsValid (set Bytes-discrete hash pm m)
set-IsValid hash pm m c h = record {
  hashes = set-Distinct Bytes-discrete hash pm m h.hashes;
  peermaps = set-AllValues Bytes-discrete IsCounted hash pm m c h.peermaps;
}

find_or_make-IsValid :
    (hash : Bytes) (m : HashMap)
    → IsValid m
    → IsValid (find_or_make hash m).0 × IsCounted (find_or_make hash m).1
unfolding find_or_make
find_or_make-IsValid hash m h = elim (Option-cases (get Bytes-discrete hash m)) [
  | inl e ↦
      rw (e, find_or_make)
        (set-IsValid hash new_peermap m new_peermap-IsCounted h, new_peermap-IsCounted)
  | inr (pm, e) ↦
      rw (e, find_or_make) (h, get-AllValues Bytes-discrete IsCounted hash m h.peermaps e)
]

module _ (fast : Bool) where
  -- `Save` keeps the invariant, whatever peer the pool hands out.
  pub save-IsValid :
      (recycled : Peer) (now : ℕ) (ip : Addr) (port : ℕ) (complete : Bool) (hash id : Bytes)
      (s : Store)
      → IsValid s.hashmap
      → IsValid (save fast recycled now ip port complete hash id s).hashmap
  unfolding save
  save-IsValid recycled now ip port complete hash id s h =
      let (m, pm) = find_or_make-IsValid hash s.hashmap h in
      set-IsValid hash _ (find_or_make hash s.hashmap).0
        (unfold saved in
          saved-IsCounted (record { complete = complete; ip = ip; port = port; last_seen = now }) id
            (find_or_make hash s.hashmap).1 pm)
        m

  -- `Drop` keeps the invariant.
  pub drop-IsValid :
      (hash id : Bytes) (s : Store) → IsValid s.hashmap → IsValid (drop fast hash id s).hashmap
  unfolding drop
  drop-IsValid hash id s h = elim (Option-cases (get Bytes-discrete hash s.hashmap)) [
    | inl e ↦ rw (e, drop) h
    | inr (pm, e) ↦ elim (Option-cases (get Bytes-discrete id pm.peers)) [
      | inl f ↦ rw (e, f, drop) h
      | inr (peer, f) ↦
          rw (e, f, drop)
            (set-IsValid hash _ s.hashmap
              (removed-IsCounted peer id pm f
                (get-AllValues Bytes-discrete IsCounted hash s.hashmap h.peermaps e))
              h)
    ]
  ]

-- ===== src/Storage/Trim/Inner.antt =====
-- The inner loop of `trim`: what it leaves in one peermap.
use trakx.Common.{
  ℕ, ◌+◌, ◌≡◌, refl, sym, ap, ◌∙◌, subst, Bool, false, [], ◌∷◌, ◌++◌, none, some, length,
  if◌then◌else◌, append_assoc, Bool-cases, inl, inr, arith,
}
use trakx.Common.Assoc.{
  get, delete, sum_by, weight, Distinct, get_middle, get_front, delete_middle, sum_by-delete,
}
use trakx.Common.Bytes.{Bytes}
use trakx.Storage.Types.{Peer, Bytes-discrete}
use trakx.Storage.Memory.{PeerMap, Peers, drop_counts, delete_peer}
use trakx.Storage.Memory.Counts.{IsCounted, removed-IsCounted}
use trakx.Storage.Memory.Totals.{TracksBy, dropped-TracksBy}
use trakx.Storage.Trim.{is_expired, trim_peer, trim_peers}
use trakx.Stats.{Stats}

-- The peers that have been seen within the timeout, in their order.
unfoldable pub live : ℕ → ℕ → Peers → Peers
live now timeout [] = []
live now timeout ((id, p) ∷ es) =
    if is_expired now timeout p then live now timeout es else (id, p) ∷ live now timeout es

peers-drop_counts : (p : Peer) (pm : PeerMap) → (drop_counts p pm).peers ≡ pm.peers
unfolding drop_counts
peers-drop_counts p pm = ground arith

module _ (fast : Bool) (now timeout : ℕ) where
  -- `kept` is what the loop has passed, `es` what it has not reached.
  pub record IsTrimmed (kept es : Peers) (r : PeerMap × Stats × ℕ) : Type 0 where
    pub peers : r.0.peers ≡ kept ++ live now timeout es
    pub counted : IsCounted r.0
    pub removed : r.2 + length (live now timeout es) ≡ length es

  module _ (id : Bytes) (p : Peer) (kept es : Peers) (pm : PeerMap) (st : Stats)
      (here : pm.peers ≡ kept ++ ((id, p) ∷ es)) (counted : IsCounted pm) where
    middle : get Bytes-discrete id kept ≡ none
    middle =
        get_front Bytes-discrete id p kept es (subst (Distinct Bytes-discrete) here counted.ids)

    there : get Bytes-discrete id pm.peers ≡ some p
    there = ap (get Bytes-discrete id) here ∙ get_middle Bytes-discrete id p kept es middle

    deleted_peers : (delete_peer fast p pm id st).0.peers ≡ kept ++ es
    unfolding delete_peer
    deleted_peers =
        peers-drop_counts p _
        ∙ ap (delete Bytes-discrete id) here
        ∙ delete_middle Bytes-discrete id p kept es middle

    deleted-IsCounted : IsCounted (delete_peer fast p pm id st).0
    unfolding delete_peer
    deleted-IsCounted = removed-IsCounted p id pm there counted

  pub trim_peers-IsTrimmed :
      (es kept : Peers) (pm : PeerMap) (st : Stats)
      → pm.peers ≡ kept ++ es
      → IsCounted pm
      → IsTrimmed kept es (trim_peers fast now timeout es (pm, st))
  unfolding trim_peers live trim_peer
  trim_peers-IsTrimmed [] kept pm st here c = record { peers = here; counted = c; removed = refl }
  trim_peers-IsTrimmed ((id, p) ∷ es) kept pm st here c =
      elim (Bool-cases (is_expired now timeout p)) [
        | inl e ↦
            let ih =
              trim_peers-IsTrimmed es kept (delete_peer fast p pm id st).0
                (delete_peer fast p pm id st).1 (deleted_peers id p kept es pm st here c)
                (deleted-IsCounted id p kept es pm st here c) in
            rw (e, trim_peer)
              (record {
                peers = rw e ih.peers;
                counted = ih.counted;
                removed = rw e (omega (arith, ih.removed));
              })
        | inr n ↦
            let ih =
              trim_peers-IsTrimmed es (kept ++ ((id, p) ∷ [])) pm st
                (here ∙ sym (append_assoc kept ((id, p) ∷ []) es)) c in
            rw (n, trim_peer)
              (record {
                peers = rw n (ih.peers ∙ append_assoc kept ((id, p) ∷ []) (live now timeout es));
                counted = ih.counted;
                removed = rw n (omega (arith, ih.removed));
              })
      ]

-- The counters, in the build without the tag `fast`: `rest` is the sum over all other peermaps.
module _ (now timeout : ℕ) (rest : (Peer → ℕ) → ℕ) where
  deleted-TracksBy :
      (id : Bytes) (p : Peer) (pm : PeerMap) (st : Stats)
      → get Bytes-discrete id pm.peers ≡ some p
      → TracksBy st (λ g. sum_by g pm.peers + rest g)
      → TracksBy
          (delete_peer false p pm id st).1
          (λ g. sum_by g (delete_peer false p pm id st).0.peers + rest g)
  unfolding delete_peer
  deleted-TracksBy id p pm st found t =
      let left : PeerMap = record pm { peers = delete Bytes-discrete id pm.peers } in
      dropped-TracksBy st (λ g. sum_by g pm.peers + rest g) _ p t
        (λ g. omega (
          arith,
          ap (sum_by g) (peers-drop_counts p left),
          ap (weight g) found,
          sum_by-delete Bytes-discrete g id pm.peers,
        ))

  pub trim_peers-TracksBy :
      (es kept : Peers) (pm : PeerMap) (st : Stats)
      → pm.peers ≡ kept ++ es
      → IsCounted pm
      → TracksBy st (λ g. sum_by g pm.peers + rest g)
      → TracksBy
          (trim_peers false now timeout es (pm, st)).1
          (λ g. sum_by g (trim_peers false now timeout es (pm, st)).0.peers + rest g)
  unfolding trim_peers trim_peer
  trim_peers-TracksBy [] kept pm st here c t = t
  trim_peers-TracksBy ((id, p) ∷ es) kept pm st here c t =
      elim (Bool-cases (is_expired now timeout p)) [
        | inl e ↦
            let at_p = deleted_peers false now timeout id p kept es pm st here c in
            let counted = deleted-IsCounted false now timeout id p kept es pm st here c in
            let found = there false now timeout id p kept es pm st here c in
            rw (e, trim_peer)
              (trim_peers-TracksBy es kept (delete_peer false p pm id st).0
                (delete_peer false p pm id st).1 at_p counted (deleted-TracksBy id p pm st found t))
        | inr n ↦
            rw (n, trim_peer)
              (trim_peers-TracksBy es (kept ++ ((id, p) ∷ [])) pm st
                (here ∙ sym (append_assoc kept ((id, p) ∷ []) es)) c t)
      ]

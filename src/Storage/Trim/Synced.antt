-- ===== src/Storage/Trim/Synced.antt =====
-- `SyncExpvars` of tracker/storage/map/expvar.go, against the contents of the database.
use trakx.Common.{
  ℕ, ◌+◌, ◌%◌, ◌^◌, ◌≡◌, refl, sym, ap, ◌∙◌, subst, fun_ext, false, [], ◌∷◌, none, some,
  if◌then◌else◌, arith, Bool-cases, inl, inr,
}
use trakx.Common.Assoc.{Distinct, get, sum_by}
use trakx.Stats.{Stats, inc, count}
use trakx.Storage.Types.{Addr, Addr-discrete, Peer}
use trakx.Storage.Memory.{Peers, HashMap, update_stats, update_totals, update_ips}
use trakx.Storage.Memory.Sums.{total_of, over_peers}
use trakx.Storage.Memory.Totals.{TracksBy, Tracks, updated-TracksBy}
use trakx.Storage.Trim.{sync_peers, sync_hashes, sync_expvars}

-- The counters as they are stored at the end.
abbrev counted : ℕ × ℕ × Stats → Stats
counted (seeds, leeches, st) = record st { seeds = seeds; leeches = leeches }

get_nothing : (ip : Addr) → count ip [] ≡ 0
unfolding get
get_nothing ip = refl

TracksBy-total :
    {st : Stats} {w w' : (Peer → ℕ) → ℕ}
    → ((g : Peer → ℕ) → w g ≡ w' g)
    → TracksBy st w
    → TracksBy st w'
TracksBy-total {st} h t = subst (TracksBy st) (fun_ext h) t

abbrev sync_peer : Peer → ℕ × ℕ × Stats → ℕ × ℕ × Stats
sync_peer peer (seeds, leeches, st) = (
  (if peer.complete then (seeds + 1) % 2 ^ 64 else seeds),
  (if peer.complete then leeches else (leeches + 1) % 2 ^ 64),
  record st { ip_stats = inc false peer.ip st.ip_stats },
)

counted-sync_peer :
    (peer : Peer) (acc : ℕ × ℕ × Stats)
    → counted (sync_peer peer acc) ≡ update_stats false none peer.complete peer.ip (counted acc)
unfolding update_stats update_totals update_ips
counted-sync_peer peer acc = elim (Bool-cases peer.complete) [
  | inl e ↦ rw e refl
  | inr e ↦ rw e refl
]

sync_peer-TracksBy :
    (peer : Peer) (acc : ℕ × ℕ × Stats) (w : (Peer → ℕ) → ℕ)
    → TracksBy (counted acc) w
    → TracksBy (counted (sync_peer peer acc)) (λ g. w g + g peer)
sync_peer-TracksBy peer acc w t =
    subst (λ st. TracksBy st (λ g. w g + g peer)) (sym (counted-sync_peer peer acc))
      (updated-TracksBy (counted acc) w (λ g. w g + g peer) none peer t (λ g. omega arith))

sync_peers-TracksBy :
    (ps : Peers) (acc : ℕ × ℕ × Stats) (w : (Peer → ℕ) → ℕ)
    → TracksBy (counted acc) w
    → TracksBy (counted (sync_peers false ps acc)) (λ g. w g + sum_by g ps)
unfolding sync_peers sum_by
sync_peers-TracksBy [] acc w t = TracksBy-total (λ g. omega arith) t
sync_peers-TracksBy ((id, peer) ∷ ps) acc w t =
    TracksBy-total (λ g. omega arith)
      (sync_peers-TracksBy ps (sync_peer peer acc) (λ g. w g + g peer)
        (sync_peer-TracksBy peer acc w t))

sync_hashes-TracksBy :
    (m : HashMap) (acc : ℕ × ℕ × Stats) (w : (Peer → ℕ) → ℕ)
    → TracksBy (counted acc) w
    → TracksBy (counted (sync_hashes false m acc)) (λ g. w g + total_of g m)
unfolding sync_hashes total_of sum_by
sync_hashes-TracksBy [] acc w t = TracksBy-total (λ g. omega arith) t
sync_hashes-TracksBy ((hash, pm) ∷ m) acc w t =
    TracksBy-total (λ g. omega arith)
      (sync_hashes-TracksBy m (sync_peers false pm.peers acc) (λ g. w g + over_peers g pm)
        (sync_peers-TracksBy pm.peers acc w t))

none-TracksBy : (st : Stats) → st.ip_stats ≡ [] → TracksBy (counted (0, 0, st)) (λ g. 0)
none-TracksBy st e = record {
  seeds = omega arith;
  leeches = omega arith;
  ips = λ ip. ap (count ip) e ∙ get_nothing ip;
  ip_keys = subst (Distinct Addr-discrete) (sym e) tt;
}

-- In the build without the tag `fast`, SyncExpvars brings the global counters in step with whatever
-- the database holds, if no address was counted before: `Seeds` and `Leeches` may have been
-- anything.
pub sync_expvars-Tracks :
    (m : HashMap) (st : Stats)
    → st.ip_stats ≡ []
    → Tracks (record { hashmap = m; stats = (sync_expvars false (some m) st).0 })
unfolding sync_expvars
sync_expvars-Tracks m st e =
    TracksBy-total (λ g. omega arith)
      (sync_hashes-TracksBy m (0, 0, st) (λ g. 0) (none-TracksBy st e))

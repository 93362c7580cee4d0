-- ===== src/Udp/Tracker/Kept.antt =====
-- Every datagram is answered at most once, and leaves the database valid.
use trakx.Common.{
  ℕ, ◌≤◌, ◌≡◌, refl, false, ◌||◌, List, length, ltb, ◌==◌, Bool-cases, inl, inr, arith,
}
use trakx.Common.Bytes.{Bytes}
use trakx.Common.Outcome.{Result, ok, err, panic}
use trakx.Storage.Memory.{save}
use trakx.Storage.Memory.Counts.{save-IsValid, drop-IsValid}
use trakx.Storage.Memory.Totals.{save-Tracks, drop-Tracks}
use trakx.Stats.{incr64}
use trakx.Storage.PeerList.Total.{peer_list_bytes_total}
use trakx.Storage.Sound.{IsSound, recounted}
use trakx.Udp.ConnDb.{AddrPort}
use trakx.Udp.Protocol.Types.{event_stopped, event_completed}
use trakx.Udp.Protocol.Connect.{Connect}
use trakx.Udp.Protocol.Connect
use trakx.Udp.Protocol.Announce.{Announce}
use trakx.Udp.Protocol.Announce
use trakx.Udp.Protocol.Scrape.{Scrape}
use trakx.Udp.Protocol.Scrape
use trakx.Udp.Tracker.Handlers.{
  Config, Env, UdpTracker, respond, connect, announce, announce_stopped, announce_peer, scrape,
  new_server_error, bad_hashes, new_client_error, count_stats, refuse, to_uint, clamp,
}

-- A request ends with no panic, at most `n` datagrams, and a sound database.
unfoldable pub IsServed : ℕ → Result (UdpTracker × List Bytes) → Type 0
IsServed n (ok (u, out)) = IsSound u.peerdb × (length out ≤ n)
IsServed n (err e) = ⊥
IsServed n panic = ⊥

-- A response that is marshalled.
abbrev IsAnswer : Result Bytes → Type 0
IsAnswer r = (b : Bytes) × (r ≡ ok b)

respond-IsServed :
    (txid : ℕ) (u : UdpTracker) (r : Result Bytes)
    → IsAnswer r
    → IsSound u.peerdb
    → IsServed 1 (respond txid u r)
unfolding respond IsServed
respond-IsServed txid u r (b, e) s = rw e (s, omega arith)

pub connect-IsServed :
    (env : Env) (c : Connect) (addr : AddrPort) (u : UdpTracker)
    → IsSound u.peerdb
    → IsServed 1 (connect env c addr u)
unfolding connect Connect.marshall_resp
connect-IsServed env c addr u s =
    respond-IsServed c.transaction_id _ _ (_, refl) (recounted u.peerdb _ refl refl refl s)

pub server_error-IsSound :
    (txid : ℕ) (u : UdpTracker) → IsSound u.peerdb → IsSound (new_server_error txid u).0.peerdb
unfolding new_server_error
server_error-IsSound txid u s = recounted u.peerdb _ refl refl refl s

pub refuse-IsServed :
    (text : Bytes) (txid : ℕ) (u : UdpTracker) → IsSound u.peerdb → IsServed 1 (refuse text txid u)
unfolding new_client_error IsServed
refuse-IsServed text txid u s = (recounted u.peerdb _ refl refl refl s, omega arith)

pub scrape-IsServed : (sc : Scrape) (u : UdpTracker) → IsSound u.peerdb → IsServed 1 (scrape sc u)
unfolding scrape Scrape.marshall_resp
scrape-IsServed sc u s =
    let u' = count_stats (λ st. record st { scrapes = incr64 st.scrapes }) u in
    let s' : IsSound u'.peerdb = recounted u.peerdb _ refl refl refl s in
    elim (Bool-cases (ltb 74 (length sc.info_hashes))) [
      | inl e ↦ rw e (refuse-IsServed _ sc.transaction_id u' s')
      | inr e ↦ rw e (elim (Bool-cases (bad_hashes sc.info_hashes)) [
        | inl f ↦ rw f (refuse-IsServed _ sc.transaction_id u' s')
        | inr f ↦ rw f (respond-IsServed sc.transaction_id u' _ (_, refl) s')
      ])
    ]

module _ (config : Config) (env : Env) (room4 : 6 ≤ length env.peers4.array)
    (room6 : 18 ≤ length env.peers6.array) where
  announce_stopped-IsServed :
      (a : Announce) (u : UdpTracker)
      → IsSound u.peerdb
      → IsServed 1 (announce_stopped false config env a u)
  unfolding announce_stopped Announce.marshall_resp
  announce_stopped-IsServed a u s =
      respond-IsServed a.transaction_id _ _ (_, refl)
        (record {
          valid = drop-IsValid false a.info_hash a.peer_id u.peerdb s.valid;
          tracks = drop-Tracks a.info_hash a.peer_id u.peerdb s.tracks;
        })

  announce_peer-IsServed :
      (a : Announce) (addr : AddrPort) (u : UdpTracker)
      → IsSound u.peerdb
      → IsServed 1 (announce_peer false config env a addr u)
  unfolding announce_peer Announce.marshall_resp
  announce_peer-IsServed a (ip, port) u s =
      let complete = (a.event == event_completed) || (a.left == 0) in
      let db = save false env.recycled env.now ip a.port complete a.info_hash a.peer_id u.peerdb in
      let num_want = to_uint (clamp config a.num_want) in
      let (lists, e) =
        peer_list_bytes_total a.info_hash num_want env.peers4 env.peers6 db.hashmap room4 room6 in
      rw e (
        respond-IsServed a.transaction_id (record u { peerdb = db }) _ (_, refl)
          (record {
            valid =
                save-IsValid false env.recycled env.now ip a.port complete a.info_hash a.peer_id
                  u.peerdb s.valid;
            tracks =
                save-Tracks env.recycled env.now ip a.port complete a.info_hash a.peer_id u.peerdb
                  s.tracks;
          }))

  pub announce-IsServed :
      (a : Announce) (addr : AddrPort) (u : UdpTracker)
      → IsSound u.peerdb
      → IsServed 1 (announce false config env a addr u)
  unfolding announce
  announce-IsServed a addr u s =
      let u' = count_stats (λ st. record st { announces = incr64 st.announces }) u in
      let s' : IsSound u'.peerdb = recounted u.peerdb _ refl refl refl s in
      elim (Bool-cases (a.port == 0)) [
        | inl e ↦ rw e (refuse-IsServed _ a.transaction_id u' s')
        | inr e ↦ rw e (elim (Bool-cases (a.event == event_stopped)) [
          | inl f ↦ rw f (announce_stopped-IsServed a u' s')
          | inr f ↦ rw f (announce_peer-IsServed a addr u' s')
        ])
      ]

-- ===== src/Udp/Tracker/Announced.antt =====
-- What an announce leaves in the database, in tracker/udp/announce.go.
use trakx.Common.{
  ◌≤◌, ◌≡◌, ◌≢◌, refl, ◌∙◌, Bool, true, false, ◌||◌, [], ◌∷◌, some, length, ◌==◌, if◌then◌else◌,
  arith, le→ltb,
}
use trakx.Common.Bytes.{Bytes}
use trakx.Common.Outcome.{ok}
use trakx.Storage.Types.{Addr, Peer, is4}
use trakx.Storage.Memory.{save, hash_stats}
use trakx.Storage.Memory.Sums.{peer_of}
use trakx.Storage.Memory.Lookup.{peer_of-save_self}
use trakx.Storage.PeerList.Total.{peer_list_bytes_total}
use trakx.Stats.{incr64}
use trakx.Udp.ConnDb.{AddrPort, check}
use trakx.Udp.Protocol.Types.{action_announce, event_completed, event_stopped}
use trakx.Udp.Protocol.Announce.{Announce, AnnounceResp}
use trakx.Udp.Protocol.Announce
use trakx.Udp.Tracker.Handlers.{
  Config, Env, UdpTracker, count_stats, respond, announce, announce_peer, to_uint, clamp, interval,
  marshalled,
}
use trakx.Udp.Tracker.Process.{
  Remote, addr_port, count_request, zero_announce, action_of, txid_of, connid_of, process_announce,
  is_refused, serve,
}
use trakx.Udp.Tracker.Session.{serve-announce_branch, conndb-count_request}

module _ (fast : Bool) (config : Config) (env : Env) (remote : Remote) where
  -- The peer as an announce describes it.
  abbrev announced : Announce → Addr → Peer
  announced a addr = record {
    complete = (a.event == event_completed) || (a.left == 0);
    ip = addr;
    port = a.port;
    last_seen = env.now;
  }

  announce_peer_lem :
      (a : Announce) (addr : AddrPort) (u : UdpTracker)
      → 6 ≤ length env.peers4.array
      → 18 ≤ length env.peers6.array
      → (u' : UdpTracker) × (b : Bytes) × (announce_peer fast config env a addr u ≡ ok (u', b ∷ []))
        × (peer_of a.info_hash a.peer_id u'.peerdb.hashmap ≡ some (announced a addr.0))
  unfolding announce_peer respond Announce.marshall_resp
  announce_peer_lem a (ip, port) u room4 room6 =
      let complete = (a.event == event_completed) || (a.left == 0) in
      let db = save fast env.recycled env.now ip a.port complete a.info_hash a.peer_id u.peerdb in
      let num_want = to_uint (clamp config a.num_want) in
      let (lists, e) =
        peer_list_bytes_total a.info_hash num_want env.peers4 env.peers6 db.hashmap room4 room6 in
      let resp : AnnounceResp = record {
        action = action_announce;
        transaction_id = a.transaction_id;
        interval = interval config env;
        leechers = (hash_stats a.info_hash db).1;
        seeders = (hash_stats a.info_hash db).0;
        peers = if is4 ip then lists.0 else lists.1;
      } in
      (
        record u { peerdb = db },
        marshalled (Announce.marshall_resp resp),
        rw e refl,
        peer_of-save_self fast a.info_hash a.peer_id u.peerdb env.recycled env.now ip a.port
            complete,
      )

  announce_lem :
      (a : Announce) (addr : AddrPort) (u : UdpTracker)
      → a.port ≢ 0
      → a.event ≢ event_stopped
      → announce fast config env a addr u
        ≡ announce_peer fast config env a addr
            (count_stats (λ s. record s { announces = incr64 s.announces }) u)
  unfolding announce
  announce_lem a addr u p s = ground arith

  process_announce_lem :
      (d : Bytes) (addr : AddrPort) (u : UdpTracker) (a : Announce)
      → 98 ≤ length d
      → Announce.unmarshall zero_announce d ≡ ok a
      → process_announce fast config env d addr u ≡ announce fast config env a addr u
  unfolding process_announce
  process_announce_lem d addr u a h e = rw (le→ltb (length d) 98 h, e)

  -- An accepted announce of a peer that does not stop, with a port, is answered, and the peer then
  -- stands in the database under its hash and id, with the address that the request came from, the
  -- port of the announce, the clock, and the flag that says whether it has everything. The buffers
  -- that the pools hand out have room for one peer.
  pub serve-announce :
      (d : Bytes) (u : UdpTracker) (a : Announce)
      → 6 ≤ length env.peers4.array
      → 18 ≤ length env.peers6.array
      → 98 ≤ length d
      → action_of d ≡ action_announce
      → Announce.unmarshall zero_announce d ≡ ok a
      → check (connid_of d) (addr_port remote) u.conndb ≡ true
      → a.port ≢ 0
      → a.event ≢ event_stopped
      → (u' : UdpTracker) × (b : Bytes) × (serve fast config env d remote u ≡ ok (u', b ∷ []))
        × (peer_of a.info_hash a.peer_id u'.peerdb.hashmap
            ≡ some (announced a (addr_port remote).0))
  serve-announce d u a room4 room6 h e r c p s =
      let u1 = count_request remote (txid_of d) u in
      let db = conndb-count_request fast config env remote (txid_of d) u in
      let accepted : is_refused fast config env d (addr_port remote) u1 ≡ false =
        unfold is_refused in rw (db, c) in
      let counted = count_stats (λ s. record s { announces = incr64 s.announces }) u1 in
      let (u2, b, x, y) = announce_peer_lem a (addr_port remote) counted room4 room6 in
      (
        u2,
        b,
        serve-announce_branch fast config env remote d u (omega arith) e accepted
            ∙ process_announce_lem d (addr_port remote) u1 a h r
            ∙ announce_lem a (addr_port remote) u1 p s
            ∙ x,
        y,
      )

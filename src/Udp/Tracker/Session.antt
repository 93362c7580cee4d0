-- ===== src/Udp/Tracker/Session.antt =====
-- What a client sees: it connects, and its requests are accepted or refused.
use trakx.Common.{
  ℕ, ◌≤◌, ◌<◌, ◌≡◌, ◌≢◌, refl, ap, ◌∙◌, Bool, true, false, [], ◌∷◌, length, take, drop, ltb, ◌==◌,
  Option-cases, inl, inr, arith,
}
use trakx.Common.Bytes.{Bytes, of_be}
use mathlib.Core.Logic.{ite}
use trakx.Common.Outcome.{ok}
use trakx.Storage.Types.{addr_from_slice}
use trakx.Udp.ConnDb.{AddrPort, AddrPort-discrete, check}
use trakx.Udp.ConnDb.Checks.{check-add}
use trakx.Udp.Protocol.Types.{action_connect, action_announce, action_error, action_heartbeat}
use trakx.Udp.Protocol.Connect.{Connect}
use trakx.Udp.Protocol.Connect
use trakx.Udp.Protocol.Error.{ErrorResp}
use trakx.Udp.Protocol.Error
use trakx.Udp.Tracker.Messages.{bad_connection_id}
use trakx.Udp.Tracker.Handlers.{
  Config, Env, UdpTracker, new_server_error, respond, connect, refuse, new_client_error,
}
use trakx.Udp.Tracker.Process.{
  Remote, addr_port, count_request, action_of, txid_of, connid_of, process_connect,
  process_announce, is_refused, process, serve,
}
use trakx.Udp.Tracker.Served.{unmarshall-connect_long}

-- The answer to a connect.
abbrev pub connected : Env → Bytes → Connect.ConnectResp
connected env d = record {
  action = action_connect;
  transaction_id = of_be (take 4 (drop 4 (drop 8 (take 16 d))));
  connection_id = env.int63;
}

module _ (fast : Bool) (config : Config) (env : Env) (remote : Remote) where
  long : (d : Bytes) → 16 ≤ length d → ltb 15 (length d) ≡ true
  long d h = ground arith

  -- The branches of `process` for a connect, an announce, and a request that is refused.
  serve-connect_branch :
      (d : Bytes) (u : UdpTracker)
      → 16 ≤ length d
      → action_of d ≡ action_connect
      → serve fast config env d remote u
        ≡ process_connect fast config env d (addr_port remote) (count_request remote (txid_of d) u)
  unfolding serve process
  serve-connect_branch d u h e = rw (long d h, e)

  pub serve-announce_branch :
      (d : Bytes) (u : UdpTracker)
      → 16 ≤ length d
      → action_of d ≡ action_announce
      → is_refused fast config env d (addr_port remote) (count_request remote (txid_of d) u) ≡ false
      → serve fast config env d remote u
        ≡ process_announce fast config env d (addr_port remote) (count_request remote (txid_of d) u)
  unfolding serve process
  serve-announce_branch d u h e r = rw (long d h, e, r)

  serve-refused_branch :
      (d : Bytes) (u : UdpTracker)
      → 16 ≤ length d
      → action_of d ≢ action_connect
      → action_of d < action_heartbeat
      → is_refused fast config env d (addr_port remote) (count_request remote (txid_of d) u) ≡ true
      → serve fast config env d remote u
        ≡ refuse bad_connection_id (txid_of d) (count_request remote (txid_of d) u)
  unfolding serve process
  serve-refused_branch d u h e l r = ground (arith, r)

  process_connect_lem :
      (d : Bytes) (u : UdpTracker)
      → 16 ≤ length d
      → process_connect fast config env d (addr_port remote) u
        ≡ connect env
            (record {
              protocol_id = of_be (take 8 (take 16 d));
              action = of_be (take 4 (drop 8 (take 16 d)));
              transaction_id = of_be (take 4 (drop 4 (drop 8 (take 16 d))));
            })
            (addr_port remote)
            u
  unfolding process_connect
  process_connect_lem d u h = rw (unmarshall-connect_long d h, process_connect)

  pub conndb-count_request :
      (txid : ℕ) (u : UdpTracker) → (count_request remote txid u).conndb ≡ u.conndb
  unfolding count_request
  conndb-count_request txid u = elim (Option-cases (addr_from_slice remote.ip)) [
    | inl e ↦ rw (e, count_request) (unfold new_server_error in refl)
    | inr (a, e) ↦ rw (e, count_request)
  ]

  hashmap-count_request :
      (txid : ℕ) (u : UdpTracker) → (count_request remote txid u).peerdb.hashmap ≡ u.peerdb.hashmap
  unfolding count_request
  hashmap-count_request txid u = elim (Option-cases (addr_from_slice remote.ip)) [
    | inl e ↦ rw (e, count_request) (unfold new_server_error in refl)
    | inr (a, e) ↦ rw (e, count_request)
  ]

  -- A connect is answered with its transaction id and the new connection id, and afterwards this id
  -- is the one that is accepted from its address, while other addresses are accepted as before.
  pub serve-connect :
      (d : Bytes) (u : UdpTracker)
      → 16 ≤ length d
      → action_of d ≡ action_connect
      → (u' : UdpTracker) × (b : Bytes) × (serve fast config env d remote u ≡ ok (u', b ∷ []))
        × (Connect.marshall_resp (connected env d) ≡ ok b)
        × ((id : ℕ) (a : AddrPort)
            → check id a u'.conndb
              ≡ ite
                  (AddrPort-discrete a (addr_port remote))
                  (env.int63 == id)
                  (check id a u.conndb))
  unfolding serve process connect respond Connect.marshall_resp
  serve-connect d u h e =
      let u1 = count_request remote (txid_of d) u in
      let db = conndb-count_request (txid_of d) u in
      (
        _,
        _,
        serve-connect_branch d u h e ∙ process_connect_lem d u1 h,
        refl,
        (λ id a.
            check-add env.now env.int63 id (addr_port remote) a u1.conndb
            ∙ ap
                (λ x. ite (AddrPort-discrete a (addr_port remote)) (env.int63 == id) (check id a x))
                db),
      )

  -- When connection ids are validated, a request of at least 16 bytes that has to be accepted and is
  -- not is answered with the error that says so, under its transaction id, and changes neither the
  -- database nor the connections.
  pub serve-refused :
      (d : Bytes) (u : UdpTracker)
      → 16 ≤ length d
      → action_of d ≢ action_connect
      → action_of d < action_heartbeat
      → config.validate ≡ true
      → check (connid_of d) (addr_port remote) u.conndb ≡ false
      → (u' : UdpTracker) × (b : Bytes) × (serve fast config env d remote u ≡ ok (u', b ∷ []))
        × (Error.marshall (record {
          action = action_error;
          transaction_id = txid_of d;
          error_string = bad_connection_id;
        })
            ≡ ok b)
        × (u'.conndb ≡ u.conndb)
        × (u'.peerdb.hashmap ≡ u.peerdb.hashmap)
  unfolding new_client_error Error.marshall
  serve-refused d u h e l v c =
      let u1 = count_request remote (txid_of d) u in
      let db = conndb-count_request (txid_of d) u in
      let refused : is_refused fast config env d (addr_port remote) u1 ≡ true =
        unfold is_refused in rw (v, db, c) in
      (_, _, serve-refused_branch d u h e l refused, refl, db, hashmap-count_request (txid_of d) u)

-- ===== src/Udp/Tracker/Process.antt =====
-- `process` of tracker/udp/udptracker.go, and the guard of `Serve` in front of it.
use trakx.Common.{
  ℕ, ◌%◌, ◌^◌, Bool, not, ◌&&◌, List, [], ◌∷◌, none, some, length, take, drop, get_or, ◌==◌, ltb,
  if◌then◌else◌,
}
use trakx.Common.Bytes.{Bytes, of_be}
use trakx.Common.Outcome.{Result, ok, err, panic, ◌>>=◌}
use trakx.Storage.Types.{Addr, addr_from_slice, unmap}
use trakx.Stats.{incr64}
use trakx.Udp.ConnDb.{AddrPort, check}
use trakx.Udp.Protocol.Types.{
  action_connect, action_announce, action_scrape, action_heartbeat, heartbeat_ok,
}
use trakx.Udp.Protocol.Connect.{Connect}
use trakx.Udp.Protocol.Connect
use trakx.Udp.Protocol.Announce.{Announce}
use trakx.Udp.Protocol.Announce
use trakx.Udp.Protocol.Scrape
use trakx.Udp.Tracker.Messages.{bad_action, bad_connection_id, bad_announce_size}
use trakx.Udp.Tracker.Handlers.{
  Config, Env, UdpTracker, count_stats, new_server_error, refuse, connect, announce, scrape,
}

-- `net.UDPAddr`: the bytes of the address, and the port.
pub record Remote : Type 0 where
  pub ip : Bytes
  pub port : ℕ

-- A client behind an IPv4 address mapped to IPv6 is one of IPv4. A slice that is no address leaves
-- the zero address.
unfoldable pub addr_port : Remote → AddrPort
addr_port remote =
    let addr : Addr = elim (addr_from_slice remote.ip) [ none ↦ Addr.invalid | some a ↦ a ] in
    (unmap addr, remote.port % 2 ^ 16)

-- The error is counted and its datagram dropped; the request goes on.
unfoldable pub count_request : Remote → ℕ → UdpTracker → UdpTracker
count_request remote txid u0 =
    let u = count_stats (λ s. record s { hits = incr64 s.hits }) u0 in
    elim (addr_from_slice remote.ip) [ none ↦ (new_server_error txid u).0 | some a ↦ u ]

abbrev pub zero_connect : Connect
zero_connect = record { protocol_id = 0; action = 0; transaction_id = 0 }

abbrev pub zero_announce : Announce
zero_announce = record {
  connection_id = 0;
  action = 0;
  transaction_id = 0;
  info_hash = [];
  peer_id = [];
  downloaded = 0;
  left = 0;
  uploaded = 0;
  event = 0;
  ip = 0;
  key = 0;
  num_want = 0;
  port = 0;
}

-- The fields of a datagram, of which `serve` has tested that it has 16 bytes: Go panics on a shorter one.
abbrev pub action_of : Bytes → ℕ
action_of d = get_or d 11 0

abbrev pub txid_of : Bytes → ℕ
txid_of d = of_be (take 4 (drop 12 d))

abbrev pub connid_of : Bytes → ℕ
connid_of d = of_be (take 8 d)

module _ (fast : Bool) (config : Config) (env : Env) where
  unfoldable pub process_connect : Bytes → AddrPort → UdpTracker → Result (UdpTracker × List Bytes)
  process_connect d addr u = elim (Connect.unmarshall d) [
    | ok c ↦ connect env c addr u
    | err e ↦
        let (u', msg) = new_server_error (txid_of d) u in
        connect env zero_connect addr u' >>= (λ r. ok (r.0, msg ∷ r.1))
    | panic ↦ panic
  ]

  unfoldable pub process_announce : Bytes → AddrPort → UdpTracker → Result (UdpTracker × List Bytes)
  process_announce d addr u =
      if ltb (length d) 98
      then refuse bad_announce_size (txid_of d) u
      else elim (Announce.unmarshall zero_announce d) [
        | ok a ↦ announce fast config env a addr u
        | err e ↦ let (u', msg) = new_server_error (txid_of d) u in ok (u', msg ∷ [])
        | panic ↦ panic
      ]

  unfoldable pub process_scrape : Bytes → UdpTracker → Result (UdpTracker × List Bytes)
  process_scrape d u = elim (Scrape.unmarshall d) [
    | ok sc ↦ scrape sc u
    | err e ↦ let (u', msg) = new_server_error (txid_of d) u in ok (u', msg ∷ [])
    | panic ↦ panic
  ]

  unfoldable pub is_refused : Bytes → AddrPort → UdpTracker → Bool
  is_refused d addr u = not (check (connid_of d) addr u.conndb) && config.validate

  -- The datagram has at least 16 bytes.
  unfoldable pub process : Bytes → Remote → UdpTracker → Result (UdpTracker × List Bytes)
  process d remote u0 =
      let action = action_of d in
      let addr = addr_port remote in
      let u = count_request remote (txid_of d) u0 in
      if ltb action_heartbeat action
      then refuse bad_action (txid_of d) u
      else if action == action_heartbeat
      then ok (u, heartbeat_ok ∷ [])
      else if action == action_connect
      then process_connect d addr u
      else if is_refused d addr u
      then refuse bad_connection_id (txid_of d) u
      else if action == action_announce
      then process_announce d addr u
      else if action == action_scrape
      then process_scrape d u
      else ok (u, [])

  -- One datagram that the socket has read: fewer than 16 bytes are ignored.
  unfoldable pub serve : Bytes → Remote → UdpTracker → Result (UdpTracker × List Bytes)
  serve d remote u = if ltb 15 (length d) then process d remote u else ok (u, [])

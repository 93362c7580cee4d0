-- ===== src/Udp/Tracker/Handlers.antt =====
-- tracker/udp/error.go, connect.go, announce.go and scrape.go.
use trakx.Common.{
  ℕ, ◌+◌, ◌-◌, ◌%◌, ◌^◌, Bool, true, false, ◌||◌, List, [], ◌∷◌, length, ◌==◌, ltb, if◌then◌else◌,
}
use trakx.Common.Bytes.{Bytes}
use trakx.Common.Outcome.{Result, ok, err, panic, ◌>>=◌}
use trakx.Storage.Types.{Peer, is4}
use trakx.Storage.Memory.{Store, save, drop, hash_stats}
use trakx.Storage.PeerList.{Slice, peer_list_bytes}
use trakx.Stats.{Stats, incr64}
use trakx.Udp.ConnDb.{AddrPort, ConnectionDatabase, add}
use trakx.Udp.Protocol.Types.{
  minus_one, event_completed, event_stopped, action_connect, action_announce, action_scrape,
  action_error,
}
use trakx.Udp.Protocol.Connect.{Connect}
use trakx.Udp.Protocol.Connect
use trakx.Udp.Protocol.Announce.{Announce, AnnounceResp}
use trakx.Udp.Protocol.Announce
use trakx.Udp.Protocol.Scrape.{Scrape, ScrapeInfo, ScrapeResp}
use trakx.Udp.Protocol.Scrape
use trakx.Udp.Protocol.Error
use trakx.Udp.Tracker.Messages.{internal_err, bad_port, too_many, bad_hash}

-- The settings that the tracker reads, as the `int32`s that it makes of them.
pub record Config : Type 0 where
  pub numwant_default : ℕ
  pub numwant_limit : ℕ
  pub announce_base : ℕ
  pub announce_fuzz : ℕ
  pub validate : Bool

-- What one request gets from outside: the clock, `rand.Int63()`, `rand.Int31n(...)`, and what the
-- pools hand out.
pub record Env : Type 0 where
  pub now : ℕ
  pub int63 : ℕ
  pub int31n : ℕ
  pub recycled : Peer
  pub peers4 : Slice
  pub peers6 : Slice

pub record UdpTracker : Type 0 where
  pub peerdb : Store
  pub conndb : ConnectionDatabase

abbrev pub count_stats : (Stats → Stats) → UdpTracker → UdpTracker
count_stats f u = record u { peerdb = record (u.peerdb) { stats = f u.peerdb.stats } }

-- `data` is nil if the marshalling fails.
abbrev pub marshalled : Result Bytes → Bytes
marshalled (ok b) = b
marshalled _ = []

unfoldable pub new_client_error : Bytes → ℕ → UdpTracker → UdpTracker × Bytes
unfolding Error.marshall
new_client_error msg txid u = (
  count_stats (λ s. record s { client_errors = incr64 s.client_errors }) u,
  marshalled (
      Error.marshall (record { action = action_error; transaction_id = txid; error_string = msg })),
)

unfoldable pub new_server_error : ℕ → UdpTracker → UdpTracker × Bytes
unfolding Error.marshall
new_server_error txid u = (
  count_stats (λ s. record s { server_errors = incr64 s.server_errors }) u,
  marshalled (
      Error.marshall
        (record { action = action_error; transaction_id = txid; error_string = internal_err })),
)

-- The end of a handler: the response, or the error that says that it cannot be marshalled.
unfoldable pub respond : ℕ → UdpTracker → Result Bytes → Result (UdpTracker × List Bytes)
respond txid u (ok b) = ok (u, b ∷ [])
respond txid u (err e) = let (u', msg) = new_server_error txid u in ok (u', msg ∷ [])
respond txid u panic = panic

abbrev pub refuse : Bytes → ℕ → UdpTracker → Result (UdpTracker × List Bytes)
refuse text txid u = let (u', msg) = new_client_error text txid u in ok (u', msg ∷ [])

unfoldable pub connect : Env → Connect → AddrPort → UdpTracker → Result (UdpTracker × List Bytes)
connect env c addr u =
    let u1 = count_stats (λ s. record s { connects = incr64 s.connects }) u in
    let u2 : UdpTracker = record u1 { conndb = add env.now env.int63 addr u1.conndb } in
    respond c.transaction_id u2 (
      Connect.marshall_resp (record {
        action = action_connect;
        transaction_id = c.transaction_id;
        connection_id = env.int63;
      }))

-- `a < 1` and `a > b` on `int32`s.
abbrev pub signed32 : ℕ → ℕ
signed32 n = (n + 2 ^ 31) % 2 ^ 32

unfoldable pub clamp : Config → ℕ → ℕ
clamp config num_want =
    if ltb (signed32 num_want) (signed32 1)
    then config.numwant_default
    else if ltb (signed32 config.numwant_limit) (signed32 num_want)
    then config.numwant_limit
    else num_want

-- `uint(n)` of an `int32` extends its sign.
unfoldable pub to_uint : ℕ → ℕ
to_uint n = if ltb n (2 ^ 31) then n else n + (2 ^ 64 - 2 ^ 32)

-- `Int31n` is added if the fuzz is positive as an `int32`.
unfoldable pub interval : Config → Env → ℕ
interval config env =
    if ltb (signed32 0) (signed32 config.announce_fuzz)
    then (config.announce_base + env.int31n) % 2 ^ 32
    else config.announce_base

module _ (fast : Bool) (config : Config) (env : Env) where
  -- A client that stops: its peer is dropped.
  unfoldable pub announce_stopped : Announce → UdpTracker → Result (UdpTracker × List Bytes)
  announce_stopped a u =
      let u' : UdpTracker = record u { peerdb = drop fast a.info_hash a.peer_id u.peerdb } in
      respond a.transaction_id u' (
        Announce.marshall_resp (record {
          action = action_announce;
          transaction_id = a.transaction_id;
          interval = minus_one;
          leechers = minus_one;
          seeders = minus_one;
          peers = [];
        }))

  -- Any other event: its peer is saved, and gets a list of peers. The counts are `uint16`s.
  unfoldable pub announce_peer : Announce → AddrPort → UdpTracker → Result (UdpTracker × List Bytes)
  announce_peer a (addr, _) u =
      let peer_complete = (a.event == event_completed) || (a.left == 0) in
      let peerdb =
        save fast env.recycled env.now addr a.port peer_complete a.info_hash a.peer_id u.peerdb in
      let u' : UdpTracker = record u { peerdb = peerdb } in
      let (complete, incomplete) = hash_stats a.info_hash peerdb in
      let num_want = to_uint (clamp config a.num_want) in
      peer_list_bytes a.info_hash num_want env.peers4 env.peers6 peerdb.hashmap >>= (λ lists.
        respond a.transaction_id u' (
          Announce.marshall_resp (record {
            action = action_announce;
            transaction_id = a.transaction_id;
            interval = interval config env;
            leechers = incomplete;
            seeders = complete;
            peers = if is4 addr then lists.0 else lists.1;
          })))

  unfoldable pub announce : Announce → AddrPort → UdpTracker → Result (UdpTracker × List Bytes)
  announce a addr_port u0 =
      let u = count_stats (λ s. record s { announces = incr64 s.announces }) u0 in
      if a.port == 0
      then refuse bad_port a.transaction_id u
      else if a.event == event_stopped
      then announce_stopped a u
      else announce_peer a addr_port u

-- The infos of the hashes. A hash is an array of 20 bytes, so that its length is tested in vain.
unfoldable pub scrape_infos : List Bytes → Store → List ScrapeInfo
scrape_infos [] s = []
scrape_infos (hash ∷ hashes) s =
    let (complete, incomplete) = hash_stats hash s in
    record { complete = complete; incomplete = incomplete; downloaded = minus_one }
    ∷ scrape_infos hashes s

unfoldable pub bad_hashes : List Bytes → Bool
bad_hashes [] = false
bad_hashes (hash ∷ hashes) = if length hash == 20 then bad_hashes hashes else true

unfoldable pub scrape : Scrape → UdpTracker → Result (UdpTracker × List Bytes)
scrape sc u0 =
    let u = count_stats (λ s. record s { scrapes = incr64 s.scrapes }) u0 in
    if ltb 74 (length sc.info_hashes)
    then refuse too_many sc.transaction_id u
    else if bad_hashes sc.info_hashes
    then refuse bad_hash sc.transaction_id u
    else respond sc.transaction_id u (
        Scrape.marshall_resp (record {
          action = action_scrape;
          transaction_id = sc.transaction_id;
          info = scrape_infos sc.info_hashes u.peerdb;
        }))

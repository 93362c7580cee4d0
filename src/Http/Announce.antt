-- ===== src/Http/Announce.antt =====
-- tracker/http/announce.go.
use trakx.Common.{
  ℕ, ◌+◌, ◌-◌, ◌%◌, ◌^◌, Bool, ◌&&◌, ◌||◌, List, [], ◌∷◌, ◌++◌, Option, none, some, length, ◌==◌,
  leb, ltb, if◌then◌else◌,
}
use trakx.Common.Bytes.{Bytes, codes}
use trakx.Common.Outcome.{Result, ok, ◌>>=◌}
use trakx.Storage.Types.{Addr, Peer, Bytes-discrete}
use trakx.Storage.Memory.{Store, save, drop, hash_stats}
use trakx.Storage.PeerList.{Slice, peer_list_bytes}
use trakx.Storage.PeerDicts.{peer_list}
use trakx.Stats.{incr64}
use trakx.Strconv.{atoi}
use trakx.Bencoding.Decimal.{ℤ, pos, negsuc}
use trakx.Bencoding.Dictionary.{Dictionary, int64, string_bytes, byteslice_slice, get_bytes, reset}
use trakx.Http.Reply.{http_success, count_stats, client_error}
use mathlib.Core.Bool.{decide}

pub record AnnounceParams : Type 0 where
  pub compact : Bool
  pub nopeerid : Bool
  pub noneleft : Bool
  pub event : Bytes
  pub port : Bytes
  pub hash : Bytes
  pub peerid : Bytes
  pub numwant : Bytes

-- The settings: two `uint`s, and durations in whole seconds as `int64`s.
pub record Config : Type 0 where
  pub numwant_default : ℕ
  pub numwant_limit : ℕ
  pub announce_base : ℕ
  pub announce_fuzz : ℕ

-- What one request gets from outside: the clock, `rand.Int63n(...)`, and what was put back into the
-- pools that it takes from.
pub record Env : Type 0 where
  pub now : ℕ
  pub int63n : ℕ
  pub recycled : Peer
  pub peers4 : Slice
  pub peers6 : Slice
  pub dictionary : Dictionary
  pub peer_dictionary : Dictionary

abbrev pub same : Bytes → Bytes → Bool
same a b = decide (Bytes-discrete a b)

-- `none` for a port that is no number from 1 to 65535.
unfoldable pub parse_port : Bytes → Option ℕ
parse_port s = elim (atoi s) [
  | none ↦ none
  | some z ↦ elim z [ pos n ↦ if ltb 65535 n || ltb n 1 then none else some n | negsuc n ↦ none ]
]

-- `none` for a number of peers that is no number or negative.
unfoldable pub parse_numwant : Config → Bytes → Option ℕ
parse_numwant config s = if length s == 0 then some config.numwant_default else elim (atoi s) [
  | none ↦ none
  | some z ↦ elim z [
    | pos n ↦ some (if leb n config.numwant_limit then n else config.numwant_limit)
    | negsuc n ↦ none
  ]
]

-- An `int64` as a number.
unfoldable pub signed64 : ℕ → ℤ
signed64 n = if ltb n (2 ^ 63) then pos n else negsuc (2 ^ 64 - 1 - n)

-- `Int63n` is added if the fuzz is positive as an `int32`. Its panic on an `int64` fuzz that is negative
-- although its low half is positive, less than -2^31 seconds, is left out.
unfoldable pub interval : Config → Env → ℕ
interval config env =
    let fuzz32 = config.announce_fuzz % 2 ^ 32 in
    if ltb 0 fuzz32 && ltb fuzz32 (2 ^ 31)
    then (config.announce_base + env.int63n) % 2 ^ 64
    else config.announce_base

abbrev pub respond : Dictionary → Store → Store × List Bytes
respond d s = (s, (http_success ++ (get_bytes d).1) ∷ [])

module _ (ip_string : Addr → Bytes) (fast : Bool) (config : Config) (env : Env) where
  -- The response, when the peer is saved.
  unfoldable pub announce_reply : AnnounceParams → ℕ → Store → Result (Store × List Bytes)
  announce_reply v numwant s =
      let (complete, incomplete) = hash_stats v.hash s in
      let d1 = int64 (reset env.dictionary) (codes "interval") (signed64 (interval config env)) in
      let d2 = int64 d1 (codes "complete") (pos complete) in
      let d3 = int64 d2 (codes "incomplete") (pos incomplete) in
      if v.compact
      then peer_list_bytes v.hash numwant env.peers4 env.peers6 s.hashmap >>= (λ lists. ok (
          respond (string_bytes (string_bytes d3 (codes "peers") lists.0) (codes "peers6") lists.1)
            s))
      else let dicts =
          peer_list ip_string v.nopeerid v.hash numwant (reset env.peer_dictionary) s.hashmap in
        ok (respond (byteslice_slice d3 (codes "peers") dicts) s)

  abbrev pub refuse : Bytes → Store → Result (Store × List Bytes)
  refuse msg s = ok (client_error env.dictionary msg s)

  unfoldable pub announce_peer : AnnounceParams → Addr → Store → Result (Store × List Bytes)
  announce_peer v ip s = elim (parse_port v.port) [
    | none ↦ refuse (codes "Invalid port") s
    | some port ↦ elim (parse_numwant config v.numwant) [
      | none ↦ refuse (codes "Invalid numwant") s
      | some numwant ↦
          let peer_complete = same v.event (codes "completed") || v.noneleft in
          announce_reply v numwant
            (save fast env.recycled env.now ip port peer_complete v.hash v.peerid s)
    ]
  ]

  unfoldable pub announce : AnnounceParams → Addr → Store → Result (Store × List Bytes)
  announce v ip s0 =
      let s = count_stats (λ st. record st { announces = incr64 st.announces }) s0 in
      if length v.hash == 20
      then if length v.peerid == 20
        then if same v.event (codes "stopped")
          then ok (drop fast v.hash v.peerid s, http_success ∷ [])
          else announce_peer v ip s
        else refuse (codes "Invalid peerid") s
      else refuse (codes "Invalid infohash") s

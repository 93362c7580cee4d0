-- ===== src/Http/Worker.antt =====
-- `work` of tracker/http/worker.go: one request that was read from a connection. The connection is
-- closed behind every request.
pub mod Total
use trakx.Common.{
  ℕ, ◌+◌, Bool, true, false, not, List, [], ◌∷◌, Option, none, some, length, ◌==◌, ltb,
  if◌then◌else◌,
}
use trakx.Common.Assoc.{get}
use trakx.Common.Bytes.{Bytes, codes}
use trakx.Common.Outcome.{Result, ok, ◌>>=◌}
use trakx.Common.Search.{index}
use trakx.Storage.Types.{Addr, Bytes-discrete}
use trakx.Storage.Memory.{Store}
use trakx.Stats.{incr64}
use trakx.Http.Parser.{Parsed, ParseError, invalid_parse, bad_base64, slice, parse}
use trakx.Http.Reply.{stats_header, write_data, write_status, count_stats, client_error}
use trakx.Http.Announce.{AnnounceParams, Config, Env, same, announce}
use trakx.Http.Scrape.{scrape}

abbrev pub no_params : AnnounceParams
no_params = record {
  compact = false;
  nopeerid = false;
  noneleft = false;
  event = [];
  port = [];
  hash = [];
  peerid = [];
  numwant = [];
}

-- The key and the value of a parameter; one without a `=` has the value "1".
unfoldable pub key_val : Option Bytes → Result (Bytes × Bytes)
key_val none = ok ([], codes "1")
key_val (some param) = elim (index (codes "=") param) [
  | none ↦ ok (param, codes "1")
  | some equal ↦ do
    key ← slice param 0 equal
    val ← slice param (equal + 1) (length param)
    ok (key, val)
]

unfoldable pub set_param : Bytes × Bytes → AnnounceParams → AnnounceParams
set_param (key, val) v =
    if same key (codes "compact")
    then (if same val (codes "1") then record v { compact = true } else v)
    else if same key (codes "no_peer_id")
    then (if same val (codes "1") then record v { nopeerid = true } else v)
    else if same key (codes "left")
    then (if same val (codes "0") then record v { noneleft = true } else v)
    else if same key (codes "event")
    then record v { event = val }
    else if same key (codes "port")
    then record v { port = val }
    else if same key (codes "info_hash")
    then record v { hash = val }
    else if same key (codes "peer_id")
    then record v { peerid = val }
    else if same key (codes "numwant")
    then record v { numwant = val }
    else v

-- A later parameter overwrites an earlier one.
unfoldable pub announce_params : List (Option Bytes) → AnnounceParams → Result AnnounceParams
announce_params [] v = ok v
announce_params (p ∷ ps) v = key_val p >>= (λ pair. announce_params ps (set_param pair v))

-- Only what stands behind "info_hash=" is kept.
unfoldable pub infohash_of : Option Bytes → Result (Option Bytes)
infohash_of none = ok none
infohash_of (some param) =
    if ltb (length param) 10
    then ok none
    else slice param 0 10 >>= (λ key.
      if not (same key (codes "info_hash="))
      then ok none
      else slice param 10 (length param) >>= (λ hash. ok (some hash)))

unfoldable pub infohashes_of : List (Option Bytes) → Result (List (Option Bytes))
infohashes_of [] = ok []
infohashes_of (p ∷ ps) = do hash ← infohash_of p; hashes ← infohashes_of ps; ok (hash ∷ hashes)

unfoldable pub count_set : List (Option Bytes) → ℕ
count_set [] = 0
count_set (none ∷ ps) = count_set ps
count_set (some p ∷ ps) = count_set ps + 1

-- What does not belong to this program: `netip.ParseAddr`, `String` of an address, `base64`, and the
-- page of the package expvar.
pub record Outside : Type 0 where
  pub parse_addr : Bytes → Option Addr
  pub ip_string : Addr → Bytes
  pub base64 : Bytes → Option Bytes
  pub expvar_page : Bytes

-- `parseForwarded` of forwarded.go, without the build tag `heroku`.
abbrev pub parse_forwarded : Bytes → Bool × Option Bytes
parse_forwarded data_bytes = (false, none)

module _ (out : Outside) (fast : Bool) (config : Config) (env : Env)
    (file_cache : List (Bytes × Bytes)) where
  unfoldable pub announce_from : AnnounceParams → Store → Bytes → Result (Store × List Bytes)
  announce_from v s ip_str = elim (out.parse_addr ip_str) [
    | none ↦ ok (client_error env.dictionary (codes "Failed to parse forwarded IP") s)
    | some ip ↦ announce out.ip_string fast config env v ip s
  ]

  -- `remote_host` is the host of the remote address, as `SplitHostPort` gives it.
  unfoldable pub work_announce : Bytes → Bytes → Parsed → Store → Result (Store × List Bytes)
  work_announce data_bytes remote_host p s = announce_params p.params no_params >>= (λ v.
      let (forwarded, forwarded_ip) = parse_forwarded data_bytes in
      if forwarded
      then elim forwarded_ip [
        | none ↦ ok (client_error env.dictionary (codes "Failed to parse X-Forwarded-For") s)
        | some ip_str ↦ announce_from v s ip_str
      ]
      else announce_from v s remote_host)

  -- A scrape of the hashes, `none` where a parameter was set to nil.
  unfoldable pub scrape_hashes : Store → List (Option Bytes) → Result (Store × List Bytes)
  scrape_hashes s infohashes =
      if count_set infohashes == 0
      then ok (client_error env.dictionary (codes "no infohashes") s)
      else ok (scrape env.dictionary env.peer_dictionary infohashes s)

  unfoldable pub work_scrape : Parsed → Store → Result (Store × List Bytes)
  work_scrape p s = infohashes_of p.params >>= scrape_hashes s

  unfoldable pub work_path : Bytes → Bytes → Parsed → Store → Result (Store × List Bytes)
  work_path data_bytes remote_host p s =
      if same p.path (codes "/announce")
      then work_announce data_bytes remote_host p s
      else if same p.path (codes "/scrape")
      then work_scrape p s
      else if same p.path (codes "/heartbeat")
      then ok (s, write_status (codes "200") ∷ [])
      else if same p.path (codes "/stats")
      then ok (s, stats_header ∷ (out.expvar_page ∷ []))
      else elim (get Bytes-discrete p.path file_cache) [
        | some content ↦ ok (s, write_data content ∷ [])
        | none ↦ ok (s, write_status (codes "404") ∷ [])
      ]

  -- The answer to what `parse` returned.
  unfoldable pub work_parsed :
      Bytes → Bytes → Parsed × Option ParseError → Store → Result (Store × List Bytes)
  work_parsed data_bytes remote_host (p, none) s =
      if same p.method (codes "GET")
      then work_path data_bytes remote_host p s
      else ok (s, write_status (codes "400") ∷ [])
  work_parsed data_bytes remote_host (p, some invalid_parse) s =
      ok (s, write_status (codes "400") ∷ [])
  work_parsed data_bytes remote_host (p, some bad_base64) s =
      if same p.method (codes "GET")
      then ok (
        count_stats (λ st. record st { server_errors = incr64 st.server_errors }) s,
        write_status (codes "500") ∷ [],
      )
      else ok (s, write_status (codes "400") ∷ [])

  unfoldable pub work : Bytes → ℕ → Bytes → Store → Result (Store × List Bytes)
  work data_bytes size remote_host s0 =
      let s = count_stats (λ st. record st { hits = incr64 st.hits }) s0 in
      parse out.base64 data_bytes size >>= (λ r. work_parsed data_bytes remote_host r s)

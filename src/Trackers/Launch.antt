-- ===== src/Trackers/Launch.antt =====
-- `Run` of tracker/tracker.go: what it starts, by the configuration and by what the calls return, and
-- the answers of the information server. What is only logged is left out.
use trakx.Common.{
  ℕ, ◌+◌, ◌%◌, ◌^◌, Bool, true, false, List, [], ◌∷◌, ◌++◌, Option, none, some, ◌==◌, if◌then◌else◌,
}
use trakx.Common.Bytes.{Bytes, codes}
use trakx.Common.Outcome.{Result, ok, panic}
use trakx.Bencoding.Decimal.{ℤ, pos, negsuc}
use trakx.Bencoding.Dictionary.{new_dictionary, int64, get_bytes}
use trakx.Config.Embed.{EmbeddedCache}
use trakx.Config.Settings.{
  Configuration, Environment, parse, Parsed, returned, bad_port, exited, text_is,
}
use trakx.Storage.Types.{signed_gt}

-- What a process does, one after the other. `go` starts a goroutine and goes on.
pub data Action : Type 0 where
  exit_fatal : Action
  warn_not_validated : Action
  log_short_expiry : Action
  open_storage : (succeeded : Bool) → Action
  initialize_pools : (limit : ℕ) → Action
  go_signal_handler : Action
  go_pprof : Action
  init_http : Action
  go_serve_http : Action
  go_serve_info : (cache : EmbeddedCache) → Action
  init_udp : Action
  go_serve_udp : Action
  publish : Action
  block_forever : Action

-- `Load`, with what the library fig makes of the file and the environment, and with `Parse`: the
-- configuration that is kept, nil if fig failed. `none` is a process that has exited.
unfoldable pub kept : Parsed → Option (Option Configuration)
kept (returned conf level) = some (some conf)
kept (bad_port conf level) = some (some conf)
kept exited = none

unfoldable pub load : Environment → Option Configuration → Option (Option Configuration)
load env none = some none
load env (some conf) = kept (parse env conf)

-- The two warnings of `Run`.
unfoldable pub warnings : Configuration → List Action
warnings conf =
    (if conf.validate then [] else warn_not_validated ∷ [])
    ++ (if signed_gt ((conf.announce_base + conf.announce_fuzz) % 2 ^ 64) conf.db_expiry
        then log_short_expiry ∷ []
        else [])

unfoldable pub run_udp : Configuration → List Action
run_udp conf =
    (if conf.udp_enabled then init_udp ∷ go_serve_udp ∷ [] else [])
    ++ (if signed_gt conf.expvar_interval 0 then publish ∷ [] else block_forever ∷ [])

-- The information server, if the embedded files can be read, and then the UDP tracker.
unfoldable pub run_info : Configuration → Option EmbeddedCache → List Action
run_info conf none = exit_fatal ∷ []
run_info conf (some cache) = go_serve_info cache ∷ run_udp conf

unfoldable pub run_http : Configuration → Option EmbeddedCache → List Action
run_http conf cache =
    if text_is conf.http_mode (codes "enabled")
    then init_http ∷ go_serve_http ∷ run_udp conf
    else if text_is conf.http_mode (codes "info")
    then run_info conf cache
    else run_udp conf

abbrev pub is_zero : ℤ → Bool
is_zero (pos n) = n == 0
is_zero (negsuc n) = false

-- Behind `storage.Open()`; the flag says that it returned no error.
unfoldable pub run_opened : Configuration → Bool → Option EmbeddedCache → List Action
run_opened conf false cache = exit_fatal ∷ []
run_opened conf true cache =
    initialize_pools conf.numwant_limit
    ∷ (go_signal_handler
        ∷ ((if is_zero conf.pprof then [] else go_pprof ∷ []) ++ run_http conf cache))

-- A nil configuration panics where `Loaded` reads it.
unfoldable pub run : Option Configuration → Bool → Option EmbeddedCache → Result (List Action)
run none opened cache = panic
run (some conf) opened cache = ok (
    if conf.loaded
    then warnings conf ++ (open_storage opened ∷ run_opened conf opened cache)
    else exit_fatal ∷ [])

-- The process from `Load` on; `none` if it exits there.
unfoldable pub launch :
    Environment → Option Configuration → Bool → Option EmbeddedCache → Option (Result (List Action))
launch env conf opened cache = elim (load env conf) [
  | none ↦ none
  | some c ↦ some (run c opened cache)
]

-- What the information server answers an announce with.
unfoldable pub info_response : Bytes
unfolding new_dictionary int64 get_bytes
info_response = (get_bytes (int64 new_dictionary (codes "interval") (pos 86400))).1

-- The paths that it registers, with what they write, given the page of expvar.
unfoldable pub info_routes : Bytes → EmbeddedCache → List (Bytes × Bytes)
info_routes page cache =
    (codes "/heartbeat", [])
    ∷ ((codes "/stats", page)
        ∷ ((codes "/scrape", []) ∷ ((codes "/announce", info_response) ∷ cache)))

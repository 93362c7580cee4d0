-- ===== src/Trackers/Launched.antt =====
-- The order of what `Run` of tracker/tracker.go starts, and when it starts anything.
use trakx.Common.{
  ◌+◌, ◌%◌, ◌^◌, ◌≡◌, refl, sym, ap, ◌∙◌, Bool, true, false, not, ◌&&◌, List, [], ◌∷◌, ◌++◌, Option,
  none, some, Bool-cases, inl, inr,
}
use trakx.Common.Bytes.{Bytes, codes}
use trakx.Common.Outcome.{Result, ok, err, panic}
use trakx.Bencoding.Decimal.{ℤ}
use trakx.Config.Embed.{EmbeddedCache}
use trakx.Config.Settings.{
  Configuration, Environment, Parsed, Level, returned, bad_port, exited, text_is, parse,
  resolve_paths, override_port, with_port, set_log_level,
}
use trakx.Storage.Types.{signed_gt}
use trakx.Strconv.{atoi}
use trakx.Trackers.Launch.{
  Action, exit_fatal, warn_not_validated, log_short_expiry, open_storage, initialize_pools,
  go_signal_handler, go_pprof, init_http, go_serve_http, go_serve_info, init_udp, go_serve_udp,
  publish, block_forever, load, kept, warnings, run_udp, run_info, run_http, is_zero, run_opened,
  run, launch,
}

-- How far a process has come.
pub record Stage : Type 0 where
  pub opened : Bool
  pub http : Bool
  pub info : Bool
  pub udp : Bool

abbrev is_end : List Action → Bool
is_end [] = true
is_end (a ∷ actions) = false

-- A tracker is made over an open database, and served once it has been made; one of the tracker and
-- the information server is over HTTP, once at most. A process ends
-- in an exit or goes on for ever, in the publishing of the statistics or in a block.
abbrev pub allowed : Stage → List Action → Bool
allowed st [] = false
allowed st (exit_fatal ∷ actions) = is_end actions
allowed st (publish ∷ actions) = st.opened && is_end actions
allowed st (block_forever ∷ actions) = st.opened && is_end actions
allowed st (open_storage succeeded ∷ actions) =
    not st.opened && allowed (record st { opened = succeeded }) actions
allowed st (initialize_pools n ∷ actions) = st.opened && allowed st actions
allowed st (go_signal_handler ∷ actions) = st.opened && allowed st actions
allowed st (init_http ∷ actions) =
    (st.opened && not st.http && not st.info) && allowed (record st { http = true }) actions
allowed st (go_serve_http ∷ actions) = (st.http && not st.info) && allowed st actions
allowed st (go_serve_info cache ∷ actions) =
    (st.opened && not st.http && not st.info) && allowed (record st { info = true }) actions
allowed st (init_udp ∷ actions) =
    (st.opened && not st.udp) && allowed (record st { udp = true }) actions
allowed st (go_serve_udp ∷ actions) = st.udp && allowed st actions
allowed st (warn_not_validated ∷ actions) = allowed st actions
allowed st (log_short_expiry ∷ actions) = allowed st actions
allowed st (go_pprof ∷ actions) = allowed st actions

abbrev pub opens : List Action → Bool
opens [] = false
opens (open_storage succeeded ∷ actions) = true
opens (a ∷ actions) = opens actions

allowed-warnings :
    (st : Stage) (conf : Configuration) (actions : List Action)
    → allowed st (warnings conf ++ actions) ≡ allowed st actions
unfolding warnings
allowed-warnings st conf actions = elim (Bool-cases conf.validate) [
  | inl e ↦
      rw e
        (elim (Bool-cases
          (signed_gt ((conf.announce_base + conf.announce_fuzz) % 2 ^ 64) conf.db_expiry)) [
            | inl f ↦ rw f refl
            | inr f ↦ rw f refl
          ])
  | inr e ↦
      rw e
        (elim (Bool-cases
          (signed_gt ((conf.announce_base + conf.announce_fuzz) % 2 ^ 64) conf.db_expiry)) [
            | inl f ↦ rw f refl
            | inr f ↦ rw f refl
          ])
]

allowed-run_udp :
    (st : Stage) (conf : Configuration)
    → st.opened ≡ true
    → st.udp ≡ false
    → allowed st (run_udp conf) ≡ true
unfolding run_udp
allowed-run_udp st conf h k = elim (Bool-cases conf.udp_enabled) [
  | inl e ↦ rw e (elim (Bool-cases (signed_gt conf.expvar_interval 0)) [
    | inl f ↦ rw (f, h, k) refl
    | inr f ↦ rw (f, h, k) refl
  ])
  | inr e ↦ rw e (elim (Bool-cases (signed_gt conf.expvar_interval 0)) [
    | inl f ↦ rw (f, h) refl
    | inr f ↦ rw (f, h) refl
  ])
]

abbrev pub initial : Stage
initial = record { opened = false; http = false; info = false; udp = false }

abbrev over_database : Stage
over_database = record { opened = true; http = false; info = false; udp = false }

allowed-run_info :
    (conf : Configuration) (cache : Option EmbeddedCache)
    → allowed over_database (run_info conf cache) ≡ true
unfolding run_info
allowed-run_info conf none = refl
allowed-run_info conf (some cache) =
    allowed-run_udp (record over_database { info = true }) conf refl refl

allowed-run_http :
    (conf : Configuration) (cache : Option EmbeddedCache)
    → allowed over_database (run_http conf cache) ≡ true
unfolding run_http
allowed-run_http conf cache = elim (Bool-cases (text_is conf.http_mode (codes "enabled"))) [
  | inl e ↦ rw e (allowed-run_udp (record over_database { http = true }) conf refl refl)
  | inr e ↦ rw e (elim (Bool-cases (text_is conf.http_mode (codes "info"))) [
    | inl f ↦ rw f (allowed-run_info conf cache)
    | inr f ↦ rw f (allowed-run_udp over_database conf refl refl)
  ])
]

allowed-run_opened :
    (conf : Configuration) (opened : Bool) (cache : Option EmbeddedCache)
    → allowed initial (open_storage opened ∷ run_opened conf opened cache) ≡ true
unfolding run_opened
allowed-run_opened conf false cache = refl
allowed-run_opened conf true cache = elim (Bool-cases (is_zero conf.pprof)) [
  | inl e ↦ rw e (allowed-run_http conf cache)
  | inr e ↦ rw e (allowed-run_http conf cache)
]

run_loaded :
    (conf : Configuration) (opened : Bool) (cache : Option EmbeddedCache)
    → conf.loaded ≡ true
    → run (some conf) opened cache
      ≡ ok (warnings conf ++ (open_storage opened ∷ run_opened conf opened cache))
unfolding run
run_loaded conf opened cache e = rw (e, run) refl

run_unloaded :
    (conf : Configuration) (opened : Bool) (cache : Option EmbeddedCache)
    → conf.loaded ≡ false
    → run (some conf) opened cache ≡ ok (exit_fatal ∷ [])
unfolding run
run_unloaded conf opened cache e = rw (e, run) refl

-- With any configuration that is not nil, `Run` opens the storage before it uses it, makes each tracker over a
-- storage that was opened and serves it only once it is made, never serves
-- the tracker and the information server over HTTP both, and ends in an exit, the publishing of the
-- statistics or a block, whatever the configuration holds and the calls return.
pub run-allowed :
    (conf : Configuration) (opened : Bool) (cache : Option EmbeddedCache)
    → (actions : List Action) × (run (some conf) opened cache ≡ ok actions)
      × (allowed initial actions ≡ true)
run-allowed conf opened cache = elim (Bool-cases conf.loaded) [
  | inl e ↦ (
    warnings conf ++ (open_storage opened ∷ run_opened conf opened cache),
    run_loaded conf opened cache e,
    allowed-warnings initial conf (open_storage opened ∷ run_opened conf opened cache)
        ∙ allowed-run_opened conf opened cache,
  )
  | inr e ↦ (exit_fatal ∷ [], run_unloaded conf opened cache e, refl)
]

-- The process has called `storage.Open()`.
abbrev pub opened_by : Option (Result (List Action)) → Bool
opened_by none = false
opened_by (some (ok actions)) = opens actions
opened_by (some (err e)) = false
opened_by (some panic) = false

-- `Parse` returned without an error.
abbrev pub accepted : Parsed → Bool
accepted (returned conf level) = true
accepted (bad_port conf level) = false
accepted exited = false

abbrev loaded_by : Parsed → Bool
loaded_by (returned conf level) = conf.loaded
loaded_by (bad_port conf level) = conf.loaded
loaded_by exited = false

loaded_by-with_port :
    (conf : Configuration) (level : Level) (port : Option ℤ)
    → conf.loaded ≡ false
    → loaded_by (with_port conf level port) ≡ accepted (with_port conf level port)
unfolding with_port
loaded_by-with_port conf level none h = h
loaded_by-with_port conf level (some port) h = refl

loaded_by-override_port :
    (conf : Configuration) (level : Level) (port_text : Bytes)
    → conf.loaded ≡ false
    → loaded_by (override_port conf level port_text) ≡ accepted (override_port conf level port_text)
unfolding override_port
loaded_by-override_port conf level [] h = refl
loaded_by-override_port conf level (c ∷ cs) h = loaded_by-with_port conf level (atoi (c ∷ cs)) h

loaded_by-resolve_paths :
    (env : Environment) (conf : Configuration) (level : Level) (home : Option Bytes)
    → conf.loaded ≡ false
    → loaded_by (resolve_paths env conf level home) ≡ accepted (resolve_paths env conf level home)
unfolding resolve_paths
loaded_by-resolve_paths env conf level none h = refl
loaded_by-resolve_paths env conf level (some home) h =
    loaded_by-override_port _ level (env.get_env (codes "PORT")) h

loaded_by-parse :
    (env : Environment) (conf : Configuration)
    → conf.loaded ≡ false
    → loaded_by (parse env conf) ≡ accepted (parse env conf)
unfolding parse set_log_level
loaded_by-parse env conf h = loaded_by-resolve_paths env _ _ env.user_home_dir h

opens-warnings :
    (conf : Configuration) (actions : List Action)
    → opens (warnings conf ++ actions) ≡ opens actions
unfolding warnings
opens-warnings conf actions = elim (Bool-cases conf.validate) [
  | inl e ↦
      rw e
        (elim (Bool-cases
          (signed_gt ((conf.announce_base + conf.announce_fuzz) % 2 ^ 64) conf.db_expiry)) [
            | inl f ↦ rw f refl
            | inr f ↦ rw f refl
          ])
  | inr e ↦
      rw e
        (elim (Bool-cases
          (signed_gt ((conf.announce_base + conf.announce_fuzz) % 2 ^ 64) conf.db_expiry)) [
            | inl f ↦ rw f refl
            | inr f ↦ rw f refl
          ])
]

opened_by-run :
    (conf : Configuration) (opened : Bool) (cache : Option EmbeddedCache)
    → opened_by (some (run (some conf) opened cache)) ≡ conf.loaded
opened_by-run conf opened cache = elim (Bool-cases conf.loaded) [
  | inl e ↦
      ap (λ r. opened_by (some r)) (run_loaded conf opened cache e)
      ∙ opens-warnings conf (open_storage opened ∷ run_opened conf opened cache)
      ∙ sym e
  | inr e ↦ ap (λ r. opened_by (some r)) (run_unloaded conf opened cache e) ∙ sym e
]

opened_by-kept :
    (p : Parsed) (opened : Bool) (cache : Option EmbeddedCache)
    → opened_by (elim (kept p) [ none ↦ none | some c ↦ some (run c opened cache) ]) ≡ loaded_by p
unfolding kept
opened_by-kept (returned conf level) opened cache = opened_by-run conf opened cache
opened_by-kept (bad_port conf level) opened cache = opened_by-run conf opened cache
opened_by-kept exited opened cache = refl

-- A process whose settings the library has read, into a configuration that is not yet marked as
-- loaded, opens its storage when `Parse` returns without an error, and not otherwise.
pub opened_by-launch :
    (env : Environment) (conf : Configuration) (opened : Bool) (cache : Option EmbeddedCache)
    → conf.loaded ≡ false
    → opened_by (launch env (some conf) opened cache) ≡ accepted (parse env conf)
unfolding launch load
opened_by-launch env conf opened cache h =
    opened_by-kept (parse env conf) opened cache ∙ loaded_by-parse env conf h

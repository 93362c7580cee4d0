-- ===== src/Config/Settings.antt =====
-- config/config.go: the settings, `SetLogLevel` and `Parse`.
use trakx.Common.{
  ℕ, Bool, true, [], ◌∷◌, ◌++◌, Option, none, some, length, drop, ◌==◌, if◌then◌else◌,
}
use trakx.Common.Bytes.{Bytes, codes}
use trakx.Common.Search.{has_prefix}
use trakx.Bencoding.Decimal.{ℤ}
use trakx.Storage.Types.{Bytes-discrete}
use trakx.Strconv.{atoi}
use mathlib.Core.Bool.{decide}

-- A text is its bytes; a time is the bits of its `int64`.
pub record Configuration : Type 0 where
  pub loaded : Bool
  pub log_level : Bytes
  pub expvar_interval : ℕ
  pub pprof : ℤ
  pub announce_base : ℕ
  pub announce_fuzz : ℕ
  pub http_mode : Bytes
  pub http_ip : Bytes
  pub http_port : ℤ
  pub http_read_timeout : ℕ
  pub http_write_timeout : ℕ
  pub http_threads : ℤ
  pub udp_enabled : Bool
  pub udp_ip : Bytes
  pub udp_port : ℤ
  pub udp_threads : ℤ
  pub validate : Bool
  pub conndb_size : ℕ
  pub conndb_trim : ℕ
  pub conndb_expiry : ℕ
  pub numwant_default : ℕ
  pub numwant_limit : ℕ
  pub db_type : Bytes
  pub backup_frequency : ℕ
  pub backup_type : Bytes
  pub backup_path : Bytes
  pub db_trim : ℕ
  pub db_expiry : ℕ
  pub log_path : Bytes
  pub pid_path : Bytes

abbrev pub text_is : Bytes → Bytes → Bool
text_is s t = decide (Bytes-discrete s t)

-- The levels of the logger.
pub data Level : Type 0 where
  debug_level info_level warn_level error_level fatal_level : Level

-- The switch of `SetLogLevel`.
unfoldable pub level_of : Bytes → Level
level_of level =
    if text_is level (codes "debug")
    then debug_level
    else if text_is level (codes "info")
    then info_level
    else if text_is level (codes "warn")
    then warn_level
    else if text_is level (codes "error")
    then error_level
    else if text_is level (codes "fatal")
    then fatal_level
    else warn_level

unfoldable pub set_log_level : Bytes → Configuration → Configuration × Level
set_log_level level conf = (record conf { log_level = level }, level_of level)

-- `strings.ReplaceAll` of one byte by a text.
unfoldable pub replace_all : ℕ → Bytes → Bytes → Bytes
replace_all c by_text [] = []
replace_all c by_text (b ∷ bs) =
    let rest = replace_all c by_text bs in if b == c then by_text ++ rest else b ∷ rest

-- `strings.TrimPrefix`.
unfoldable pub trim_prefix : Bytes → Bytes → Bytes
trim_prefix prefix bs = if has_prefix prefix bs then drop (length prefix) bs else bs

-- The environment: its variables, a missing one is empty, and the home directory if there is one.
-- `lower` is `strings.ToLower`.
pub record Environment : Type 0 where
  pub get_env : Bytes → Bytes
  pub user_home_dir : Option Bytes
  pub lower : Bytes → Bytes

-- The path of the backup may name a variable that holds it.
unfoldable pub resolve : Environment → Bytes → Bytes
resolve env path =
    if has_prefix (codes "ENV:") path then env.get_env (trim_prefix (codes "ENV:") path) else path

-- How `Parse` ends: it returns, with an error or none, or the logger exits the process.
pub data Parsed : Type 0 where
  returned : (conf : Configuration) → (level : Level) → Parsed
  bad_port : (conf : Configuration) → (level : Level) → Parsed
  exited : Parsed

-- The port as it was read.
unfoldable pub with_port : Configuration → Level → Option ℤ → Parsed
with_port conf level none = bad_port conf level
with_port conf level (some port) = returned (record conf { http_port = port; loaded = true }) level

-- The variable PORT, if it is set, goes before the port of the configuration.
unfoldable pub override_port : Configuration → Level → Bytes → Parsed
override_port conf level [] = returned (record conf { loaded = true }) level
override_port conf level (c ∷ cs) = with_port conf level (atoi (c ∷ cs))

-- `Parse` behind the lookup of the home directory.
unfoldable pub resolve_paths : Environment → Configuration → Level → Option Bytes → Parsed
resolve_paths env conf level none = exited
resolve_paths env conf level (some home) =
    override_port
      (record conf {
        pid_path = replace_all b'~' home conf.pid_path;
        log_path = replace_all b'~' home conf.log_path;
      })
      level (env.get_env (codes "PORT"))

unfoldable pub parse : Environment → Configuration → Parsed
parse env conf =
    let lowered : Configuration = record conf { http_mode = env.lower conf.http_mode } in
    let (conf', level) = set_log_level (env.lower conf.log_level) lowered in
    resolve_paths env (record conf' { backup_path = resolve env conf'.backup_path }) level
      env.user_home_dir

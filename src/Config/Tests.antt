-- ===== src/Config/Tests.antt =====
-- The cache of a small directory, and a configuration that is parsed.
use trakx.Common.{
  ℕ, ◌+◌, ◌&&◌, leb, if◌then◌else◌, map, arith, subst, ap, ◌∙◌, true, ◌≡◌, ◌≢◌, refl, false, [],
  ◌∷◌, none, some, List,
}
use trakx.Common.Assoc.{get}
use trakx.Common.Bytes.{Bytes, codes}
use trakx.Common.Search.{has_prefix}
use trakx.Storage.Types.{Bytes-discrete}
use trakx.Config.Embed.{Entry, EmbeddedCache, config_name, generate_embedded_cache}
use trakx.Bencoding.Decimal.{pos}
use trakx.Strconv.{atoi, parse_unsigned, parse_digits}
use mathlib.Core.Option.{some-injective}
use trakx.Config.Settings.{
  Configuration, Environment, text_is, returned, info_level, parse, resolve_paths, set_log_level,
  override_port, with_port, resolve, replace_all, trim_prefix, level_of,
}
use trakx.Config.Pages.{served, ends_in, one_line}
use trakx.Config.Parsed.{Lacks, IsPlain, again, parse-parse}
use trakx.Config.Cached.{or_else, entry_at, file_at, generate_embedded_cache_lem}

abbrev embedded : List Entry
embedded =
    record { name = codes "trakx.yaml"; is_dir = false; contents = some (codes "x") }
    ∷ (record { name = codes "index.html"; is_dir = false; contents = some (codes "a\n\tb") } ∷ [])

page_trimmed : file_at (codes "/index.html") embedded ≡ some (codes "ab")
unfolding file_at entry_at served ends_in one_line Bytes-discrete mathlib.Core.Bool.decide
page_trimmed = refl

generate_embedded_cache_lem_example :
    (cache : EmbeddedCache) × (generate_embedded_cache (some embedded) ≡ some cache)
    × ((path : Bytes) → path ≢ codes "/" → get Bytes-discrete path cache ≡ file_at path embedded)
    × (get Bytes-discrete (codes "/") cache
        ≡ or_else (file_at (codes "/index.html") embedded) (file_at (codes "/") embedded))
    × (get Bytes-discrete (b'/' ∷ config_name) cache ≡ none)
generate_embedded_cache_lem_example =
    generate_embedded_cache_lem embedded ((codes "x", refl), ((codes "a\n\tb", refl), tt))

-- Settings with a path in the home directory, and the name of a variable for the backup.
abbrev pub sample : Configuration
sample = record {
  loaded = false;
  log_level = codes "INFO";
  expvar_interval = 0;
  pprof = pos 0;
  announce_base = 900;
  announce_fuzz = 60;
  http_mode = codes "Enabled";
  http_ip = [];
  http_port = pos 1337;
  http_read_timeout = 0;
  http_write_timeout = 0;
  http_threads = pos 4;
  udp_enabled = true;
  udp_ip = [];
  udp_port = pos 1337;
  udp_threads = pos 4;
  validate = false;
  conndb_size = 0;
  conndb_trim = 0;
  conndb_expiry = 0;
  numwant_default = 75;
  numwant_limit = 150;
  db_type = codes "gomap";
  backup_frequency = 0;
  backup_type = codes "file";
  backup_path = codes "ENV:DB";
  db_trim = 0;
  db_expiry = 100;
  log_path = codes "~/trakx.log";
  pid_path = codes "~/trakx.pid";
}

-- The letters that the texts above have in upper case.
abbrev pub lower_byte : ℕ → ℕ
lower_byte b = if leb b'A' b && leb b b'Z' then b + 32 else b

abbrev pub variables : Bytes → Bytes
variables name =
    if text_is name (codes "PORT")
    then codes "80"
    else if text_is name (codes "DB")
    then codes "/db"
    else []

abbrev pub machine : Environment
machine = record { get_env = variables; user_home_dir = some (codes "/r"); lower = map lower_byte }

parsing : Unit {0}
unfolding parse resolve_paths set_log_level override_port with_port resolve replace_all trim_prefix
    level_of has_prefix atoi parse_unsigned parse_digits Bytes-discrete mathlib.Core.Bool.decide
parsing = tt

lower-lower : (b : ℕ) → lower_byte (lower_byte b) ≡ lower_byte b
lower-lower b = ground arith

map-lower : (text : Bytes) → map lower_byte (map lower_byte text) ≡ map lower_byte text
map-lower [] = refl
map-lower (b ∷ bs) =
    ap (λ c. c ∷ map lower_byte (map lower_byte bs)) (lower-lower b)
    ∙ ap (λ cs. lower_byte b ∷ cs) (map-lower bs)

home_lacks : (home : Bytes) → machine.user_home_dir ≡ some home → Lacks b'~' home
home_lacks home e = subst (Lacks b'~') (some-injective (codes "/r") home e) (refl, (refl, tt))

sample-IsPlain : IsPlain machine sample
unfolding parsing
sample-IsPlain = record { lowered = map-lower; home = home_lacks; path = refl }

parse-parse_example : again machine (parse machine sample) ≡ parse machine sample
parse-parse_example = parse-parse machine sample sample-IsPlain

-- The port and the paths of what is parsed.
parsed_example :
    parse machine sample
    ≡ returned
        (record sample {
          loaded = true;
          log_level = codes "info";
          http_mode = codes "enabled";
          http_port = pos 80;
          backup_path = codes "/db";
          log_path = codes "/r/trakx.log";
          pid_path = codes "/r/trakx.pid";
        })
        info_level
unfolding parsing
parsed_example = refl

-- ===== src/Config/Parsed.antt =====
-- What `Parse` of config/config.go leaves.
use trakx.Common.{
  ℕ, ◌≡◌, refl, sym, ap, ◌∙◌, true, false, [], ◌∷◌, ◌++◌, none, some, ◌==◌, Bool-cases,
  Option-cases, inl, inr,
}
use trakx.Common.Bytes.{Bytes, codes}
use trakx.Common.Search.{has_prefix}
use trakx.Bencoding.Decimal.{ℤ}
use trakx.Strconv.{atoi}
use trakx.Config.Settings.{
  Configuration, Environment, Parsed, returned, bad_port, exited, level_of, set_log_level,
  replace_all, resolve, override_port, with_port, resolve_paths, parse,
}

-- No byte of the text is the given one.
abbrev pub Lacks : ℕ → Bytes → Type 0
Lacks c [] = Unit
Lacks c (b ∷ bs) = ((b == c) ≡ false) × Lacks c bs

Lacks-append : (c : ℕ) (bs cs : Bytes) → Lacks c bs → Lacks c cs → Lacks c (bs ++ cs)
Lacks-append c [] cs h k = k
Lacks-append c (b ∷ bs) cs (h, hs) k = (h, Lacks-append c bs cs hs k)

replace_all-Lacks :
    (c : ℕ) (by_text bs : Bytes) → Lacks c by_text → Lacks c (replace_all c by_text bs)
unfolding replace_all
replace_all-Lacks c by_text [] h = tt
replace_all-Lacks c by_text (b ∷ bs) h = elim (Bool-cases (b == c)) [
  | inl e ↦
      rw e (Lacks-append c by_text (replace_all c by_text bs) h (replace_all-Lacks c by_text bs h))
  | inr e ↦ rw e (e, replace_all-Lacks c by_text bs h)
]

replace_all_none : (c : ℕ) (by_text bs : Bytes) → Lacks c bs → replace_all c by_text bs ≡ bs
unfolding replace_all
replace_all_none c by_text [] h = refl
replace_all_none c by_text (b ∷ bs) (h, hs) =
    rw (h, replace_all) (ap (λ r. b ∷ r) (replace_all_none c by_text bs hs))

replace_all-replace_all :
    (c : ℕ) (by_text bs : Bytes)
    → Lacks c by_text
    → replace_all c by_text (replace_all c by_text bs) ≡ replace_all c by_text bs
replace_all-replace_all c by_text bs h =
    replace_all_none c by_text (replace_all c by_text bs) (replace_all-Lacks c by_text bs h)

-- The configuration before the port, with the home directory.
abbrev normal : Environment → Bytes → Configuration → Configuration
normal env home conf = record conf {
  log_level = env.lower conf.log_level;
  http_mode = env.lower conf.http_mode;
  backup_path = resolve env conf.backup_path;
  pid_path = replace_all b'~' home conf.pid_path;
  log_path = replace_all b'~' home conf.log_path;
}

parse_home :
    (env : Environment) (conf : Configuration) {home : Bytes}
    → env.user_home_dir ≡ some home
    → parse env conf
      ≡ override_port
          (normal env home conf)
          (level_of (env.lower conf.log_level))
          (env.get_env (codes "PORT"))
unfolding parse resolve_paths set_log_level
parse_home env conf e =
    ap
      (resolve_paths env
        (record conf {
          log_level = env.lower conf.log_level;
          http_mode = env.lower conf.http_mode;
          backup_path = resolve env conf.backup_path;
        })
        (level_of (env.lower conf.log_level)))
      e

parse_homeless :
    (env : Environment) (conf : Configuration) → env.user_home_dir ≡ none → parse env conf ≡ exited
unfolding parse resolve_paths set_log_level
parse_homeless env conf e =
    ap
      (resolve_paths env
        (record conf {
          log_level = env.lower conf.log_level;
          http_mode = env.lower conf.http_mode;
          backup_path = resolve env conf.backup_path;
        })
        (level_of (env.lower conf.log_level)))
      e

-- What `Parse` makes of what it returned.
abbrev pub again : Environment → Parsed → Parsed
again env (returned conf level) = parse env conf
again env (bad_port conf level) = bad_port conf level
again env exited = exited

-- The environment lowers a text once for all, the home directory has no tilde in it, and the variable that is named for
-- the path of the backup names no other.
pub record IsPlain (env : Environment) (conf : Configuration) : Type 0 where
  pub lowered : (text : Bytes) → env.lower (env.lower text) ≡ env.lower text
  pub home : (home : Bytes) → env.user_home_dir ≡ some home → Lacks b'~' home
  pub path : has_prefix (codes "ENV:") (resolve env conf.backup_path) ≡ false

module _ (env : Environment) (conf : Configuration) (plain : IsPlain env conf) {home : Bytes}
    (given : env.user_home_dir ≡ some home) where
  resolve-resolve : resolve env (resolve env conf.backup_path) ≡ resolve env conf.backup_path
  unfolding resolve
  resolve-resolve = rw (plain.path, resolve) refl

  -- A configuration that has been parsed, with any port.
  settled : ℤ → Configuration
  settled port = record (normal env home conf) { http_port = port; loaded = true }

  parse-settled :
      (port : ℤ)
      → parse env (settled port)
        ≡ override_port
            (settled port)
            (level_of (env.lower conf.log_level))
            (env.get_env (codes "PORT"))
  unfolding settled
  parse-settled port =
      parse_home env (settled port) given
      ∙ rw
          (
            plain.lowered conf.log_level,
            plain.lowered conf.http_mode,
            resolve-resolve,
            replace_all-replace_all b'~' home conf.pid_path (plain.home home given),
            replace_all-replace_all b'~' home conf.log_path (plain.home home given),
          )
          refl

  -- By what PORT holds.
  settled_again :
      (port_text : Bytes)
      → env.get_env (codes "PORT") ≡ port_text
      → again env
          (override_port (normal env home conf) (level_of (env.lower conf.log_level)) port_text)
        ≡ override_port (normal env home conf) (level_of (env.lower conf.log_level)) port_text
  unfolding settled override_port with_port
  settled_again [] e =
      parse-settled conf.http_port
      ∙ ap (override_port (settled conf.http_port) (level_of (env.lower conf.log_level))) e
  settled_again (c ∷ cs) e = elim (Option-cases (atoi (c ∷ cs))) [
    | inl n ↦ rw n refl
    | inr (port, n) ↦ rw n (
        parse-settled port
        ∙ ap (override_port (settled port) (level_of (env.lower conf.log_level))) e
        ∙ ap (with_port (settled port) (level_of (env.lower conf.log_level))) n)
  ]

  parse-home : again env (parse env conf) ≡ parse env conf
  parse-home =
      ap (again env) (parse_home env conf given)
      ∙ settled_again (env.get_env (codes "PORT")) refl
      ∙ sym (parse_home env conf given)

-- `Parse` of a configuration that `Parse` returned returns the same configuration and the same level, when
-- lowering a text twice is lowering it once, the home directory has no tilde in it, and the variable that the path of the backup names
-- does not name another one. Where it failed there is nothing to parse.
pub parse-parse :
    (env : Environment) (conf : Configuration)
    → IsPlain env conf
    → again env (parse env conf) ≡ parse env conf
parse-parse env conf plain = elim (Option-cases env.user_home_dir) [
  | inl e ↦ rw (parse_homeless env conf e) refl
  | inr (home, e) ↦ parse-home env conf plain e
]

-- ===== src/Udp/ConnDb/Accepts.antt =====
-- What the connection database of tracker/udp/conndb.go promises: which id is accepted from which
-- address, whatever is added and trimmed.
use trakx.Common.{
  ℕ, ◌≡◌, refl, ap, ◌∙◌, fun_ext, Bool, false, List, [], ◌∷◌, Option, none, some, ◌==◌,
  if◌then◌else◌, Option-cases, inl, inr, arith,
}
use trakx.Common.Assoc.{get, Distinct, get-set, set-Distinct}
use trakx.Udp.ConnDb.{
  AddrPort, AddrPort-discrete, ConnectionInfo, ConnectionMap, ConnectionDatabase, add, check,
  is_stale, trim,
}
use trakx.Udp.ConnDb.Checks.{recent, get-recent, get-recent-none, trim-recent}
use mathlib.Core.Logic.{ite}

pub data Call : Type 0 where
  add_connection : (now id : ℕ) → (addr : AddrPort) → Call
  trim_connections : (now : ℕ) → Call

unfoldable pub call : Call → ConnectionDatabase → ConnectionDatabase
call (add_connection now id addr) db = add now id addr db
call (trim_connections now) db = trim now db

unfoldable pub calls : List Call → ConnectionDatabase → ConnectionDatabase
calls [] db = db
calls (c ∷ cs) db = calls cs (call c db)

-- A connection for each address, and the calls on it.
abbrev pub Connections : Type 0
Connections = AddrPort → Option ConnectionInfo

abbrev pub fresh : ℕ → ℕ → Option ConnectionInfo → Option ConnectionInfo
fresh now expiry none = none
fresh now expiry (some conn) = if is_stale now expiry conn then none else some conn

unfoldable pub specified : ℕ → Call → Connections → Connections
specified expiry (add_connection now id addr) m =
    λ a. ite (AddrPort-discrete a addr) (some (record { id = id; time_stamp = now })) (m a)
specified expiry (trim_connections now) m = λ a. fresh now expiry (m a)

unfoldable pub all_specified : ℕ → List Call → Connections → Connections
all_specified expiry [] m = m
all_specified expiry (c ∷ cs) m = all_specified expiry cs (specified expiry c m)

abbrev pub accepts : ℕ → Option ConnectionInfo → Bool
accepts id none = false
accepts id (some conn) = conn.id == id

abbrev pub connections : ConnectionDatabase → Connections
connections db = λ a. get AddrPort-discrete a db.connection_map

check-connections :
    (id : ℕ) (a : AddrPort) (db : ConnectionDatabase)
    → check id a db ≡ accepts id (connections db a)
unfolding check
check-connections id a db = ground arith

get-recent_lem :
    (now expiry : ℕ) (a : AddrPort) (m : ConnectionMap)
    → Distinct AddrPort-discrete m
    → get AddrPort-discrete a (recent now expiry m) ≡ fresh now expiry (get AddrPort-discrete a m)
get-recent_lem now expiry a m d = elim (Option-cases (get AddrPort-discrete a m)) [
  | inl e ↦ rw e (get-recent-none now expiry a m e)
  | inr (conn, e) ↦ rw e (get-recent now expiry a m {conn = conn} d e)
]

recent-Distinct :
    (now expiry : ℕ) (m : ConnectionMap)
    → Distinct AddrPort-discrete m
    → Distinct AddrPort-discrete (recent now expiry m)
unfolding recent
recent-Distinct now expiry [] d = tt
recent-Distinct now expiry ((a, conn) ∷ m) (n, d) =
    ground (arith, recent-Distinct now expiry m d, get-recent-none now expiry a m n)

-- One call, on a database with distinct keys.
call_lem :
    (c : Call) (db : ConnectionDatabase)
    → Distinct AddrPort-discrete db.connection_map
    → (connections (call c db) ≡ specified db.expiry c (connections db))
      × ((call c db).expiry ≡ db.expiry)
      × Distinct AddrPort-discrete (call c db).connection_map
unfolding call specified add
call_lem (add_connection now id addr) db d = (
  fun_ext (λ a.
      get-set AddrPort-discrete a addr (record { id = id; time_stamp = now }) db.connection_map),
  refl,
  set-Distinct AddrPort-discrete addr (record { id = id; time_stamp = now }) db.connection_map d,
)
call_lem (trim_connections now) db d = rw (trim-recent now db d) (
  fun_ext (λ a. get-recent_lem now db.expiry a db.connection_map d),
  refl,
  recent-Distinct now db.expiry db.connection_map d,
)

connections-calls :
    (cs : List Call) (db : ConnectionDatabase)
    → Distinct AddrPort-discrete db.connection_map
    → connections (calls cs db) ≡ all_specified db.expiry cs (connections db)
unfolding calls all_specified
connections-calls [] db d = refl
connections-calls (c ∷ cs) db d =
    let (same, expiry, distinct) = call_lem c db d in
    connections-calls cs (call c db) distinct
    ∙ ap (λ e. all_specified e cs (connections (call c db))) expiry
    ∙ ap (all_specified db.expiry cs) same

-- Whatever is added and trimmed, one after the other, on a database with distinct keys: an id is
-- accepted from an address exactly if it is the last that was added for it, or the one that was there
-- at first, and no trim since found it older than the expiry.
pub check-calls :
    (cs : List Call) (id : ℕ) (a : AddrPort) (db : ConnectionDatabase)
    → Distinct AddrPort-discrete db.connection_map
    → check id a (calls cs db) ≡ accepts id (all_specified db.expiry cs (connections db) a)
check-calls cs id a db d =
    check-connections id a (calls cs db) ∙ ap (λ m. accepts id (m a)) (connections-calls cs db d)

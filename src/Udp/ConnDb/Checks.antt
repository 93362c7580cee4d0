-- ===== src/Udp/ConnDb/Checks.antt =====
-- Which connection ids are accepted after `add` and `trim`.
use trakx.Common.{
  ℕ, ◌≡◌, refl, sym, ap, ◌∙◌, subst, [], ◌∷◌, ◌++◌, none, some, ◌==◌, if◌then◌else◌, not, ◌&&◌,
  append_assoc, Bool-cases, inl, inr, arith,
}
use trakx.Common.Assoc.{get, delete, Distinct, get-set, get_front, delete_middle, Distinct-middle}
use trakx.Udp.ConnDb.{
  AddrPort, AddrPort-discrete, ConnectionInfo, ConnectionMap, ConnectionDatabase, add, check,
  is_stale, trim_loop, trim,
}
use mathlib.Core.Logic.{ite}

-- After `add` an address is accepted with the id that it was given, and with no other; what every
-- other address is accepted with does not change.
pub check-add :
    (now id i : ℕ) (addr a : AddrPort) (db : ConnectionDatabase)
    → check i a (add now id addr db) ≡ ite (AddrPort-discrete a addr) (id == i) (check i a db)
unfolding check add
check-add now id i addr a db = ground (
  arith,
  get-set AddrPort-discrete a addr (record { id = id; time_stamp = now }) db.connection_map,
)

-- The entries that are not stale, in their order.
unfoldable pub recent : ℕ → ℕ → ConnectionMap → ConnectionMap
recent now expiry [] = []
recent now expiry ((key, conn) ∷ es) =
    if is_stale now expiry conn then recent now expiry es else (key, conn) ∷ recent now expiry es

trim_loop-recent :
    (now : ℕ) (es front : ConnectionMap) (db : ConnectionDatabase)
    → db.connection_map ≡ front ++ es
    → Distinct AddrPort-discrete (front ++ es)
    → trim_loop now es db ≡ record db { connection_map = front ++ recent now db.expiry es }
unfolding trim_loop recent
trim_loop-recent now [] front db h d = ap (λ m. record { connection_map = m; expiry = db.expiry }) h
trim_loop-recent now ((key, conn) ∷ es) front db h d =
    elim (Bool-cases (is_stale now db.expiry conn)) [
      | inl e ↦
          let fresh = get_front AddrPort-discrete key conn front es d in
          let gone =
            ap (delete AddrPort-discrete key) h
            ∙ delete_middle AddrPort-discrete key conn front es fresh in
          rw e (
            trim_loop-recent now es front
              (record db { connection_map = delete AddrPort-discrete key db.connection_map }) gone
              (Distinct-middle AddrPort-discrete key conn front es d))
      | inr n ↦ rw n (
          let shift = append_assoc front ((key, conn) ∷ []) es in
          trim_loop-recent now es (front ++ ((key, conn) ∷ [])) db (h ∙ sym shift)
            (subst (Distinct AddrPort-discrete) (sym shift) d)
          ∙ ap (λ m. record { connection_map = m; expiry = db.expiry })
              (append_assoc front ((key, conn) ∷ []) (recent now db.expiry es)))
    ]

-- When the keys are distinct, `trim` leaves exactly the entries that are not older than the expiry, in their order.
pub trim-recent :
    (now : ℕ) (db : ConnectionDatabase)
    → Distinct AddrPort-discrete db.connection_map
    → trim now db ≡ record db { connection_map = recent now db.expiry db.connection_map }
unfolding trim
trim-recent now db d = trim_loop-recent now db.connection_map [] db refl d

pub get-recent-none :
    (now expiry : ℕ) (a : AddrPort) (m : ConnectionMap)
    → get AddrPort-discrete a m ≡ none
    → get AddrPort-discrete a (recent now expiry m) ≡ none
unfolding get recent
get-recent-none now expiry a [] e = refl
get-recent-none now expiry a ((key, c) ∷ m) e = ground (arith, get-recent-none now expiry a m)

pub get-recent :
    (now expiry : ℕ) (a : AddrPort) (m : ConnectionMap) {conn : ConnectionInfo}
    → Distinct AddrPort-discrete m
    → get AddrPort-discrete a m ≡ some conn
    → get AddrPort-discrete a (recent now expiry m)
      ≡ (if is_stale now expiry conn then none else some conn)
unfolding get recent
get-recent now expiry a [] d e = absurd (ground arith)
get-recent now expiry a ((key, c) ∷ m) {conn} (fresh, d) e =
    ground
      (arith, get-recent now expiry a m {conn = conn} d, get-recent-none now expiry key m fresh)

-- When the keys are distinct, after `trim` an address that has an entry is accepted with an id
-- exactly if it was before and its entry is not older than the expiry.
pub check-trim :
    (now id : ℕ) (a : AddrPort) (db : ConnectionDatabase) {conn : ConnectionInfo}
    → Distinct AddrPort-discrete db.connection_map
    → get AddrPort-discrete a db.connection_map ≡ some conn
    → check id a (trim now db) ≡ (not (is_stale now db.expiry conn) && check id a db)
check-trim now id a db {conn} d e = rw (trim-recent now db d) (
    unfold check in
    ground (arith, e, get-recent now db.expiry a db.connection_map {conn = conn} d e))

-- ===== src/Udp/ConnDb.antt =====
-- tracker/udp/conndb.go: which connection id was given to which address and port.
pub mod Checks
pub mod Accepts
pub mod Binary
pub mod Files
pub mod Tests
use trakx.Common.{
  ℕ, zero, suc, ◌%◌, ◌^◌, Bool, true, false, List, [], ◌∷◌, ◌++◌, Option, none, some, length, take,
  drop, ◌==◌, if◌then◌else◌, ℕ_discrete,
}
use trakx.Common.Assoc.{get, set, delete}
use trakx.Common.Bytes.{Bytes, le, of_le}
use trakx.Common.Outcome.{Result, ok, err, panic, bad_addr, ◌>>=◌, read, read_le}
use trakx.Storage.Types.{Addr, Addr-discrete, as_slice, addr_from_slice, signed_gt, sub64}

abbrev pub AddrPort : Type 0
AddrPort = Addr × ℕ

unfoldable pub AddrPort-discrete : Discrete AddrPort
unfolding Addr-discrete ℕ_discrete
AddrPort-discrete = hlevel (Addr-discrete, ℕ_discrete)

pub record ConnectionInfo : Type 0 where
  pub id : ℕ
  pub time_stamp : ℕ

abbrev pub ConnectionMap : Type 0
ConnectionMap = List (AddrPort × ConnectionInfo)

pub record ConnectionDatabase : Type 0 where
  pub connection_map : ConnectionMap
  pub expiry : ℕ

-- `expiry` in whole seconds.
unfoldable pub new_connection_database : ℕ → ConnectionDatabase
new_connection_database expiry = record { connection_map = []; expiry = expiry }

unfoldable pub size : ConnectionDatabase → ℕ
size db = length db.connection_map

unfoldable pub add : ℕ → ℕ → AddrPort → ConnectionDatabase → ConnectionDatabase
add now id addr db = record db {
  connection_map =
      set AddrPort-discrete addr (record { id = id; time_stamp = now }) db.connection_map;
}

unfoldable pub check : ℕ → AddrPort → ConnectionDatabase → Bool
check id addr db = elim (get AddrPort-discrete addr db.connection_map) [
  | none ↦ false
  | some cid ↦ cid.id == id
]

-- `epoch-conn.TimeStamp > db.expiry`, on `int64`s.
unfoldable pub is_stale : ℕ → ℕ → ConnectionInfo → Bool
is_stale now expiry conn = signed_gt (sub64 now conn.time_stamp) expiry

-- The loop of `trim`, over the entries that `range` still has to yield.
unfoldable pub trim_loop : ℕ → ConnectionMap → ConnectionDatabase → ConnectionDatabase
trim_loop now [] db = db
trim_loop now ((key, conn) ∷ es) db = trim_loop now es (
    if is_stale now db.expiry conn
    then record db { connection_map = delete AddrPort-discrete key db.connection_map }
    else db)

unfoldable pub trim : ℕ → ConnectionDatabase → ConnectionDatabase
trim now db = trim_loop now db.connection_map db

-- One entry of the binary form.
unfoldable pub encode_entry : AddrPort × ConnectionInfo → Bytes
encode_entry ((addr, port), conn) =
    le 1 (length (as_slice addr) % 2 ^ 8)
    ++ (as_slice addr ++ (le 2 port ++ (le 8 conn.id ++ le 8 conn.time_stamp)))

unfoldable pub encode_entries : ConnectionMap → Bytes
encode_entries [] = []
encode_entries (e ∷ es) = encode_entry e ++ encode_entries es

unfoldable pub marshall_binary : ConnectionDatabase → Result Bytes
marshall_binary db =
    ok (le 4 (length db.connection_map % 2 ^ 32) ++ encode_entries db.connection_map)

unfoldable pub decode_addr : Bytes → Result Addr
decode_addr b = elim (addr_from_slice b) [ none ↦ err bad_addr | some a ↦ ok a ]

-- The bytes of a `connectionInfo`, which `binary.Read` takes at once.
unfoldable pub info_of : Bytes → ConnectionInfo
info_of b = record { id = of_le (take 8 b); time_stamp = of_le (drop 8 b) }

unfoldable pub decode_entry : Bytes → Result ((AddrPort × ConnectionInfo) × Bytes)
decode_entry b = do
  (len, b1) ← read_le 1 b
  (slice, b2) ← read len b1
  (port, b3) ← read_le 2 b2
  (info, b4) ← read 16 b3
  addr ← decode_addr slice
  ok (((addr, port), info_of info), b4)

-- The loop of `unmarshallBinary`. What was read before an error stays in the map.
unfoldable pub decode_entries : ℕ → Bytes → ConnectionMap → ConnectionMap × Result (Unit {0})
decode_entries zero b m = (m, ok tt)
decode_entries (suc n) b m = elim (decode_entry b) [
  | ok (e, rest) ↦ decode_entries n rest (set AddrPort-discrete e.0 e.1 m)
  | err x ↦ (m, err x)
  | panic ↦ (m, panic)
]

unfoldable pub unmarshall_binary :
    Bytes → ConnectionDatabase → ConnectionDatabase × Result (Unit {0})
unmarshall_binary b db = elim (read_le 4 b) [
  | ok (n, rest) ↦ let (m, r) = decode_entries n rest [] in (record db { connection_map = m }, r)
  | err x ↦ (record db { connection_map = [] }, err x)
  | panic ↦ (record db { connection_map = [] }, panic)
]

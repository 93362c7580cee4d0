-- ===== src/Udp/ConnDb/Tests.antt =====
-- Runs of the connection database, and the theorems at concrete inputs.
use trakx.Common.{◌≡◌, refl, true, false, List, [], ◌∷◌, some, replicate, All, arith}
use trakx.Common.Assoc.{get, set, delete, Distinct}
use trakx.Storage.Types.{v4, v6}
use trakx.Udp.ConnDb.{
  AddrPort, AddrPort-discrete, ConnectionDatabase, new_connection_database, size, add, check,
  is_stale, trim_loop, trim,
}
use trakx.Udp.ConnDb.Accepts.{
  Call, add_connection, trim_connections, calls, all_specified, accepts, connections, check-calls,
}
use trakx.Udp.ConnDb.Binary.{plain4, plain6, IsStorable}

abbrev home : AddrPort
home = (v4 (10 ∷ 0 ∷ 0 ∷ 1 ∷ []), 6881)

abbrev away : AddrPort
away = (v6 (replicate 16 7) [], 51413)

abbrev two : ConnectionDatabase
two = record {
  connection_map =
      (home, record { id = 77; time_stamp = 100 })
      ∷ ((away, record { id = 88; time_stamp = 900 }) ∷ []);
  expiry = 300;
}

run : Unit {0}
unfolding new_connection_database size add check is_stale trim_loop trim get set delete
    AddrPort-discrete
run = tt

built : add 900 88 away (add 100 77 home (new_connection_database 300)) ≡ two
unfolding run
built = refl

kept :
    (check 77 home two ≡ true)
    × ((check 77 home (trim 1000 two) ≡ false) × (size (trim 1000 two) ≡ 1))
unfolding run
kept = (refl, (refl, refl))

two-Distinct : Distinct AddrPort-discrete two.connection_map
unfolding run
two-Distinct = (refl, (refl, tt))

home_entry :
    get AddrPort-discrete home two.connection_map ≡ some (record { id = 77; time_stamp = 100 })
unfolding run
home_entry = refl

two-IsStorable : All IsStorable two.connection_map
two-IsStorable = (
  record { addr = plain4 _ refl; port = omega arith; id = omega arith; time_stamp = omega arith },
  (
    record { addr = plain6 _ refl; port = omega arith; id = omega arith; time_stamp = omega arith },
    tt,
  ),
)

abbrev some_calls : List Call
some_calls = add_connection 500 99 home ∷ (trim_connections 1000 ∷ [])

check-calls_example :
    check 88 away (calls some_calls two)
    ≡ accepts 88 (all_specified 300 some_calls (connections two) away)
check-calls_example = check-calls some_calls 88 away two two-Distinct

-- ===== src/Stats.antt =====
-- tracker/stats: the counters, in stats.go, stats_slow.go and stats_fast.go. An `int64` or `int16`
-- is its bit pattern, so that adding -1 is adding 2 ^ w - 1.
pub mod Counts
use trakx.Common.{
  ℕ, ◌+◌, ◌-◌, ◌%◌, ◌^◌, List, Bool, true, false, Option, none, some, ◌==◌, if◌then◌else◌, length,
  [],
}
use trakx.Common.Assoc.{get, set, delete, weight}
use trakx.Storage.Types.{Addr, Addr-discrete}

abbrev pub IpStats : Type 0
IpStats = List (Addr × ℕ)

pub record Stats : Type 0 where
  pub hits : ℕ
  pub connects : ℕ
  pub announces : ℕ
  pub scrapes : ℕ
  pub seeds : ℕ
  pub leeches : ℕ
  pub ip_stats : IpStats
  pub server_errors : ℕ
  pub client_errors : ℕ

-- `Add(1)` and `Add(-1)`.
abbrev pub incr64 : ℕ → ℕ
incr64 n = (n + 1) % 2 ^ 64

abbrev pub decr64 : ℕ → ℕ
decr64 n = (n + (2 ^ 64 - 1)) % 2 ^ 64

-- A missing key reads as 0.
abbrev pub count : Addr → IpStats → ℕ
count ip m = weight (λ n. n) (get Addr-discrete ip m)

-- Under the build tag `fast` the methods on the map do nothing, and `Total` is -1.
module _ (fast : Bool) where
  unfoldable pub total : IpStats → ℕ
  total m = if fast then 2 ^ 64 - 1 else length m

  unfoldable pub delete_ip : Addr → IpStats → IpStats
  delete_ip ip m = if fast then m else delete Addr-discrete ip m

  unfoldable pub inc : Addr → IpStats → IpStats
  inc ip m = if fast then m else set Addr-discrete ip ((count ip m + 1) % 2 ^ 16) m

  unfoldable pub dec : Addr → IpStats → IpStats
  dec ip m = if fast then m else set Addr-discrete ip ((count ip m + (2 ^ 16 - 1)) % 2 ^ 16) m

  -- Decrements, and removes an address that comes to 0.
  unfoldable pub remove : Addr → IpStats → IpStats
  remove ip m =
      let m' = dec ip m in
      if fast then m else if count ip m' == 0 then delete Addr-discrete ip m' else m'

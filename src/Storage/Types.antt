-- ===== src/Storage/Types.antt =====
-- tracker/storage/types.go, and the `netip.Addr` of the standard library.
use trakx.Common.{
  ℕ, ◌+◌, ◌-◌, ◌%◌, ◌^◌, [], ◌∷◌, Bool, true, false, ltb, Option, none, some, length, ◌==◌, take,
  drop, if◌then◌else◌, ℕ_discrete,
}
use trakx.Common.Bytes.{Bytes}
use mathlib.Core.Bool.{decide}

-- `v6` holds the 16 bytes and the zone; an IPv4 address mapped to IPv6 is a `v6`. `invalid` is the
-- zero value.
pub data Addr : Type 0 where
  invalid : Addr
  v4 : Bytes → Addr
  v6 : Bytes → Bytes → Addr

unfoldable pub Bytes-discrete : Discrete Bytes
unfolding ℕ_discrete
Bytes-discrete = hlevel ℕ_discrete

unfoldable pub Addr-discrete : Discrete Addr
unfolding ℕ_discrete
Addr-discrete = hlevel ℕ_discrete

abbrev pub is4 : Addr → Bool
is4 (v4 b) = true
is4 _ = false

abbrev pub is6 : Addr → Bool
is6 (v6 b z) = true
is6 _ = false

abbrev pub as_slice : Addr → Bytes
as_slice invalid = []
as_slice (v4 b) = b
as_slice (v6 b z) = b

-- `netip.AddrFromSlice`: 4 or 16 bytes.
abbrev pub addr_from_slice : Bytes → Option Addr
addr_from_slice b =
    if length b == 4 then some (v4 b) else if length b == 16 then some (v6 b []) else none

-- `::ffff:0:0/96`
abbrev pub mapped_prefix : Bytes
mapped_prefix = 0 ∷ 0 ∷ 0 ∷ 0 ∷ 0 ∷ 0 ∷ 0 ∷ 0 ∷ 0 ∷ 0 ∷ 0xff ∷ 0xff ∷ []

unfoldable pub unmap : Addr → Addr
unfolding Bytes-discrete
unmap (v6 b z) =
    if decide (Bytes-discrete (take 12 b) mapped_prefix) then v4 (drop 12 b) else v6 b z
unmap a = a

-- `LastSeen` is an `int64` of seconds, as its bit pattern.
pub record Peer : Type 0 where
  pub complete : Bool
  pub ip : Addr
  pub port : ℕ
  pub last_seen : ℕ

-- `a > b` on `int64`s.
abbrev pub signed_gt : ℕ → ℕ → Bool
signed_gt a b = ltb ((b + 2 ^ 63) % 2 ^ 64) ((a + 2 ^ 63) % 2 ^ 64)

-- `a - b` on `int64`s.
abbrev pub sub64 : ℕ → ℕ → ℕ
sub64 a b = (a + 2 ^ 64 - b) % 2 ^ 64

-- ===== src/Udp/Protocol/Types.antt =====
-- tracker/udp/protocol/types.go, and the fixed-size arrays of tracker/storage/types.go.
-- An `int32` or `int64` is its bit pattern, a number below 2 ^ 32 or 2 ^ 64.
use trakx.Common.{ℕ, ◌<◌, ◌^◌, [], ◌∷◌}
use trakx.Common.Bytes.{Bytes}

abbrev pub IsU16 : ℕ → Type 0
IsU16 n = n < 2 ^ 16

abbrev pub IsU32 : ℕ → Type 0
IsU32 n = n < 2 ^ 32

abbrev pub IsU64 : ℕ → Type 0
IsU64 n = n < 2 ^ 64

-- -1 as an `int32`.
abbrev pub minus_one : ℕ
minus_one = 0xffff_ffff

abbrev pub event_none : ℕ
event_none = 0

abbrev pub event_completed : ℕ
event_completed = 1

abbrev pub event_started : ℕ
event_started = 2

abbrev pub event_stopped : ℕ
event_stopped = 3

abbrev pub action_connect : ℕ
action_connect = 0

abbrev pub action_announce : ℕ
action_announce = 1

abbrev pub action_scrape : ℕ
action_scrape = 2

abbrev pub action_error : ℕ
action_error = 3

abbrev pub action_heartbeat : ℕ
action_heartbeat = 4

abbrev pub heartbeat_request : Bytes
heartbeat_request =
    0 ∷ 0 ∷ 0 ∷ 0 ∷ 0 ∷ 0 ∷ 0 ∷ 0 ∷ 0 ∷ 0 ∷ 0 ∷ action_heartbeat ∷ 0 ∷ 0 ∷ 0 ∷ 0 ∷ []

abbrev pub heartbeat_ok : Bytes
heartbeat_ok = 0xff ∷ []

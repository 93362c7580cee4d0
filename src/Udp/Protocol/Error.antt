-- ===== src/Udp/Protocol/Error.antt =====
-- tracker/udp/protocol/error.go
use trakx.Common.{ℕ, ◌-◌, [], length, ltb, if◌then◌else◌}
use trakx.Common.Bytes.{Bytes, be}
use trakx.Common.Outcome.{Result, ok, panic, ◌>>=◌, read, read_be, write}

pub record ErrorResp : Type 0 where
  pub action : ℕ
  pub transaction_id : ℕ
  pub error_string : Bytes

unfoldable pub marshall : ErrorResp → Result Bytes
unfolding write
marshall e = do
  b1 ← write [] (be 4 e.action)
  b2 ← write b1 (be 4 e.transaction_id)
  write b2 e.error_string

-- The reads, with a string of `n` bytes.
unfoldable pub decode : ℕ → Bytes → Result ErrorResp
decode n b = do
  (action, b1) ← read_be 4 b
  (transaction_id, b2) ← read_be 4 b1
  (error_string, _) ← read n b2
  ok (record { action = action; transaction_id = transaction_id; error_string = error_string })

-- `make` panics at a negative length.
unfoldable pub unmarshall : Bytes → Result ErrorResp
unmarshall b = if ltb (length b) 8 then panic else decode (length b - 8) b

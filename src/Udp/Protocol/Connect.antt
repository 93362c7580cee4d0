-- ===== src/Udp/Protocol/Connect.antt =====
-- tracker/udp/protocol/connect.go. `binary.Read` of a struct reads its whole size, then decodes.
use trakx.Common.{ℕ, ◌++◌, []}
use trakx.Common.Bytes.{Bytes, be}
use trakx.Common.Outcome.{Result, ok, ◌>>=◌, read, read_be, write}

abbrev pub udp_tracker_magic : ℕ
udp_tracker_magic = 0x41727101980

pub record Connect : Type 0 where
  pub protocol_id : ℕ
  pub action : ℕ
  pub transaction_id : ℕ

pub record ConnectResp : Type 0 where
  pub action : ℕ
  pub transaction_id : ℕ
  pub connection_id : ℕ

unfoldable pub marshall : Connect → Result Bytes
unfolding write
marshall c = write [] (be 8 c.protocol_id ++ (be 4 c.action ++ be 4 c.transaction_id))

unfoldable pub unmarshall : Bytes → Result Connect
unmarshall data_bytes = do
  (b, _) ← read 16 data_bytes
  (protocol_id, b1) ← read_be 8 b
  (action, b2) ← read_be 4 b1
  (transaction_id, _) ← read_be 4 b2
  ok (record { protocol_id = protocol_id; action = action; transaction_id = transaction_id })

unfoldable pub marshall_resp : ConnectResp → Result Bytes
unfolding write
marshall_resp r = write [] (be 4 r.action ++ (be 4 r.transaction_id ++ be 8 r.connection_id))

unfoldable pub unmarshall_resp : Bytes → Result ConnectResp
unmarshall_resp data_bytes = do
  (b, _) ← read 16 data_bytes
  (action, b1) ← read_be 4 b
  (transaction_id, b2) ← read_be 4 b1
  (connection_id, _) ← read_be 8 b2
  ok (record { action = action; transaction_id = transaction_id; connection_id = connection_id })

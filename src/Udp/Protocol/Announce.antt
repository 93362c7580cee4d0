-- ===== src/Udp/Protocol/Announce.antt =====
-- tracker/udp/protocol/announce.go
use trakx.Common.{ℕ, ◌++◌, ◌-◌, [], length, ltb, if◌then◌else◌}
use trakx.Common.Bytes.{Bytes, be}
use trakx.Common.Outcome.{Result, ok, err, panic, ◌>>=◌, read, read_be, write}

pub record Announce : Type 0 where
  pub connection_id : ℕ
  pub action : ℕ
  pub transaction_id : ℕ
  pub info_hash : Bytes
  pub peer_id : Bytes
  pub downloaded : ℕ
  pub left : ℕ
  pub uploaded : ℕ
  pub event : ℕ
  pub ip : ℕ
  pub key : ℕ
  pub num_want : ℕ
  pub port : ℕ

unfoldable pub marshall : Announce → Result Bytes
unfolding write
marshall a = write [] (
    be 8 a.connection_id
    ++ (be 4 a.action
        ++ (be 4 a.transaction_id
            ++ (a.info_hash
                ++ (a.peer_id
                    ++ (be 8 a.downloaded
                        ++ (be 8 a.left
                            ++ (be 8 a.uploaded
                                ++ (be 4 a.event
                                    ++ (be 4 a.ip
                                        ++ (be 4 a.key
                                            ++ (be 4 a.num_want ++ be 2 a.port))))))))))))

-- The struct of 98 bytes, field by field.
unfoldable pub decode : Bytes → Result Announce
decode b = do
  (connection_id, b1) ← read_be 8 b
  (action, b2) ← read_be 4 b1
  (transaction_id, b3) ← read_be 4 b2
  (info_hash, b4) ← read 20 b3
  (peer_id, b5) ← read 20 b4
  (downloaded, b6) ← read_be 8 b5
  (left, b7) ← read_be 8 b6
  (uploaded, b8) ← read_be 8 b7
  (event, b9) ← read_be 4 b8
  (ip, b10) ← read_be 4 b9
  (key, b11) ← read_be 4 b10
  (num_want, b12) ← read_be 4 b11
  (port, _) ← read_be 2 b12
  ok (record {
    connection_id = connection_id;
    action = action;
    transaction_id = transaction_id;
    info_hash = info_hash;
    peer_id = peer_id;
    downloaded = downloaded;
    left = left;
    uploaded = uploaded;
    event = event;
    ip = ip;
    key = key;
    num_want = num_want;
    port = port;
  })

-- The receiver is overwritten if the read succeeds. A failed read is wrapped and dropped, so the
-- error that is returned is always nil.
unfoldable pub unmarshall : Announce → Bytes → Result Announce
unmarshall a data_bytes = elim (read 98 data_bytes >>= λ r. decode r.0) [
  | ok b ↦ ok b
  | err e ↦ ok a
  | panic ↦ panic
]

pub record AnnounceResp : Type 0 where
  pub action : ℕ
  pub transaction_id : ℕ
  pub interval : ℕ
  pub leechers : ℕ
  pub seeders : ℕ
  pub peers : Bytes

unfoldable pub marshall_resp : AnnounceResp → Result Bytes
unfolding write
marshall_resp r = do
  b1 ← write [] (be 4 r.action)
  b2 ← write b1 (be 4 r.transaction_id)
  b3 ← write b2 (be 4 r.interval)
  b4 ← write b3 (be 4 r.leechers)
  b5 ← write b4 (be 4 r.seeders)
  write b5 r.peers

-- The reads, with `n` bytes of peers.
unfoldable pub decode_resp : ℕ → Bytes → Result AnnounceResp
decode_resp n b = do
  (action, b1) ← read_be 4 b
  (transaction_id, b2) ← read_be 4 b1
  (interval, b3) ← read_be 4 b2
  (leechers, b4) ← read_be 4 b3
  (seeders, b5) ← read_be 4 b4
  (peers, _) ← read n b5
  ok (record {
    action = action;
    transaction_id = transaction_id;
    interval = interval;
    leechers = leechers;
    seeders = seeders;
    peers = peers;
  })

-- `make` panics at a negative length.
unfoldable pub unmarshall_resp : Bytes → Result AnnounceResp
unmarshall_resp b = if ltb (length b) 20 then panic else decode_resp (length b - 20) b

-- ===== src/Udp/Protocol/Scrape.antt =====
-- tracker/udp/protocol/scrape.go
use trakx.Common.{ℕ, zero, suc, ◌+◌, ◌-◌, ◌*◌, ◌/◌, List, [], ◌∷◌, ◌++◌, length, replicate}
use trakx.Common.Bytes.{Bytes, be}
use trakx.Common.Outcome.{Result, ok, ◌>>=◌, read, read_be, write}

pub record Scrape : Type 0 where
  pub connection_id : ℕ
  pub action : ℕ
  pub transaction_id : ℕ
  pub info_hashes : List Bytes

-- `n` arrays of 20 bytes each, cut from the front.
unfoldable pub decode_hashes : ℕ → Bytes → Result (List Bytes)
decode_hashes zero b = ok []
decode_hashes (suc n) b = do
  (hash, rest) ← read 20 b
  hashes ← decode_hashes n rest
  ok (hash ∷ hashes)

-- The reads, with `count` hashes.
unfoldable pub decode : ℕ → Bytes → Result Scrape
decode count b = do
  (connection_id, b1) ← read_be 8 b
  (action, b2) ← read_be 4 b1
  (transaction_id, b3) ← read_be 4 b2
  (hash_bytes, _) ← read (20 * count) b3
  info_hashes ← decode_hashes count hash_bytes
  ok (record {
    connection_id = connection_id;
    action = action;
    transaction_id = transaction_id;
    info_hashes = info_hashes;
  })

-- Below 16 bytes the count of hashes is 0: Go's `/` rounds towards 0. The reads then fail.
unfoldable pub unmarshall : Bytes → Result Scrape
unmarshall b = decode ((length b - 16) / 20) b

pub record ScrapeInfo : Type 0 where
  pub complete : ℕ
  pub incomplete : ℕ
  pub downloaded : ℕ

pub record ScrapeResp : Type 0 where
  pub action : ℕ
  pub transaction_id : ℕ
  pub info : List ScrapeInfo

unfoldable pub info_bytes : List ScrapeInfo → Bytes
info_bytes [] = []
info_bytes (i ∷ is) = be 4 i.complete ++ (be 4 i.incomplete ++ (be 4 i.downloaded ++ info_bytes is))

-- `bytes.NewBuffer(make([]byte, n))` is a buffer that already holds `n` zero bytes: the writes go
-- behind them.
unfoldable pub marshall_resp : ScrapeResp → Result Bytes
unfolding write info_bytes
marshall_resp r = do
  let buff = replicate (8 + length r.info * 12) 0
  b1 ← write buff (be 4 r.action)
  b2 ← write b1 (be 4 r.transaction_id)
  write b2 (info_bytes r.info)

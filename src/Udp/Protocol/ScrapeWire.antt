-- ===== src/Udp/Protocol/ScrapeWire.antt =====
-- The scrape request as it is read, and the scrape response as it is written.
use trakx.Common.{
  ◌+◌, ◌-◌, ◌*◌, ◌/◌, ◌<◌, ◌≡◌, refl, ap, ◌∙◌, List, [], ◌∷◌, ◌++◌, length, length-append, All,
  arith, append_assoc, replicate, ℕ, suc, map,
}
use mathlib.Core.List.{flatten}
use trakx.Common.Bytes.{Bytes, be, length-be}
use trakx.Common.Outcome.{ok, read-append, read_be-be}
use trakx.Udp.Protocol.Types.{IsU32, IsU64}
use trakx.Udp.Protocol.Scrape.{
  Scrape, ScrapeInfo, ScrapeResp, decode, decode_hashes, unmarshall, info_bytes, marshall_resp,
}

abbrev pub IsHash : Bytes → Type 0
IsHash h = length h ≡ 20

length-flatten : (hs : List Bytes) → All IsHash hs → length (flatten hs) ≡ 20 * length hs
unfolding flatten
length-flatten [] h = refl
length-flatten (x ∷ hs) (h, k) = length-append x (flatten hs) ∙ omega (arith, length-flatten hs k)

decode_hashes-flatten :
    (hs : List Bytes) → All IsHash hs → decode_hashes (length hs) (flatten hs) ≡ ok hs
unfolding decode_hashes flatten
decode_hashes-flatten [] h = refl
decode_hashes-flatten (x ∷ hs) (h, k) =
    rw (read-append 20 x (flatten hs) h) (rw (decode_hashes-flatten hs k))

-- A scrape request, field after field.
pub request : Scrape → Bytes → Bytes
request s rest =
    be 8 s.connection_id
    ++ (be 4 s.action ++ (be 4 s.transaction_id ++ (flatten s.info_hashes ++ rest)))

length-request :
    (s : Scrape) (rest : Bytes)
    → All IsHash s.info_hashes
    → length (request s rest) ≡ 16 + 20 * length s.info_hashes + length rest
unfolding request
length-request s rest h =
    simp (length-append, length-be) (omega (arith, length-flatten s.info_hashes h))

decode-request :
    (s : Scrape) (rest : Bytes)
    → IsU64 s.connection_id
    → IsU32 s.action
    → IsU32 s.transaction_id
    → All IsHash s.info_hashes
    → decode (length s.info_hashes) (request s rest) ≡ ok s
unfolding decode request
decode-request s rest h1 h2 h3 hs =
    simp (read_be-be, h1, h2, h3)
      (rw
        (read-append (20 * length s.info_hashes) (flatten s.info_hashes) rest
          (length-flatten s.info_hashes hs))
        (rw (decode_hashes-flatten s.info_hashes hs)))

-- A scrape request of well-formed fields is read back: the connection id, the action, the
-- transaction id and every hash in order; fewer than 20 bytes behind the last hash are ignored.
pub unmarshall-request :
    (s : Scrape) (rest : Bytes)
    → IsU64 s.connection_id
    → IsU32 s.action
    → IsU32 s.transaction_id
    → All IsHash s.info_hashes
    → length rest < 20
    → unmarshall (request s rest) ≡ ok s
unfolding unmarshall
unmarshall-request s rest h1 h2 h3 hs hr =
    let count : (length (request s rest) - 16) / 20 ≡ length s.info_hashes =
      omega (arith, length-request s rest hs) in
    ap (λ n. decode n (request s rest)) count ∙ decode-request s rest h1 h2 h3 hs

-- The message of BEP 15: the action, the transaction id, and for each hash the seeders, the peers
-- that have completed a download, and the leechers.
pub record Counts : Type 0 where
  pub seeders : ℕ
  pub completed : ℕ
  pub leechers : ℕ

abbrev pub counts_bytes : Counts → Bytes
counts_bytes c = be 4 c.seeders ++ (be 4 c.completed ++ be 4 c.leechers)

pub response : ℕ → ℕ → List Counts → Bytes
response action transaction_id counts =
    be 4 action ++ (be 4 transaction_id ++ flatten (map counts_bytes counts))

-- The counts of a hash with the leechers and the downloads in each other's place.
abbrev pub exchanged : ScrapeInfo → Counts
exchanged i = record { seeders = i.complete; completed = i.incomplete; leechers = i.downloaded }

length-counts : (cs : List Counts) → length (flatten (map counts_bytes cs)) ≡ 12 * length cs
unfolding flatten
length-counts [] = refl
length-counts (c ∷ cs) = simp (length-append, length-be) (omega (arith, length-counts cs))

info_bytes-exchanged :
    (is : List ScrapeInfo) → info_bytes is ≡ flatten (map counts_bytes (map exchanged is))
unfolding info_bytes flatten
info_bytes-exchanged [] = refl
info_bytes-exchanged (i ∷ is) = simp append_assoc (rw (info_bytes-exchanged is) refl)

length-exchanged : (is : List ScrapeInfo) → length (map exchanged is) ≡ length is
length-exchanged [] = refl
length-exchanged (i ∷ is) = ap suc (length-exchanged is)

-- The datagram that answers a scrape is as many zero bytes as its message is long, and then a message
-- in the layout of BEP 15 in which the number of incomplete peers stands where the completed downloads
-- belong, and the number of downloads where the leechers belong.
pub marshall_resp_zeros :
    (r : ScrapeResp)
    → let sent = response r.action r.transaction_id (map exchanged r.info) in
      marshall_resp r ≡ ok (replicate (length sent) 0 ++ sent)
unfolding marshall_resp response
marshall_resp_zeros r =
    let len : 8 + length r.info * 12
        ≡ length (
            be 4 r.action
            ++ (be 4 r.transaction_id ++ flatten (map counts_bytes (map exchanged r.info)))) =
      simp (length-append, length-be)
        (omega (arith, length-counts (map exchanged r.info), length-exchanged r.info)) in
    rw len (rw (info_bytes-exchanged r.info) (simp append_assoc))

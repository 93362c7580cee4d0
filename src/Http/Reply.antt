-- ===== src/Http/Reply.antt =====
-- tracker/http/error.go, wrappers.go, consts.go, and the header of fakeresp.go: what is written to
-- the connection. A dictionary comes from its pool, which resets it when it is put back.
use trakx.Common.{List, [], ◌∷◌, ◌++◌}
use trakx.Common.Bytes.{Bytes, codes}
use trakx.Storage.Memory.{Store}
use trakx.Stats.{Stats, incr64}
use trakx.Bencoding.Dictionary.{Dictionary, string, get_bytes, reset}

abbrev pub http_success : Bytes
http_success = codes "HTTP/1.1 200\r\n\r\n"

abbrev pub stats_header : Bytes
stats_header = codes "HTTP/1.1 200\r\nContent-Type: application/json; charset=utf-8\r\n\r\n"

abbrev pub redir : Bytes → Bytes
redir url = codes "HTTP/1.1 303\r\nLocation: " ++ (url ++ codes "\r\n\r\n")

abbrev pub write_data : Bytes → Bytes
write_data content = codes "HTTP/1.1 200\r\n\r\n" ++ content

abbrev pub write_status : Bytes → Bytes
write_status status = codes "HTTP/1.1 " ++ (status ++ codes "\r\n\r\n")

abbrev pub count_stats : (Stats → Stats) → Store → Store
count_stats f s = record s { stats = f s.stats }

abbrev pub failure_key : Bytes
failure_key = codes "failure reason"

-- `used` is a dictionary of the pool as it was put back.
unfoldable pub write_err : Dictionary → Bytes → Bytes
write_err used msg = http_success ++ (get_bytes (string (reset used) failure_key msg)).1

unfoldable pub client_error : Dictionary → Bytes → Store → Store × List Bytes
client_error used msg s = (
  count_stats (λ st. record st { client_errors = incr64 st.client_errors }) s,
  write_err used msg ∷ [],
)

unfoldable pub internal_error : Dictionary → Store → Store × List Bytes
internal_error used s = (
  count_stats (λ st. record st { server_errors = incr64 st.server_errors }) s,
  write_err used (codes "internal server error") ∷ [],
)

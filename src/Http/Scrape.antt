-- ===== src/Http/Scrape.antt =====
-- tracker/http/scrape.go. A parameter that is nil is passed over.
use trakx.Common.{List, [], ◌∷◌, ◌++◌, Option, none, some, length, ◌==◌, if◌then◌else◌}
use trakx.Common.Bytes.{Bytes, codes}
use trakx.Storage.Memory.{Store, hash_stats}
use trakx.Stats.{incr64}
use trakx.Bencoding.Decimal.{pos}
use trakx.Bencoding.Dictionary.{
  Dictionary, int64, start_dictionary, start_dictionary_bytes, end_dictionary, get_bytes, reset,
}
use trakx.Http.Reply.{http_success, count_stats, client_error}

-- The loop; `none` if an infohash has not 20 bytes.
unfoldable pub scrape_files : List (Option Bytes) → Store → Dictionary → Option Dictionary
scrape_files [] s d = some d
scrape_files (none ∷ ps) s d = scrape_files ps s d
scrape_files (some infohash ∷ ps) s d =
    let (complete, incomplete) = hash_stats infohash s in
    let d1 = start_dictionary_bytes d infohash in
    let d2 =
      int64 (int64 d1 (codes "complete") (pos complete)) (codes "incomplete") (pos incomplete) in
    let rest = scrape_files ps s (end_dictionary d2) in if length infohash == 20 then rest else none

-- The answer, from the end of the loop.
unfoldable pub scrape_reply : Dictionary → Store → Option Dictionary → Store × List Bytes
scrape_reply used_error s none = client_error used_error (codes "invalid infohash") s
scrape_reply used_error s (some d) = (s, (http_success ++ (get_bytes (end_dictionary d)).1) ∷ [])

-- `used` and `used_error` are dictionaries of the pool as they were put back.
unfoldable pub scrape : Dictionary → Dictionary → List (Option Bytes) → Store → Store × List Bytes
scrape used used_error infohashes s0 =
    let s = count_stats (λ st. record st { scrapes = incr64 st.scrapes }) s0 in
    scrape_reply used_error s
      (scrape_files infohashes s (start_dictionary (reset used) (codes "files")))

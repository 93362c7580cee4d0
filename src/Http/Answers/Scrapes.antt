-- ===== src/Http/Answers/Scrapes.antt =====
-- The answer to a scrape of tracker/http/scrape.go.
use trakx.Common.{
  ◌≡◌, refl, ap, ◌∙◌, true, List, [], ◌∷◌, ◌++◌, Option, none, some, length, All, ◌==◌, arith,
}
use trakx.Common.Bytes.{Bytes, codes}
use trakx.Storage.Memory.{Store, hash_stats}
use trakx.Stats.{Stats, incr64}
use trakx.Bencoding.Decimal.{pos}
use trakx.Bencoding.Dictionary.{Dictionary, get_bytes, reset, start_dictionary, end_dictionary}
use trakx.Bencoding.Value.{Value, Fields}
use trakx.Bencoding.Writer.{Call, Calls, done, run, fields}
use trakx.Http.Reply.{http_success, count_stats}
use trakx.Http.Scrape.{scrape_files, scrape_reply, scrape}
use trakx.Http.Answers.{answer, written_answer}

-- The infohashes that are given.
unfoldable pub given : List (Option Bytes) → List Bytes
given [] = []
given (none ∷ ps) = given ps
given (some h ∷ ps) = h ∷ given ps

-- What a scrape tells of each hash.
unfoldable pub file_fields : List Bytes → Store → Fields
file_fields [] s = Fields.end
file_fields (h ∷ hs) s =
    let (complete, incomplete) = hash_stats h s in
    Fields.field h
      (Value.dict (
        Fields.field (codes "complete") (Value.int (pos complete))
          (Fields.field (codes "incomplete") (Value.int (pos incomplete)) Fields.end)))
      (file_fields hs s)

file_calls : List Bytes → Store → Calls
file_calls [] s = done
file_calls (h ∷ hs) s =
    let (complete, incomplete) = hash_stats h s in
    Calls.then
      (Call.nested_bytes h (
        Calls.then (Call.int64 (codes "complete") (pos complete))
          (Calls.then (Call.int64 (codes "incomplete") (pos incomplete)) done)))
      (file_calls hs s)

fields-file_calls : (hs : List Bytes) (s : Store) → fields (file_calls hs s) ≡ file_fields hs s
unfolding fields file_calls file_fields
fields-file_calls [] s = refl
fields-file_calls (h ∷ hs) s =
    let (complete, incomplete) = hash_stats h s in
    ap
      (Fields.field h (
        Value.dict (
          Fields.field (codes "complete") (Value.int (pos complete))
            (Fields.field (codes "incomplete") (Value.int (pos incomplete)) Fields.end))))
      (fields-file_calls hs s)

file_fields_counted :
    (hs : List Bytes) (f : Stats → Stats) (s : Store)
    → file_fields hs (count_stats f s) ≡ file_fields hs s
unfolding file_fields hash_stats
file_fields_counted [] f s = refl
file_fields_counted (h ∷ hs) f s = rw (file_fields_counted hs f s) refl

scrape_files_lem :
    (ps : List (Option Bytes)) (s : Store) (d : Dictionary)
    → All (λ h. length h ≡ 20) (given ps)
    → scrape_files ps s d ≡ some (run d (file_calls (given ps) s))
unfolding scrape_files given file_calls run
scrape_files_lem [] s d h = refl
scrape_files_lem (none ∷ ps) s d h = scrape_files_lem ps s d h
scrape_files_lem (some i ∷ ps) s d (h, hs) =
    let whole : (length i == 20) ≡ true = ground (arith, h) in rw whole (scrape_files_lem ps s _ hs)

nested_answer :
    (used : Dictionary) (key : Bytes) (cs : Calls)
    → http_success ++ (get_bytes (end_dictionary (run (start_dictionary (reset used) key) cs))).1
      ≡ answer (Fields.field key (Value.dict (fields cs)) Fields.end)
nested_answer used key cs =
    unfold run fields in written_answer used (Calls.then (Call.nested key cs) done)

scrape_reply_nested :
    (used used_error : Dictionary) (s : Store) (cs : Calls)
    → scrape_reply used_error s (some (run (start_dictionary (reset used) (codes "files")) cs))
      ≡ (s, answer (Fields.field (codes "files") (Value.dict (fields cs)) Fields.end) ∷ [])
unfolding scrape_reply
scrape_reply_nested used used_error s cs =
    ap (λ b. (s, b ∷ [])) (nested_answer used (codes "files") cs)

-- A scrape of infohashes of 20 bytes is answered with the bencoding of the counts of each, in the
-- order of the request, a hash that is not known with zeros.
pub scrape-answer :
    (used used_error : Dictionary) (ps : List (Option Bytes)) (s : Store)
    → All (λ h. length h ≡ 20) (given ps)
    → scrape used used_error ps s ≡ (
      count_stats (λ st. record st { scrapes = incr64 st.scrapes }) s,
      answer (Fields.field (codes "files") (Value.dict (file_fields (given ps) s)) Fields.end) ∷ [],
    )
unfolding scrape scrape_reply
scrape-answer used used_error ps s h =
    let counted = count_stats (λ st. record st { scrapes = incr64 st.scrapes }) s in
    let cs = file_calls (given ps) counted in
    ap (scrape_reply used_error counted)
      (scrape_files_lem ps counted (start_dictionary (reset used) (codes "files")) h)
    ∙ scrape_reply_nested used used_error counted cs
    ∙ ap (λ fs. (counted, answer (Fields.field (codes "files") (Value.dict fs) Fields.end) ∷ []))
        (fields-file_calls (given ps) counted
          ∙ file_fields_counted (given ps) (λ st. record st { scrapes = incr64 st.scrapes }) s)

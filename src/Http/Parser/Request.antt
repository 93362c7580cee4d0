-- ===== src/Http/Parser/Request.antt =====
-- A GET request with a query is parsed.
use trakx.Common.{
  ℕ, ◌+◌, ◌-◌, ◌≤◌, ◌≡◌, ◌≢◌, refl, sym, ap, ◌∙◌, true, false, List, [], ◌∷◌, ◌++◌, Option, none,
  some, length, length-append, replicate, map, take-append, drop-append, append_assoc, ltb,
  All-append, arith, le→ltb, le→leb, leb,
}
use trakx.Common.Bytes.{Bytes, codes}
use trakx.Common.Outcome.{ok}
use trakx.Common.Search.{has_prefix, index, IsFree, index_lem}
use mathlib.Core.Option
use trakx.Http.Parser.{
  maxparams, slice, split_params, unescape_all, parse_query, parse_params, path_start, query_start,
  parse_request, parse_url, parse,
}
use trakx.Http.Parser.Params.{
  IsAbsent, join, IsQuery, decode_all, split_params-join, unescape_all-decode_all,
}

-- A request as a client writes it, and whatever bytes follow it in the buffer.
abbrev pub request : Bytes → Bytes → Bytes → Bytes
request path query rest =
    codes "GET " ++ (path ++ (codes "?" ++ (query ++ (codes " HTTP/" ++ rest))))

-- Where a text is found whose first byte does not stand before it.
pub IsFree-of_absent :
    (c : ℕ) (cs front after : Bytes) → IsAbsent c front → IsFree (c ∷ cs) front after
unfolding has_prefix
IsFree-of_absent c cs [] after h = tt
IsFree-of_absent c cs (b ∷ front) after (h, hs) =
    (ground arith, IsFree-of_absent c cs front after hs)

abbrev IsUrl : Bytes → Type 0
IsUrl bs = IsAbsent b' ' bs × IsAbsent b'?' bs

slice_lem :
    (front mid back : Bytes) (a b : ℕ)
    → a ≡ length front
    → b ≡ length front + length mid
    → slice (front ++ (mid ++ back)) a b ≡ ok mid
unfolding slice
slice_lem front mid back a b ea eb =
    let len : length front + length mid - length front ≡ length mid = omega arith in
    let order : leb (length front) (length front + length mid) ≡ true =
      le→leb (length front) (length front + length mid) (omega arith) in
    let within : leb (length front + length mid) (length (front ++ (mid ++ back))) ≡ true =
      le→leb (length front + length mid) (length (front ++ (mid ++ back)))
        (omega (arith, length-append front (mid ++ back), length-append mid back)) in
    rw (ea, eb, order, within, drop-append front (mid ++ back), len) (ap ok (take-append mid back))

parse_query_lem :
    (bs : Bytes) (pathstart pathend url_end : ℕ) (method : Bytes) (params : List (Option Bytes))
    (path query : Bytes)
    → pathstart ≤ pathend
    → slice bs (pathend + 1) url_end ≡ ok query
    → unescape_all (split_params query [] []) ≡ some params
    → slice bs pathstart pathend ≡ ok path
    → parse_query bs pathstart pathend url_end method
      ≡ ok (
        record {
          path = path;
          params = params ++ replicate (maxparams - length params) none;
          method = method;
        },
        none,
      )
unfolding parse_query parse_params
parse_query_lem bs pathstart pathend url_end method params path query h q e p =
    let done : parse_params bs pathstart pathend method query
        ≡ ok (
          record {
            path = path;
            params = params ++ replicate (maxparams - length params) none;
            method = method;
          },
          none,
        ) =
      rw (e, parse_params, p) in
    rw (le→ltb pathend pathstart h, parse_query, q) done

module _ (path query rest : Bytes) (p : IsUrl (b'/' ∷ path)) (q : IsAbsent b' ' query) where
  data_bytes : Bytes
  data_bytes = request (b'/' ∷ path) query rest

  get_found : index (codes "GET /") data_bytes ≡ some 0
  unfolding data_bytes
  get_found =
      index_lem (codes "GET /") [] (path ++ (codes "?" ++ (query ++ (codes " HTTP/" ++ rest)))) tt

  method_found : index (codes " /") data_bytes ≡ some 3
  unfolding data_bytes has_prefix
  method_found =
      index_lem (codes " /") (codes "GET")
        (path ++ (codes "?" ++ (query ++ (codes " HTTP/" ++ rest)))) (refl, (refl, (refl, tt)))

  query_found : index (codes "?") data_bytes ≡ some (5 + length path)
  unfolding data_bytes
  query_found =
      index_lem (codes "?") (codes "GET /" ++ path) (query ++ (codes " HTTP/" ++ rest)) (
        IsFree-of_absent b'?' [] (codes "GET /" ++ path)
          (codes "?" ++ (query ++ (codes " HTTP/" ++ rest)))
          (omega arith, (omega arith, (omega arith, (omega arith, (omega arith, p.1.1))))))
      ∙ ap some (omega arith)

  end_found : index (codes " HTTP/") data_bytes ≡ some (6 + length path + length query)
  unfolding data_bytes has_prefix
  end_found =
      let front = path ++ (b'?' ∷ query) in
      let tail = codes " HTTP/" ++ rest in
      ap (λ x. index (codes " HTTP/") (codes "GET /" ++ x))
        (sym (append_assoc path (b'?' ∷ query) tail))
      ∙ index_lem (codes " HTTP/") (codes "GET /" ++ front) rest (
        refl,
        (
          refl,
          (
            refl,
            (
              refl,
              (
                refl,
                IsFree-of_absent b' ' (codes "HTTP/") front tail
                    (All-append (λ b. b ≢ b' ') path (b'?' ∷ query) p.0.1 (omega arith, q)),
              ),
            ),
          ),
        ),
      )
      ∙ ap some (omega (arith, length-append path (b'?' ∷ query)))

  path_slice : slice data_bytes 4 (5 + length path) ≡ ok (b'/' ∷ path)
  unfolding data_bytes
  path_slice =
      slice_lem (codes "GET ") (b'/' ∷ path) (codes "?" ++ (query ++ (codes " HTTP/" ++ rest))) 4
        (5 + length path) refl (omega arith)

  query_slice : slice data_bytes (5 + length path + 1) (6 + length path + length query) ≡ ok query
  unfolding data_bytes
  query_slice =
      ap (λ x. slice (codes "GET /" ++ x) (5 + length path + 1) (6 + length path + length query))
        (sym (append_assoc path (codes "?") (query ++ (codes " HTTP/" ++ rest))))
      ∙ slice_lem (codes "GET /" ++ (path ++ codes "?")) query (codes " HTTP/" ++ rest) _ _
          (omega (arith, length-append path (codes "?")))
          (omega (arith, length-append path (codes "?")))

  method_slice : slice data_bytes 0 3 ≡ ok (codes "GET")
  unfolding data_bytes
  method_slice =
      slice_lem [] (codes "GET")
        (codes " " ++ (b'/' ∷ path ++ (codes "?" ++ (query ++ (codes " HTTP/" ++ rest))))) 0 3 refl
        refl

  query_start_lem : query_start data_bytes (6 + length path + length query) ≡ some (5 + length path)
  unfolding query_start
  query_start_lem =
      let before : ltb (5 + length path) (6 + length path + length query) ≡ true = ground arith in
      rw (query_found, query_start) (rw before refl)

  parse_url_lem :
      parse_url data_bytes (codes "GET")
      ≡ parse_query data_bytes 4 (5 + length path) (6 + length path + length query) (codes "GET")
  unfolding parse_url
  parse_url_lem =
      let start : path_start data_bytes ≡ 4 = unfold path_start in rw (get_found, path_start) in
      let long : ltb (6 + length path + length query) 5 ≡ false = ground arith in
      let behind : ltb (6 + length path + length query) 4 ≡ false = ground arith in
      rw (end_found, parse_url) (rw (long, start, behind, query_start_lem) (rw start refl))

  parse_request_lem :
      parse_request data_bytes
      ≡ parse_query data_bytes 4 (5 + length path) (6 + length path + length query) (codes "GET")
  unfolding parse_request
  parse_request_lem = rw (method_found, parse_request) (rw method_slice parse_url_lem)

  parse-data_bytes :
      (base64 : Bytes → Option Bytes) (size : ℕ)
      → parse base64 data_bytes size ≡ parse_request data_bytes
  unfolding parse has_prefix data_bytes
  parse-data_bytes base64 size = refl

-- A GET request whose path and query are those of a URL is parsed into the path and the parameters,
-- each decoded, in their order, when there are at most 45, the last is not empty, and no escape is
-- cut off. Whatever follows in the buffer does not matter.
pub parse-request :
    (base64 : Bytes → Option Bytes) (size : ℕ) (path rest : Bytes) (params : List Bytes)
    {decoded : List Bytes}
    → IsUrl (b'/' ∷ path)
    → IsAbsent b' ' (join params)
    → IsQuery params
    → length params ≤ maxparams
    → decode_all params ≡ some decoded
    → parse base64 (request (b'/' ∷ path) (join params) rest) size
      ≡ ok (
        record {
          path = b'/' ∷ path;
          params = map some decoded ++ replicate (maxparams - length (map some decoded)) none;
          method = codes "GET";
        },
        none,
      )
unfolding data_bytes
parse-request base64 size path rest params {decoded} u w q l d =
    let req = data_bytes path (join params) rest u w in
    let params_split : split_params (join params) [] [] ≡ map some params =
      split_params-join params [] q (omega arith) in
    let all : unescape_all (map some params) ≡ some (map some decoded) =
      unescape_all-decode_all params ∙ ap (Option.map (map some)) d in
    parse-data_bytes path (join params) rest u w base64 size
    ∙ parse_request_lem path (join params) rest u w
    ∙ parse_query_lem req 4 (5 + length path) (6 + length path + length (join params)) (codes "GET")
        (map some decoded) (b'/' ∷ path) (join params) (omega arith)
        (query_slice path (join params) rest u w) (ap unescape_all params_split ∙ all)
        (path_slice path (join params) rest u w)

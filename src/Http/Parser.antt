-- ===== src/Http/Parser.antt =====
-- `parse` of tracker/http/parser.go. `data` is the whole buffer of the connection, of which the
-- first `size` bytes were read; `base64` is `StdEncoding.Decode`, with `none` for its error.
pub mod Params
pub mod Request
pub mod Total
use trakx.Common.{
  ℕ, ◌+◌, ◌-◌, Bool, true, false, ◌&&◌, List, [], ◌∷◌, ◌++◌, Option, none, some, length, take, drop,
  replicate, map, ltb, leb, ◌==◌, if◌then◌else◌,
}
use trakx.Common.Bytes.{Bytes, codes}
use trakx.Common.Outcome.{Result, ok, panic, ◌>>=◌}
use trakx.Common.Search.{has_prefix, index}
use trakx.Http.Unescape.{unescape_fast}

abbrev pub maxparams : ℕ
maxparams = 45

-- `Params` has `maxparams` slices, `none` for nil.
pub record Parsed : Type 0 where
  pub path : Bytes
  pub params : List (Option Bytes)
  pub method : Bytes

pub data ParseError : Type 0 where
  invalid_parse bad_base64 : ParseError

abbrev pub zero_parsed : Parsed
zero_parsed = record { path = []; params = replicate maxparams none; method = [] }

abbrev pub invalid : Parsed × Option ParseError
invalid = (zero_parsed, some invalid_parse)

-- `data[a:b]`, which panics when the bounds are out of order or behind the bytes.
unfoldable pub slice : Bytes → ℕ → ℕ → Result Bytes
slice data_bytes a b =
    if leb a b && leb b (length data_bytes) then ok (take (b - a) (drop a data_bytes)) else panic

-- The loop over `paramsBytes`, on the bytes from `i`: `segment` is `paramsBytes[pos:i]`, and
-- `filled` is `Params[:pIndex]`. The result is `Params[:pIndex+1]` at its end, after the step back
-- if all are filled. A last parameter that is empty was never set, and is nil.
unfoldable pub split_params : Bytes → Bytes → List (Option Bytes) → List (Option Bytes)
split_params [] segment filled = filled ++ (none ∷ [])
split_params (c ∷ cs) segment filled = elim (c == b'&') [
  | true ↦
      let filled' = filled ++ (some segment ∷ []) in
      elim (length filled' == maxparams) [ true ↦ filled' | false ↦ split_params cs [] filled' ]
  | false ↦ elim cs [
    | [] ↦ filled ++ (some (segment ++ (c ∷ [])) ∷ [])
    | _ ∷ _ ↦ split_params cs (segment ++ (c ∷ [])) filled
  ]
]

-- Every parameter is unescaped; a nil among the results is an invalid request.
unfoldable pub unescape_all : List (Option Bytes) → Option (List (Option Bytes))
unescape_all [] = some []
unescape_all (p ∷ ps) = elim (unescape_fast p) [
  | none ↦ none
  | some bs ↦ elim (unescape_all ps) [ none ↦ none | some qs ↦ some (some bs ∷ qs) ]
]

-- The parameters and the path of a request with a query.
unfoldable pub parse_params : Bytes → ℕ → ℕ → Bytes → Bytes → Result (Parsed × Option ParseError)
parse_params data_bytes pathstart pathend method params_bytes =
    elim (unescape_all (split_params params_bytes [] [])) [
      | none ↦ ok invalid
      | some params ↦ do
        path ← slice data_bytes pathstart pathend
        ok (
          record {
            path = path;
            params = params ++ replicate (maxparams - length params) none;
            method = method;
          },
          none,
        )
    ]

-- A request with a query from `pathend + 1` to `url_end`.
unfoldable pub parse_query : Bytes → ℕ → ℕ → ℕ → Bytes → Result (Parsed × Option ParseError)
parse_query data_bytes pathstart pathend url_end method =
    if ltb pathend pathstart
    then ok invalid
    else slice data_bytes (pathend + 1) url_end >>= parse_params data_bytes pathstart pathend method

unfoldable pub parse_plain : Bytes → ℕ → ℕ → Bytes → Result (Parsed × Option ParseError)
parse_plain data_bytes pathstart url_end method = do
  path ← slice data_bytes pathstart url_end
  ok (record { path = path; params = replicate maxparams none; method = method }, none)

-- A search in vain for "GET /" gives -1 + 4.
unfoldable pub path_start : Bytes → ℕ
path_start data_bytes = elim (index (codes "GET /") data_bytes) [ none ↦ 3 | some i ↦ i + 4 ]

-- The end of the path, if a query follows it in the URL.
unfoldable pub query_start : Bytes → ℕ → Option ℕ
query_start data_bytes url_end = elim (index (codes "?") data_bytes) [
  | none ↦ none
  | some e ↦ if ltb e url_end then some e else none
]

-- What stands behind the search for the end of the method.
unfoldable pub parse_url : Bytes → Bytes → Result (Parsed × Option ParseError)
parse_url data_bytes method = elim (index (codes " HTTP/") data_bytes) [
  | none ↦ ok invalid
  | some url_end ↦
      let pathstart = path_start data_bytes in
      if ltb url_end 5
      then ok invalid
      else if ltb url_end pathstart
      then ok invalid
      else elim (query_start data_bytes url_end) [
        | some pathend ↦ parse_query data_bytes pathstart pathend url_end method
        | none ↦ parse_plain data_bytes pathstart url_end method
      ]
]

unfoldable pub parse_request : Bytes → Result (Parsed × Option ParseError)
parse_request data_bytes = elim (index (codes " /") data_bytes) [
  | none ↦ ok invalid
  | some methodend ↦ do method ← slice data_bytes 0 methodend; parse_url data_bytes method
]

-- What is decoded goes over the front of the buffer, and is all that is read from there on.
unfoldable pub parse_decoded : Option Bytes → Result (Parsed × Option ParseError)
parse_decoded none = ok (zero_parsed, some bad_base64)
parse_decoded (some decoded) = parse_request decoded

unfoldable pub parse : (Bytes → Option Bytes) → Bytes → ℕ → Result (Parsed × Option ParseError)
parse base64 data_bytes size =
    if has_prefix (codes "R0VU") data_bytes
    then slice data_bytes 0 size >>= (λ encoded. parse_decoded (base64 encoded))
    else parse_request data_bytes

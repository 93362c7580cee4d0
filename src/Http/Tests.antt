-- ===== src/Http/Tests.antt =====
-- Requests of the HTTP tracker, and the theorems at them.
use trakx.Http.Loop
use trakx.Http.Loop.{Accepted, closed, failed, unread, received, IsServing, loop-IsServing}
use trakx.Common.{
  ◌-◌, ◌≡◌, refl, true, false, ◌||◌, List, [], ◌∷◌, ◌++◌, none, some, map, replicate, arith,
}
use trakx.Common.Assoc.{get, sum_by}
use trakx.Common.Bytes.{Bytes, codes}
use trakx.Common.Outcome.{ok}
use trakx.Common.Search.{has_prefix, index}
use trakx.Storage.Types.{Addr, v4, Bytes-discrete}
use trakx.Storage.Memory.{Store, save, hash_stats}
use trakx.Storage.Memory.Sums.{total_of}
use trakx.Storage.PeerList.{peer_list_bytes}
use trakx.Storage.PeerDicts.{peer_list}
use trakx.Storage.Sound.{IsSound}
use trakx.Stats.{Stats, incr64}
use trakx.Strconv.{atoi, parse_unsigned, parse_digits}
use trakx.Bencoding.Dictionary.{reset, new_dictionary}
use trakx.Bencoding.Value.{Value, Fields}
use trakx.Http.Unescape.{
  from_hex_char, place_in, shift_left, unescape_loop, unescape_fast, percent_decode,
}
use trakx.Http.Unescape.Decodes.{unescape_fast-percent_decode}
use trakx.Http.Parser.{
  maxparams, split_params, unescape_all, parse_query, parse_plain, path_start, query_start,
  parse_request, parse, invalid_parse, zero_parsed, slice, parse_params, parse_url, parse_decoded,
}
use trakx.Http.Parser.Params.{join, IsQuery, IsAbsent, decode_all}
use trakx.Http.Parser.Request.{request, parse-request}
use trakx.Http.Forwarded.{header_key, parse_forwarded, parse_forwarded_lem}
use trakx.Http.Reply.{count_stats}
use trakx.Http.Announce.{AnnounceParams, Config, Env, same, parse_port, parse_numwant, announce}
use trakx.Http.Scrape.{scrape}
use trakx.Http.Worker.{Outside, key_val, set_param, announce_params, no_params, infohash_of}
use trakx.Http.Answers.{answer, answer_fields, announce-answer}
use trakx.Http.Answers.Scrapes.{given, file_fields, scrape-answer}

run : Unit {0}
unfolding from_hex_char place_in shift_left unescape_loop unescape_fast percent_decode split_params
    unescape_all slice parse_params parse_url parse_decoded parse_query parse_plain path_start
    query_start parse_request parse has_prefix index join decode_all Bytes-discrete
    mathlib.Core.Bool.decide parse_port parse_numwant atoi parse_unsigned parse_digits key_val
    set_param announce_params infohash_of given
run = tt

escaped :
    unescape_fast (some (codes "1%002%ba~L"))
    ≡ some (codes "1" ++ (0 ∷ (codes "2" ++ (0xba ∷ codes "~L"))))
unfolding run
escaped = refl

cut_off : unescape_fast (some (codes "1%2")) ≡ none
unfolding run
cut_off = refl

-- A query that ends in `&` is an invalid request.
trailing_amp :
    parse (λ b. none) (codes "GET /announce?port=1& HTTP/1.1") 0
    ≡ ok (zero_parsed, some invalid_parse)
unfolding run
trailing_amp = refl

plain_path :
    parse (λ b. none) (codes "GET /benchmark HTTP/1.1") 0
    ≡ ok (
      record { path = codes "/benchmark"; params = replicate maxparams none; method = codes "GET" },
      none,
    )
unfolding run
plain_path = refl

two_params : List Bytes
two_params = codes "param=1" ∷ (codes "test=test%3Ftest" ∷ [])

read_params :
    announce_params (some (codes "left=0") ∷ (some (codes "compact=1") ∷ (none ∷ []))) no_params
    ≡ ok (record no_params { noneleft = true; compact = true })
unfolding run
read_params = refl

unescape_fast-percent_decode_example :
    unescape_fast (some (codes "1%002%ba~L")) ≡ percent_decode (codes "1%002%ba~L")
unescape_fast-percent_decode_example = unescape_fast-percent_decode (codes "1%002%ba~L")

params_decoded : decode_all two_params ≡ some (codes "param=1" ∷ (codes "test=test?test" ∷ []))
unfolding run two_params
params_decoded = refl

two_params-IsQuery : IsQuery two_params
unfolding two_params
two_params-IsQuery = omega arith

no_space : IsAbsent b' ' (join two_params)
unfolding run two_params
no_space = omega arith

parse-request_example :
    parse (λ b. none) (request (codes "/test") (join two_params) (codes "1.1 bla")) 40
    ≡ ok (
      record {
        path = codes "/test";
        params =
            map some (codes "param=1" ∷ (codes "test=test?test" ∷ []))
            ++ replicate (maxparams - 2) none;
        method = codes "GET";
      },
      none,
    )
parse-request_example =
    parse-request (λ b. none) 40 (codes "test") (codes "1.1 bla") two_params (omega arith) no_space
      two_params-IsQuery (unfold two_params in omega arith) params_decoded

abbrev no_stats : Stats
no_stats = record {
  hits = 0;
  connects = 0;
  announces = 0;
  scrapes = 0;
  seeds = 0;
  leeches = 0;
  ip_stats = [];
  server_errors = 0;
  client_errors = 0;
}

abbrev empty : Store
empty = record { hashmap = []; stats = no_stats }

empty-IsSound : IsSound empty
unfolding total_of sum_by get
empty-IsSound = record {
  valid = record { hashes = tt; peermaps = tt };
  tracks = record { seeds = refl; leeches = refl; ips = λ ip. refl; ip_keys = tt };
}

abbrev pub config : Config
config = record {
  numwant_default = 50;
  numwant_limit = 100;
  announce_base = 1800;
  announce_fuzz = 0;
}

abbrev pub env : Env
env = record {
  now = 5000;
  int63n = 0;
  recycled = record { complete = false; ip = Addr.invalid; port = 0; last_seen = 0 };
  peers4 = record { array = replicate 12 0; len = 12 };
  peers6 = record { array = replicate 36 0; len = 36 };
  dictionary = new_dictionary;
  peer_dictionary = new_dictionary;
}

abbrev home : Addr
home = v4 (10 ∷ 0 ∷ 0 ∷ 1 ∷ [])

abbrev pub out : Outside
out = record {
  parse_addr = λ b. some home;
  ip_string = λ ip. codes "10.0.0.1";
  base64 = λ b. none;
  expvar_page = codes "{}";
}

no_method_found :
    parse out.base64 (codes "00000 HTTP/GET /") 16 ≡ ok (zero_parsed, some invalid_parse)
unfolding run
no_method_found = refl

scrape-answer_example :
    scrape new_dictionary new_dictionary (none ∷ (some (replicate 20 b'a') ∷ [])) empty ≡ (
      count_stats (λ st. record st { scrapes = incr64 st.scrapes }) empty,
      answer (
            Fields.field
              (codes "files")
              (Value.dict (file_fields (given (none ∷ (some (replicate 20 b'a') ∷ []))) empty))
              Fields.end)
          ∷ [],
    )
scrape-answer_example =
    scrape-answer new_dictionary new_dictionary (none ∷ (some (replicate 20 b'a') ∷ [])) empty
      (unfold given in (refl, tt))

abbrev wanted : AnnounceParams
wanted = record no_params {
  compact = true;
  port = codes "6881";
  hash = replicate 20 b'a';
  peerid = replicate 20 b'x';
}

goes_on : same wanted.event (codes "stopped") ≡ false
unfolding run
goes_on = refl

port_read : parse_port wanted.port ≡ some 6881
unfolding run
port_read = refl

numwant_read : parse_numwant config wanted.numwant ≡ some 50
unfolding run
numwant_read = refl

announce-answer_example :
    (s' : Store) × (lists : Bytes × Bytes) × (s'
      ≡ save false env.recycled 5000 home 6881
          (same [] (codes "completed") || false)
          wanted.hash
          wanted.peerid
          (count_stats (λ st. record st { announces = incr64 st.announces }) empty))
    × (peer_list_bytes wanted.hash 50 env.peers4 env.peers6 s'.hashmap ≡ ok lists)
    × (announce out.ip_string false config env wanted home empty
        ≡ ok (
          s',
          answer (
                answer_fields true (hash_stats wanted.hash s') config env lists (
                  peer_list out.ip_string false wanted.hash 50
                    (reset env.peer_dictionary)
                    s'.hashmap))
              ∷ [],
        ))
announce-answer_example =
    announce-answer out.ip_string false config env wanted home empty (omega arith) (omega arith)
      refl refl goes_on port_read numwant_read

abbrev one_hop : Bytes
one_hop = codes "1.1.1.1"

parse_forwarded_lem_example :
    parse_forwarded (
      (b'\n' ∷ [])
      ++ (header_key ++ ((one_hop ++ (b',' ∷ codes " 2.2.2.2")) ++ (codes "\r\n" ++ []))))
    ≡ ok (true, some (codes "2.2.2.2"))
parse_forwarded_lem_example =
    parse_forwarded_lem (b'\n' ∷ []) one_hop (codes " 2.2.2.2") [] (unfold has_prefix in (refl, tt))
      (
        omega arith,
        (
          omega arith,
          (omega arith, (omega arith, (omega arith, (omega arith, (omega arith, tt))))),
        ),
      )
      (
        omega arith,
        (
          omega arith,
          (
            omega arith,
            (omega arith, (omega arith, (omega arith, (omega arith, (omega arith, tt))))),
          ),
        ),
      )
      (
        omega arith,
        (
          omega arith,
          (
            omega arith,
            (omega arith, (omega arith, (omega arith, (omega arith, (omega arith, tt))))),
          ),
        ),
      )

-- Two connections are read, the second with a request that is shorter than what the first has left, and
-- then the listener is closed.
abbrev accepted : List Accepted
accepted =
    received env [] (codes "GET /announce?port=1 HTTP/1.1") []
    ∷ (failed
        ∷ (unread
            ∷ (received env (codes "GET /announce?port=1 HTTP/1.1")
                  (codes "GET /heartbeat HTTP/1.1") []
                ∷ (closed ∷ []))))

loop-IsServing_example : IsServing 2 (Loop.loop out false config [] accepted empty)
unfolding Loop.HasRoom
loop-IsServing_example =
    loop-IsServing out config [] accepted empty
      ((omega arith, omega arith), (tt, (tt, ((omega arith, omega arith), (tt, tt))))) empty-IsSound

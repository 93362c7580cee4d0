-- ===== src/Http/Served.antt =====
-- Every request is answered, and leaves the database sound.
use trakx.Common.{
  ℕ, ◌≤◌, ◌<◌, refl, Bool, false, ◌||◌, List, Option, none, some, length, ◌==◌, Bool-cases,
  Option-cases, inl, inr, arith,
}
use trakx.Common.Assoc.{get}
use trakx.Common.Bytes.{Bytes, codes}
use trakx.Common.Outcome.{Result, ok, err, panic, ◌>>=◌, IsOk}
use trakx.Storage.Types.{Addr, Bytes-discrete}
use trakx.Storage.Memory.{Store, save}
use trakx.Storage.Memory.Counts.{save-IsValid, drop-IsValid}
use trakx.Storage.Memory.Totals.{save-Tracks, drop-Tracks}
use trakx.Storage.PeerList.Total.{peer_list_bytes_total}
use trakx.Storage.Sound.{IsSound, recounted}
use trakx.Stats.{incr64}
use trakx.Bencoding.Dictionary.{Dictionary}
use trakx.Http.Parser.{Parsed, ParseError, invalid_parse, bad_base64, parse}
use trakx.Http.Reply.{count_stats, client_error}
use trakx.Http.Announce.{
  AnnounceParams, Config, Env, same, parse_port, parse_numwant, announce_reply, announce_peer,
  announce,
}
use trakx.Http.Scrape.{scrape_reply, scrape}
use trakx.Http.Worker.Total.{announce_params-IsOk, infohashes_of-IsOk}
use trakx.Http.Parser.Total.{parse-IsOk}
use trakx.Http.Worker.{
  Outside, announce_from, work_announce, scrape_hashes, work_scrape, work_path, work_parsed, work,
  infohashes_of, count_set, no_params, announce_params,
}

-- A request ends with no panic, an answer, and a sound database.
unfoldable pub IsAnswered : Result (Store × List Bytes) → Type 0
IsAnswered (ok (s, out)) = IsSound s × (0 < length out)
IsAnswered (err e) = ⊥
IsAnswered panic = ⊥

client_error-IsAnswered :
    (used : Dictionary) (msg : Bytes) (s : Store)
    → IsSound s
    → IsAnswered (ok (client_error used msg s))
unfolding client_error IsAnswered
client_error-IsAnswered used msg s h = (recounted s _ refl refl refl h, omega arith)

scrape_reply-IsAnswered :
    (used_error : Dictionary) (s : Store) (d : Option Dictionary)
    → IsSound s
    → IsAnswered (ok (scrape_reply used_error s d))
unfolding scrape_reply
scrape_reply-IsAnswered used_error s none h = client_error-IsAnswered used_error _ s h
scrape_reply-IsAnswered used_error s (some d) h = unfold IsAnswered in (h, omega arith)

scrape-IsAnswered :
    (used used_error : Dictionary) (hashes : List (Option Bytes)) (s : Store)
    → IsSound s
    → IsAnswered (ok (scrape used used_error hashes s))
unfolding scrape
scrape-IsAnswered used used_error hashes s h =
    scrape_reply-IsAnswered used_error _ _ (recounted s _ refl refl refl h)

then-IsAnswered :
    {A : Type 0} (r : Result A) (f : A → Result (Store × List Bytes))
    → IsOk r
    → ((a : A) → IsAnswered (f a))
    → IsAnswered (r >>= f)
unfolding IsOk
then-IsAnswered (ok a) f h k = k a
then-IsAnswered (err e) f h k = elim h [ ]
then-IsAnswered panic f h k = elim h [ ]

work_scrape-IsAnswered :
    (out : Outside) (fast : Bool) (config : Config) (env : Env) (file_cache : List (Bytes × Bytes))
    (p : Parsed) (s : Store)
    → IsSound s
    → IsAnswered (work_scrape out fast config env file_cache p s)
unfolding work_scrape scrape_hashes
work_scrape-IsAnswered out fast config env file_cache p s h =
    then-IsAnswered (infohashes_of p.params) _ (infohashes_of-IsOk p.params) (λ hashes.
      elim (Bool-cases (count_set hashes == 0)) [
        | inl e ↦ rw (e, scrape_hashes) (client_error-IsAnswered env.dictionary _ s h)
        | inr e ↦ rw (e, scrape_hashes) (scrape-IsAnswered env.dictionary env.peer_dictionary _ s h)
      ])

module _ (ip_string : Addr → Bytes) (config : Config) (env : Env)
    (room4 : 6 ≤ length env.peers4.array) (room6 : 18 ≤ length env.peers6.array) where
  announce_reply-IsAnswered :
      (v : AnnounceParams) (numwant : ℕ) (s : Store)
      → IsSound s
      → IsAnswered (announce_reply ip_string false config env v numwant s)
  unfolding announce_reply IsAnswered
  announce_reply-IsAnswered v numwant s h = elim (Bool-cases v.compact) [
    | inl e ↦
        let (lists, p) =
          peer_list_bytes_total v.hash numwant env.peers4 env.peers6 s.hashmap room4 room6 in
        rw (e, p) (h, omega arith)
    | inr e ↦ rw e (h, omega arith)
  ]

  announce_peer-IsAnswered :
      (v : AnnounceParams) (ip : Addr) (s : Store)
      → IsSound s
      → IsAnswered (announce_peer ip_string false config env v ip s)
  unfolding announce_peer
  announce_peer-IsAnswered v ip s h = elim (Option-cases (parse_port v.port)) [
    | inl e ↦ rw (e, announce_peer) (client_error-IsAnswered env.dictionary _ s h)
    | inr (port, e) ↦ elim (Option-cases (parse_numwant config v.numwant)) [
      | inl f ↦ rw (e, announce_peer, f) (client_error-IsAnswered env.dictionary _ s h)
      | inr (numwant, f) ↦
          let complete = same v.event (codes "completed") || v.noneleft in
          rw (e, announce_peer, f)
            (announce_reply-IsAnswered v numwant
              (save false env.recycled env.now ip port complete v.hash v.peerid s)
              (record {
                valid =
                    save-IsValid false env.recycled env.now ip port complete v.hash v.peerid s
                      h.valid;
                tracks =
                    save-Tracks env.recycled env.now ip port complete v.hash v.peerid s h.tracks;
              }))
    ]
  ]

  announce-IsAnswered :
      (v : AnnounceParams) (ip : Addr) (s : Store)
      → IsSound s
      → IsAnswered (announce ip_string false config env v ip s)
  unfolding announce
  announce-IsAnswered v ip s0 h0 =
      let s = count_stats (λ st. record st { announces = incr64 st.announces }) s0 in
      let h : IsSound s = recounted s0 _ refl refl refl h0 in
      elim (Bool-cases (length v.hash == 20)) [
        | inr e ↦ rw e (client_error-IsAnswered env.dictionary _ s h)
        | inl e1 ↦ rw e1 (elim (Bool-cases (length v.peerid == 20)) [
          | inr e ↦ rw e (client_error-IsAnswered env.dictionary _ s h)
          | inl e2 ↦ rw e2 (elim (Bool-cases (same v.event (codes "stopped"))) [
            | inl e ↦ rw e (
                unfold IsAnswered in
                (
                  record {
                    valid = drop-IsValid false v.hash v.peerid s h.valid;
                    tracks = drop-Tracks v.hash v.peerid s h.tracks;
                  },
                  omega arith,
                ))
            | inr e ↦ rw e (announce_peer-IsAnswered v ip s h)
          ])
        ])
      ]

module _ (out : Outside) (config : Config) (env : Env) (file_cache : List (Bytes × Bytes))
    (room4 : 6 ≤ length env.peers4.array) (room6 : 18 ≤ length env.peers6.array) where
  announce_from-IsAnswered :
      (v : AnnounceParams) (s : Store) (ip_str : Bytes)
      → IsSound s
      → IsAnswered (announce_from out false config env file_cache v s ip_str)
  unfolding announce_from
  announce_from-IsAnswered v s ip_str h = elim (Option-cases (out.parse_addr ip_str)) [
    | inl e ↦ rw (e, announce_from) (client_error-IsAnswered env.dictionary _ s h)
    | inr (ip, e) ↦
        rw (e, announce_from) (announce-IsAnswered out.ip_string config env room4 room6 v ip s h)
  ]

  work_path-IsAnswered :
      (bs host : Bytes) (p : Parsed) (s : Store)
      → IsSound s
      → IsAnswered (work_path out false config env file_cache bs host p s)
  unfolding work_path work_announce
  work_path-IsAnswered bs host p s h = elim (Bool-cases (same p.path (codes "/announce"))) [
    | inl e ↦ rw e (
        then-IsAnswered (announce_params p.params no_params) _
          (announce_params-IsOk p.params no_params) (λ v. announce_from-IsAnswered v s host h))
    | inr e1 ↦ rw e1 (elim (Bool-cases (same p.path (codes "/scrape"))) [
      | inl e ↦ rw e (work_scrape-IsAnswered out false config env file_cache p s h)
      | inr e2 ↦ rw e2 (elim (Bool-cases (same p.path (codes "/heartbeat"))) [
        | inl e ↦ rw e (unfold IsAnswered in (h, omega arith))
        | inr e3 ↦ rw e3 (elim (Bool-cases (same p.path (codes "/stats"))) [
          | inl e ↦ rw e (unfold IsAnswered in (h, omega arith))
          | inr e4 ↦ rw e4 (elim (Option-cases (get Bytes-discrete p.path file_cache)) [
            | inl e ↦ rw e (unfold IsAnswered in (h, omega arith))
            | inr (content, e) ↦ rw e (unfold IsAnswered in (h, omega arith))
          ])
        ])
      ])
    ])
  ]

  work_parsed-IsAnswered :
      (bs host : Bytes) (r : Parsed × Option ParseError) (s : Store)
      → IsSound s
      → IsAnswered (work_parsed out false config env file_cache bs host r s)
  unfolding work_parsed
  work_parsed-IsAnswered bs host (p, none) s h = elim (Bool-cases (same p.method (codes "GET"))) [
    | inl e ↦ rw e (work_path-IsAnswered bs host p s h)
    | inr e ↦ rw e (unfold IsAnswered in (h, omega arith))
  ]
  work_parsed-IsAnswered bs host (p, some invalid_parse) s h = unfold IsAnswered in (h, omega arith)
  work_parsed-IsAnswered bs host (p, some bad_base64) s h =
      elim (Bool-cases (same p.method (codes "GET"))) [
        | inl e ↦ rw e (unfold IsAnswered in (recounted s _ refl refl refl h, omega arith))
        | inr e ↦ rw e (unfold IsAnswered in (h, omega arith))
      ]

  -- A request that was read into the buffer ends with no panic and an answer.
  pub work-IsAnswered :
      (bs : Bytes) (size : ℕ) (host : Bytes) (s : Store)
      → size ≤ length bs
      → IsSound s
      → IsAnswered (work out false config env file_cache bs size host s)
  unfolding work
  work-IsAnswered bs size host s k h =
      then-IsAnswered (parse out.base64 bs size) _ (parse-IsOk out.base64 bs size k)
        (λ r. work_parsed-IsAnswered bs host r _ (recounted s _ refl refl refl h))

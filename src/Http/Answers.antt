-- ===== src/Http/Answers.antt =====
-- What the answers of the HTTP tracker say.
pub mod Scrapes
use trakx.Common.{
  ℕ, ◌≤◌, ◌≡◌, refl, ap, ◌∙◌, Bool, true, false, ◌||◌, List, [], ◌∷◌, ◌++◌, Option, none, some,
  length, All, ◌==◌, if◌then◌else◌, Bool-cases, inl, inr, arith,
}
use trakx.Common.Bytes.{Bytes, codes}
use trakx.Common.Outcome.{ok}
use trakx.Storage.Types.{Addr, Bytes-discrete}
use trakx.Storage.Memory.{Store, save, hash_stats}
use trakx.Storage.PeerList.{peer_list_bytes}
use trakx.Storage.PeerList.Total.{peer_list_bytes_total}
use trakx.Storage.PeerDicts.{peer_list}
use trakx.Stats.{Stats, incr64}
use trakx.Bencoding.Decimal.{pos}
use trakx.Bencoding.Dictionary.{Dictionary, get_bytes, reset, start_dictionary, end_dictionary}
use trakx.Bencoding.Value.{Value, Fields, encode}
use trakx.Bencoding.Writer.{Call, Calls, done, run, fields, strings, get_bytes-run}
use trakx.Http.Parser.{Parsed, ParseError, invalid_parse, bad_base64, parse}
use trakx.Http.Worker.{Outside, work_parsed, work}
use trakx.Http.Reply.{http_success, count_stats, write_status}
use trakx.Http.Announce.{
  AnnounceParams, Config, Env, same, parse_port, parse_numwant, interval, signed64, announce_reply,
  announce_peer, announce,
}
use trakx.Http.Scrape.{scrape_files, scrape_reply, scrape}

-- The fields of the answer to an announce: the peers in two strings, or each in a string of its own.
unfoldable pub answer_fields : Bool → ℕ × ℕ → Config → Env → Bytes × Bytes → List Bytes → Fields
answer_fields compact (complete, incomplete) config env lists dicts =
    Fields.field (codes "interval") (Value.int (signed64 (interval config env))) (
      Fields.field (codes "complete") (Value.int (pos complete)) (
        Fields.field (codes "incomplete") (Value.int (pos incomplete)) (
          if compact
          then Fields.field (codes "peers") (Value.str lists.0)
              (Fields.field (codes "peers6") (Value.str lists.1) Fields.end)
          else Fields.field (codes "peers") (Value.list (strings dicts)) Fields.end)))

abbrev pub answer : Fields → Bytes
answer fs = http_success ++ encode (Value.dict fs)

-- A run of the writer, as the body of an answer.
pub written_answer :
    (used : Dictionary) (cs : Calls)
    → http_success ++ (get_bytes (run (reset used) cs)).1 ≡ answer (fields cs)
written_answer used cs = ap (λ b. http_success ++ b) (get_bytes-run used cs).1

module _ (ip_string : Addr → Bytes) (fast : Bool) (config : Config) (env : Env)
    (v : AnnounceParams) where
  counts : ℕ × ℕ → Calls → Calls
  counts (complete, incomplete) rest =
      Calls.then (Call.int64 (codes "interval") (signed64 (interval config env))) (
        Calls.then (Call.int64 (codes "complete") (pos complete))
          (Calls.then (Call.int64 (codes "incomplete") (pos incomplete)) rest))

  announce_reply_lem :
      (numwant : ℕ) (s : Store)
      → 6 ≤ length env.peers4.array
      → 18 ≤ length env.peers6.array
      → (lists : Bytes × Bytes) × (peer_list_bytes v.hash numwant env.peers4 env.peers6 s.hashmap
          ≡ ok lists)
        × (announce_reply ip_string fast config env v numwant s
            ≡ ok (
              s,
              answer (
                    answer_fields v.compact (hash_stats v.hash s) config env lists (
                      peer_list ip_string v.nopeerid v.hash numwant
                        (reset env.peer_dictionary)
                        s.hashmap))
                  ∷ [],
            ))
  unfolding announce_reply answer_fields
  announce_reply_lem numwant s room4 room6 =
      let (lists, p) =
        peer_list_bytes_total v.hash numwant env.peers4 env.peers6 s.hashmap room4 room6 in
      let dicts =
        peer_list ip_string v.nopeerid v.hash numwant (reset env.peer_dictionary) s.hashmap in
      let compact_calls = counts (hash_stats v.hash s) (
        Calls.then (Call.string_bytes (codes "peers") lists.0)
          (Calls.then (Call.string_bytes (codes "peers6") lists.1) done)) in
      let dict_calls =
        counts (hash_stats v.hash s)
          (Calls.then (Call.byteslice_slice (codes "peers") dicts) done) in
      (
        lists,
        p,
        elim (Bool-cases v.compact) [
          | inl e ↦
              rw (e, p)
                (unfold counts run fields in
                  ap (λ b. ok (s, b ∷ [])) (written_answer env.dictionary compact_calls))
          | inr e ↦ rw e (
              unfold counts run fields in
              ap (λ b. ok (s, b ∷ [])) (written_answer env.dictionary dict_calls))
        ],
      )

  announce_peer_lem :
      (ip : Addr) (s : Store) {port numwant : ℕ}
      → parse_port v.port ≡ some port
      → parse_numwant config v.numwant ≡ some numwant
      → announce_peer ip_string fast config env v ip s
        ≡ announce_reply ip_string fast config env v numwant (
            save fast env.recycled env.now ip port
              (same v.event (codes "completed") || v.noneleft)
              v.hash
              v.peerid
              s)
  unfolding announce_peer
  announce_peer_lem ip s e f = rw (e, announce_peer, f)

  announce_lem :
      (ip : Addr) (s : Store)
      → length v.hash ≡ 20
      → length v.peerid ≡ 20
      → same v.event (codes "stopped") ≡ false
      → announce ip_string fast config env v ip s
        ≡ announce_peer ip_string fast config env v ip
            (count_stats (λ st. record st { announces = incr64 st.announces }) s)
  unfolding announce
  announce_lem ip s h i e =
      let h' : (length v.hash == 20) ≡ true = ground (arith, h) in
      let i' : (length v.peerid == 20) ≡ true = ground (arith, i) in rw (h', i', e)

  -- An announce with an infohash and a peer id of 20 bytes, a port from 1 to 65535 and a number of
  -- peers that is no nonsense, and that does not stop, saves its peer and is answered with the
  -- bencoding of the interval, the counts of the hash after that, and its list of peers. The buffers
  -- that the pools hand out have room for one peer.
  pub announce-answer :
      (ip : Addr) (s : Store) {port numwant : ℕ}
      → 6 ≤ length env.peers4.array
      → 18 ≤ length env.peers6.array
      → length v.hash ≡ 20
      → length v.peerid ≡ 20
      → same v.event (codes "stopped") ≡ false
      → parse_port v.port ≡ some port
      → parse_numwant config v.numwant ≡ some numwant
      → (s' : Store) × (lists : Bytes × Bytes) × (s'
          ≡ save fast env.recycled env.now ip port
              (same v.event (codes "completed") || v.noneleft)
              v.hash
              v.peerid
              (count_stats (λ st. record st { announces = incr64 st.announces }) s))
        × (peer_list_bytes v.hash numwant env.peers4 env.peers6 s'.hashmap ≡ ok lists)
        × (announce ip_string fast config env v ip s
            ≡ ok (
              s',
              answer (
                    answer_fields v.compact (hash_stats v.hash s') config env lists (
                      peer_list ip_string v.nopeerid v.hash numwant
                        (reset env.peer_dictionary)
                        s'.hashmap))
                  ∷ [],
            ))
  announce-answer ip s {port} {numwant} room4 room6 h i e p n =
      let counted = count_stats (λ st. record st { announces = incr64 st.announces }) s in
      let s' =
        save fast env.recycled env.now ip port (same v.event (codes "completed") || v.noneleft)
          v.hash v.peerid counted in
      let (lists, q, r) = announce_reply_lem numwant s' room4 room6 in
      (s', lists, refl, q, announce_lem ip s h i e ∙ announce_peer_lem ip counted p n ∙ r)

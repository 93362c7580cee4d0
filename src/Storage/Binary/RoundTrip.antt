-- ===== src/Storage/Binary/RoundTrip.antt =====
-- A saved database is loaded back.
use trakx.Common.{
  ℕ, zero, suc, ◌+◌, ◌≤◌, ◌<◌, ◌%◌, ◌^◌, ◌≡◌, refl, sym, ap, ◌∙◌, subst, [], ◌∷◌, ◌++◌, none, some,
  length, length-append, append_assoc, append-nil, All, arith,
}
use trakx.Common.Assoc.{get, set, Distinct, sum_by, get_front, set_new, set_middle}
use trakx.Common.Bytes.{Bytes, le}
use trakx.Common.Outcome.{ok, read, read_le, read-append, read_le-le}
use trakx.Storage.Types.{Bytes-discrete}
use trakx.Storage.Memory.{PeerMap, Peers, HashMap, make_peermap, new_peermap}
use trakx.Storage.Memory.Counts.{seed, leech, IsCounted, IsValid}
use trakx.Storage.Binary.{
  encode_peers, encode_hash, encode_hashes, encode_binary, Filled, decode_peers, counted_peermap,
  Decoded, finish_hash, decode_hash, decode_loop, decode_binary,
}
use trakx.Storage.Binary.Entries.{IsStorable, decode_peers-encode_peers}

length-peers : (ps : Peers) → length ps ≡ sum_by seed ps + sum_by leech ps
unfolding sum_by
length-peers [] = refl
length-peers ((id, p) ∷ ps) = ground (arith, length-peers ps)

abbrev filled : Peers → ℕ → Filled
filled ps n = record { found = ps; peers = n; complete = (0 + sum_by seed ps) % 2 ^ 16 }

counted-filled : (pm : PeerMap) (n : ℕ) → IsCounted pm → counted_peermap (filled pm.peers n) ≡ pm
unfolding counted_peermap
counted-filled pm n h = ground (arith, h.seeds, h.leeches, length-peers pm.peers)

decode_hash_step :
    (hash b : Bytes) (d : Decoded) {count : ℕ} {rest next : Bytes} {f : Filled}
    → read_le 4 b ≡ ok (count, rest)
    → decode_peers count rest (record { found = []; peers = d.peers; complete = 0 }) ≡ (f, ok next)
    → decode_hash hash b d ≡ (
      record d {
        hashmap = set Bytes-discrete hash (counted_peermap f) (make_peermap hash d.hashmap).0;
        peers = f.peers;
        hashes = d.hashes + 1;
      },
      some next,
    )
unfolding decode_hash finish_hash
decode_hash_step hash b d e1 e2 =
    rw (e1, decode_hash)
      (ap (finish_hash hash (record d { hashmap = (make_peermap hash d.hashmap).0 })) e2)

added :
    (hash : Bytes) (pm : PeerMap) (m : HashMap)
    → get Bytes-discrete hash m ≡ none
    → set Bytes-discrete hash pm (make_peermap hash m).0 ≡ m ++ ((hash, pm) ∷ [])
unfolding make_peermap
added hash pm m h =
    ap (set Bytes-discrete hash pm) (set_new Bytes-discrete hash new_peermap m h)
    ∙ set_middle Bytes-discrete hash new_peermap pm m [] h

decode_hash-peermap :
    (hash : Bytes) (pm : PeerMap) (rest : Bytes) (d : Decoded)
    → IsStorable (hash, pm)
    → IsCounted pm
    → get Bytes-discrete hash d.hashmap ≡ none
    → decode_hash hash (le 4 (length pm.peers % 2 ^ 32) ++ (encode_peers pm.peers ++ rest)) d ≡ (
      record d {
        hashmap = d.hashmap ++ ((hash, pm) ∷ []);
        peers = d.peers + length pm.peers;
        hashes = d.hashes + 1;
      },
      some rest,
    )
decode_hash-peermap hash pm rest d s c fresh =
    let ps = pm.peers in
    let len : length ps % 2 ^ 32 ≡ length ps = omega (arith, s.count) in
    let n = d.peers + length ps in
    let size : read_le 4 (le 4 (length ps % 2 ^ 32) ++ (encode_peers ps ++ rest))
        ≡ ok (length ps, encode_peers ps ++ rest) =
      rw len (read_le-le 4 (length ps) (encode_peers ps ++ rest) s.count) in
    let peers = decode_peers-encode_peers ps [] d.peers 0 rest s.peers c.ids (omega arith) in
    decode_hash_step hash (le 4 (length ps % 2 ^ 32) ++ (encode_peers ps ++ rest)) d
      {f = filled ps n} size peers
    ∙ ap (λ m. (record d { hashmap = m; peers = n; hashes = d.hashes + 1 }, some rest))
        (ap (λ x. set Bytes-discrete hash x (make_peermap hash d.hashmap).0) (counted-filled pm n c)
          ∙ added hash pm d.hashmap fresh)

decode_loop_step :
    (n : ℕ) (b : Bytes) (d : Decoded) {hash rest next : Bytes} {d' : Decoded}
    → read 20 b ≡ ok (hash, rest)
    → decode_hash hash rest d ≡ (d', some next)
    → decode_loop (suc n) b d ≡ decode_loop n next d'
unfolding decode_loop
decode_loop_step n b d e1 e2 =
    rw (e1, decode_loop)
      (ap (λ r. elim r.1 [ none ↦ some r.0 | some b' ↦ decode_loop n b' r.0 ]) e2)

decode_loop_end :
    (n : ℕ) (d : Decoded) → decode_loop (suc n) [] d ≡ some (record d { result = ok tt })
unfolding decode_loop read
decode_loop_end n d = refl

abbrev pub peers_of : HashMap → ℕ
peers_of = sum_by (λ pm. length pm.peers)

decode_loop-encode_hashes :
    (es : HashMap) (n : ℕ) (d : Decoded)
    → length es < n
    → All IsStorable es
    → All (λ e. IsCounted e.1) es
    → Distinct Bytes-discrete (d.hashmap ++ es)
    → decode_loop n (encode_hashes es) d
      ≡ some (record {
        hashmap = d.hashmap ++ es;
        peers = d.peers + peers_of es;
        hashes = d.hashes + length es;
        result = ok tt;
      })
unfolding encode_hashes encode_hash sum_by
decode_loop-encode_hashes es zero d h s c k = absurd (omega arith)
decode_loop-encode_hashes [] (suc n) d h s c k =
    decode_loop_end n d ∙ ground (arith, append-nil d.hashmap)
decode_loop-encode_hashes ((hash, pm) ∷ es) (suc n) d h (s, ss) (c, cs) k =
    let shift = append_assoc d.hashmap ((hash, pm) ∷ []) es in
    let fresh = get_front Bytes-discrete hash pm d.hashmap es k in
    let d' : Decoded = record d {
      hashmap = d.hashmap ++ ((hash, pm) ∷ []);
      peers = d.peers + length pm.peers;
      hashes = d.hashes + 1;
    } in
    let ih =
      decode_loop-encode_hashes es n d' (omega arith) ss cs
        (subst (Distinct Bytes-discrete) (sym shift) k) in
    let rest = encode_hashes es in
    let counts = le 4 (length pm.peers % 2 ^ 32) in
    let bracket : (hash ++ (counts ++ encode_peers pm.peers)) ++ rest
        ≡ hash ++ (counts ++ (encode_peers pm.peers ++ rest)) =
      simp append_assoc in
    ap (λ b. decode_loop (suc n) b d) bracket
    ∙ decode_loop_step n _ d (read-append 20 hash _ s.hash)
        (decode_hash-peermap hash pm rest d s c fresh)
    ∙ ih
    ∙ ground (arith, shift)

length-encode_hashes : (es : HashMap) → All IsStorable es → length es ≤ length (encode_hashes es)
unfolding encode_hashes encode_hash
length-encode_hashes [] h = omega arith
length-encode_hashes ((hash, pm) ∷ es) (s, ss) =
    simp length-append (omega (arith, s.hash, length-encode_hashes es ss))

-- A valid database whose hashes and ids have 20 bytes, whose addresses are of IPv4 or of IPv6 without a
-- zone, and whose ports, times and numbers of peers fit their widths is loaded back whole from what
-- was saved, its counters included, with the numbers of its peers and hashes.
pub decode_binary-encode_binary :
    (m : HashMap)
    → IsValid m
    → All IsStorable m
    → (b : Bytes) × (encode_binary m ≡ ok b)
      × (decode_binary b
          ≡ some (record { hashmap = m; peers = peers_of m; hashes = length m; result = ok tt }))
unfolding encode_binary decode_binary
decode_binary-encode_binary m v s =
    let d : Decoded = record { hashmap = []; peers = 0; hashes = 0; result = ok tt } in
    (
      encode_hashes m,
      refl,
      decode_loop-encode_hashes m (suc (length (encode_hashes m))) d
            (omega (arith, length-encode_hashes m s)) s v.peermaps v.hashes
          ∙ ground arith,
    )

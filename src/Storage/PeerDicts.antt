-- ===== src/Storage/PeerDicts.antt =====
-- `PeerList` of tracker/storage/map/hash.go: the peers as bencoded dictionaries. `ip_string` is
-- `String` of `netip.Addr`.
use trakx.Common.{
  ℕ, zero, suc, ◌+◌, ◌≤◌, ◌≡◌, refl, ap, sym, ◌∙◌, Bool, true, false, List, [], ◌∷◌, Option, none,
  some, length, take, map, ltb, ◌==◌, if◌then◌else◌, Bool-cases, Option-cases, inl, inr, arith,
}
use trakx.Common.Assoc.{get}
use trakx.Common.Bytes.{Bytes}
use trakx.Storage.Types.{Addr, Peer, Bytes-discrete}
use trakx.Storage.Memory.{PeerMap, Peers, HashMap}
use trakx.Bencoding.Decimal.{pos}
use trakx.Bencoding.Dictionary.{Dictionary, string, int64, get_bytes, reset}
use trakx.Bencoding.Value.{Value, Fields, encode}
use trakx.Bencoding.Writer.{Call, Calls, done, run, fields, get_bytes-run}

abbrev pub peer_id_key : Bytes
peer_id_key = b'p' ∷ b'e' ∷ b'e' ∷ b'r' ∷ b' ' ∷ b'i' ∷ b'd' ∷ []

abbrev pub ip_key : Bytes
ip_key = b'i' ∷ b'p' ∷ []

abbrev pub port_key : Bytes
port_key = b'p' ∷ b'o' ∷ b'r' ∷ b't' ∷ []

-- The peers of a hash.
abbrev pub listed_in : Option PeerMap → Peers
listed_in none = []
listed_in (some pm) = pm.peers

abbrev pub peers_under : Bytes → HashMap → Peers
peers_under hash m = listed_in (get Bytes-discrete hash m)

take_all : (n : ℕ) (ps : Peers) → length ps ≤ n → take n ps ≡ ps
take_all zero [] h = refl
take_all zero (x ∷ ps) h = absurd (omega arith)
take_all (suc n) [] h = refl
take_all (suc n) (x ∷ ps) h = ap (◌∷◌ x) (take_all n ps (omega arith))

take_capped :
    (n : ℕ) (ps : Peers) → take (if ltb (length ps) n then length ps else n) ps ≡ take n ps
take_capped n ps = elim (Bool-cases (ltb (length ps) n)) [
  | inl e ↦ rw e (take_all (length ps) ps (omega arith) ∙ sym (take_all n ps (ground arith)))
  | inr e ↦ rw e refl
]

module _ (ip_string : Addr → Bytes) (remove_peer_id : Bool) where
  -- The calls for one peer.
  unfoldable pub peer_dictionary : Bytes × Peer → Dictionary → Dictionary
  peer_dictionary (id, peer) d =
      let d1 = if remove_peer_id then d else string d peer_id_key id in
      int64 (string d1 ip_key (ip_string peer.ip)) port_key (pos peer.port)

  -- The loop, with `i` entries made.
  unfoldable pub list_dictionaries : ℕ → ℕ → Peers → Dictionary → List Bytes
  list_dictionaries num_want i [] d = []
  list_dictionaries num_want i (e ∷ es) d =
      let (used, dict_bytes) = get_bytes (peer_dictionary e d) in
      let rest = list_dictionaries num_want (i + 1) es (reset used) in
      dict_bytes ∷ (if i + 1 == num_want then [] else rest)

  -- With the dictionary that the pool hands out; `nil` is the empty list.
  unfoldable pub peer_list : Bytes → ℕ → Dictionary → HashMap → List Bytes
  peer_list hash num_want d m = elim (get Bytes-discrete hash m) [
    | none ↦ []
    | some pm ↦
        let num_peers = length pm.peers in
        let num_want' = if ltb num_peers num_want then num_peers else num_want in
        if num_want' == 0 then [] else list_dictionaries num_want' 0 pm.peers d
  ]

  -- A peer as a value of the format.
  unfoldable pub peer_value : Bytes × Peer → Value
  peer_value (id, peer) =
      let shown =
        Fields.field ip_key (Value.str (ip_string peer.ip))
          (Fields.field port_key (Value.int (pos peer.port)) Fields.end) in
      Value.dict (if remove_peer_id then shown else Fields.field peer_id_key (Value.str id) shown)

  -- The same calls as a run of the writer.
  peer_calls : Bytes × Peer → Calls
  peer_calls (id, peer) =
      let shown =
        Calls.then (Call.string ip_key (ip_string peer.ip))
          (Calls.then (Call.int64 port_key (pos peer.port)) done) in
      if remove_peer_id then shown else Calls.then (Call.string peer_id_key id) shown

  run-peer_calls : (e : Bytes × Peer) (d : Dictionary) → run d (peer_calls e) ≡ peer_dictionary e d
  unfolding peer_calls peer_dictionary run
  run-peer_calls (id, peer) d = elim (Bool-cases remove_peer_id) [
    | inl h ↦ rw h refl
    | inr h ↦ rw h refl
  ]

  fields-peer_calls : (e : Bytes × Peer) → Value.dict (fields (peer_calls e)) ≡ peer_value e
  unfolding peer_calls peer_value fields
  fields-peer_calls (id, peer) = elim (Bool-cases remove_peer_id) [
    | inl h ↦ rw h refl
    | inr h ↦ rw h refl
  ]

  bytes-peer_dictionary :
      (e : Bytes × Peer) (used : Dictionary)
      → (get_bytes (peer_dictionary e (reset used))).1 ≡ encode (peer_value e)
  bytes-peer_dictionary e used =
      ap (λ d. (get_bytes d).1) (sym (run-peer_calls e (reset used)))
      ∙ (get_bytes-run used (peer_calls e)).1
      ∙ ap encode (fields-peer_calls e)

  list_dictionaries_lem :
      (k i : ℕ) (es : Peers) (used : Dictionary)
      → list_dictionaries (i + suc k) i es (reset used)
        ≡ map (λ e. encode (peer_value e)) (take (suc k) es)
  unfolding list_dictionaries
  list_dictionaries_lem k i [] used = refl
  list_dictionaries_lem zero i (e ∷ es) used =
      let last : (i + 1 == i + 1) ≡ true = ground arith in rw (last, bytes-peer_dictionary e used)
  list_dictionaries_lem (suc k) i (e ∷ es) used =
      let more : (i + 1 == i + suc (suc k)) ≡ false = ground arith in
      let shift : i + suc (suc k) ≡ (i + 1) + suc k = omega arith in
      let used' = (get_bytes (peer_dictionary e (reset used))).0 in
      rw (more, bytes-peer_dictionary e used)
        (ap (◌∷◌ (encode (peer_value e))) (
          ap (λ n. list_dictionaries n (i + 1) es (reset used')) shift
          ∙ list_dictionaries_lem k (i + 1) es used'))

  list_dictionaries_at_most :
      (n : ℕ) (ps : Peers) (used : Dictionary)
      → (if n == 0 then [] else list_dictionaries n 0 ps (reset used))
        ≡ map (λ e. encode (peer_value e)) (take n ps)
  list_dictionaries_at_most zero ps used = refl
  list_dictionaries_at_most (suc k) ps used =
      let positive : (suc k == 0) ≡ false = ground arith in
      rw positive (
        ap (λ n. list_dictionaries n 0 ps (reset used)) (omega arith)
        ∙ list_dictionaries_lem k 0 ps used)

  -- `PeerList`, with a dictionary that was used and reset, gives the first peers of the hash, at most
  -- as many as are wanted, each as the bencoding of its dictionary.
  pub peer_list_lem :
      (hash : Bytes) (num_want : ℕ) (used : Dictionary) (m : HashMap)
      → peer_list hash num_want (reset used) m
        ≡ map (λ e. encode (peer_value e)) (take num_want (peers_under hash m))
  unfolding peer_list
  peer_list_lem hash num_want used m = elim (Option-cases (get Bytes-discrete hash m)) [
    | inl e ↦ rw (e, peer_list, peers_under) (nothing num_want)
    | inr (pm, e) ↦
        rw (e, peer_list, peers_under)
          (list_dictionaries_at_most
              (if ltb (length pm.peers) num_want then length pm.peers else num_want) pm.peers used
            ∙ ap (map (λ e. encode (peer_value e))) (take_capped num_want pm.peers))
  ]
    where
      nothing : (n : ℕ) → [] ≡ map (λ e. encode (peer_value e)) (take n [])
      nothing zero = refl
      nothing (suc n) = refl

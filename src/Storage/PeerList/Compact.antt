-- ===== src/Storage/PeerList/Compact.antt =====
-- What a peer list holds: the compact form of the peers, up to the first full buffer.
use trakx.Common.{
  Bool-cases, inl, inr, append_assoc, append-nil, All, ℕ, zero, suc, ◌-◌, ◌*◌, ◌<◌, ◌≡◌, refl, sym,
  ap, ◌∙◌, Bool, true, false, [], ◌∷◌, ◌++◌, some, length, take, ◌==◌, ltb, if◌then◌else◌, arith,
}
use trakx.Common.Assoc.{get}
use trakx.Common.Bytes.{Bytes, be}
use trakx.Common.Outcome.{ok}
use trakx.Storage.Types.{Addr, Peer, as_slice, is6, Bytes-discrete}
use trakx.Storage.Memory.{PeerMap, Peers, HashMap}
use trakx.Storage.PeerList.{Slice, put, Lists, is_full, list_peers, peer_list_bytes}
use trakx.Storage.PeerList.Fill.{
  entries_size, IsFilled, put-IsFilled, full-IsFilled, contents-IsFilled,
}
use trakx.Udp.ConnDb.Binary.{IsPlain, plain4, plain6}

-- The peers up to the first that leaves no room for another: `n4` more fit the one buffer and `n6`
-- the other.
unfoldable pub listed : ℕ → ℕ → Peers → Peers
listed n4 n6 [] = []
listed n4 n6 ((id, peer) ∷ es) =
    (id, peer)
    ∷ (if is6 peer.ip
        then (if n6 == 1 then [] else listed n4 (n6 - 1) es)
        else (if n4 == 1 then [] else listed (n4 - 1) n6 es))

-- The addresses and ports of the IPv6 peers, or of the others.
unfoldable pub compact : Bool → Peers → Bytes
compact six [] = []
compact six ((id, peer) ∷ es) =
    if is6 peer.ip
    then if six then as_slice peer.ip ++ (be 2 peer.port ++ compact six es) else compact six es
    else if six
    then compact six es
    else as_slice peer.ip ++ (be 2 peer.port ++ compact six es)

length-plain6 : (a : Addr) → IsPlain a → is6 a ≡ true → length (as_slice a) ≡ 16
length-plain6 a (plain4 b h) e = absurd (ground arith)
length-plain6 a (plain6 b h) e = h

length-plain4 : (a : Addr) → IsPlain a → is6 a ≡ false → length (as_slice a) ≡ 4
length-plain4 a (plain4 b h) e = h
length-plain4 a (plain6 b h) e = absurd (ground arith)

-- The two buffers hold `four` and `six` behind what was there.
abbrev pub Holds : Lists → Bytes → Bytes → Type 0
Holds s four six = (take s.four.1 s.four.0 ≡ four) × (take s.six.1 s.six.0 ≡ six)

abbrev entry : Peer → Bytes
entry p = as_slice p.ip ++ be 2 p.port

-- What is claimed of a list of peers.
abbrev Compacts : Peers → ℕ → ℕ → Bytes → Bytes → Lists → Type 0
Compacts es n4 n6 f4 f6 s =
    (s' : Lists) × (list_peers es s ≡ ok s')
    × Holds s' (f4 ++ compact false (listed n4 n6 es)) (f6 ++ compact true (listed n4 n6 es))

module _ (id : Bytes) (peer : Peer) (es : Peers) (f4 f6 : Bytes) (s : Lists) where
  six_step :
      (n4 n6 : ℕ) (six : Bytes × ℕ)
      → is6 peer.ip ≡ true
      → IsFilled 4 (suc n4) f4 s.four
      → put 16 peer s.six ≡ ok six
      → IsFilled 16 n6 (f6 ++ entry peer) six
      → ((m : ℕ)
          → IsFilled 16 (suc m) (f6 ++ entry peer) six
          → Compacts es (suc n4) (suc m) f4 (f6 ++ entry peer) (record s { six = six }))
      → Compacts ((id, peer) ∷ es) (suc n4) (suc n6) f4 f6 s
  unfolding list_peers compact listed
  six_step n4 zero six e g4 p filled ih =
      let full : is_full 16 six ≡ true = full-IsFilled 16 zero (f6 ++ entry peer) six filled in
      (
        record s { six = six },
        rw (e, p, full),
        (
          rw e (contents-IsFilled 4 (suc n4) f4 s.four g4 ∙ sym (append-nil f4)),
          rw e (
              contents-IsFilled 16 zero (f6 ++ entry peer) six filled
              ∙ ap (λ x. f6 ++ (as_slice peer.ip ++ x)) (sym (append-nil (be 2 peer.port)))),
        ),
      )
  six_step n4 (suc m) six e g4 p filled ih =
      let full : is_full 16 six ≡ false =
        full-IsFilled 16 (suc m) (f6 ++ entry peer) six filled ∙ ground arith in
      let more : (suc (suc m) == 1) ≡ false = ground arith in
      let less : suc (suc m) - 1 ≡ suc m = omega arith in
      let (s', q, (a4, a6)) = ih m filled in
      (s', rw (e, p, full) q, (rw (e, more, less) a4, rw (e, more, less) (a6 ∙ simp append_assoc)))

  four_step :
      (n4 n6 : ℕ) (four : Bytes × ℕ)
      → is6 peer.ip ≡ false
      → IsFilled 16 (suc n6) f6 s.six
      → put 4 peer s.four ≡ ok four
      → IsFilled 4 n4 (f4 ++ entry peer) four
      → ((m : ℕ)
          → IsFilled 4 (suc m) (f4 ++ entry peer) four
          → Compacts es (suc m) (suc n6) (f4 ++ entry peer) f6 (record s { four = four }))
      → Compacts ((id, peer) ∷ es) (suc n4) (suc n6) f4 f6 s
  unfolding list_peers compact listed
  four_step zero n6 four e g6 p filled ih =
      let full : is_full 4 four ≡ true = full-IsFilled 4 zero (f4 ++ entry peer) four filled in
      (
        record s { four = four },
        rw (e, p, full),
        (
          rw e (
              contents-IsFilled 4 zero (f4 ++ entry peer) four filled
              ∙ ap (λ x. f4 ++ (as_slice peer.ip ++ x)) (sym (append-nil (be 2 peer.port)))),
          rw e (contents-IsFilled 16 (suc n6) f6 s.six g6 ∙ sym (append-nil f6)),
        ),
      )
  four_step (suc m) n6 four e g6 p filled ih =
      let full : is_full 4 four ≡ false =
        full-IsFilled 4 (suc m) (f4 ++ entry peer) four filled ∙ ground arith in
      let more : (suc (suc m) == 1) ≡ false = ground arith in
      let less : suc (suc m) - 1 ≡ suc m = omega arith in
      let (s', q, (a4, a6)) = ih m filled in
      (s', rw (e, p, full) q, (rw (e, more, less) (a4 ∙ simp append_assoc), rw (e, more, less) a6))

list_peers-compact :
    (es : Peers) (n4 n6 : ℕ) (f4 f6 : Bytes) (s : Lists)
    → All (λ e. IsPlain e.1.ip) es
    → IsFilled 4 (suc n4) f4 s.four
    → IsFilled 16 (suc n6) f6 s.six
    → Compacts es (suc n4) (suc n6) f4 f6 s
unfolding list_peers compact listed
list_peers-compact [] n4 n6 f4 f6 s h g4 g6 = (
  s,
  refl,
  (
    contents-IsFilled 4 (suc n4) f4 s.four g4 ∙ sym (append-nil f4),
    contents-IsFilled 16 (suc n6) f6 s.six g6 ∙ sym (append-nil f6),
  ),
)
list_peers-compact ((id, peer) ∷ es) n4 n6 f4 f6 s (h, hs) g4 g6 = elim (Bool-cases (is6 peer.ip)) [
  | inl e ↦
      let (six, p, filled) = put-IsFilled 16 n6 f6 peer s.six (length-plain6 peer.ip h e) g6 in
      six_step id peer es f4 f6 s n4 n6 six e g4 p filled
        (λ m g. list_peers-compact es n4 m f4 (f6 ++ entry peer) (record s { six = six }) hs g4 g)
  | inr e ↦
      let (four, p, filled) = put-IsFilled 4 n4 f4 peer s.four (length-plain4 peer.ip h e) g4 in
      four_step id peer es f4 f6 s n4 n6 four e g6 p filled
        (λ m g. list_peers-compact es m n6 (f4 ++ entry peer) f6 (record s { four = four }) hs g g6)
]

entries_size-four : (n : ℕ) → entries_size 4 n ≡ 6 * n
entries_size-four zero = refl
entries_size-four (suc n) = omega (arith, entries_size-four n)

entries_size-six : (n : ℕ) → entries_size 16 n ≡ 18 * n
entries_size-six zero = refl
entries_size-six (suc n) = omega (arith, entries_size-six n)

-- When the peers of a hash have plain addresses and some are wanted, the two lists are the compact
-- form of its peers, up to the first that leaves a buffer full: those of the addresses of 4 bytes in
-- one, the others in the other. The buffers have room for `limit` entries each; how many peers are
-- wanted does not matter, and neither does what the buffers held.
pub peer_list_bytes-compact :
    (hash : Bytes) (num_want limit : ℕ) (peers4 peers6 : Slice) (m : HashMap) {pm : PeerMap}
    → get Bytes-discrete hash m ≡ some pm
    → All (λ e. IsPlain e.1.ip) pm.peers
    → 0 < length pm.peers
    → 0 < num_want
    → 0 < limit
    → length peers4.array ≡ 6 * limit
    → length peers6.array ≡ 18 * limit
    → peer_list_bytes hash num_want peers4 peers6 m
      ≡ ok (compact false (listed limit limit pm.peers), compact true (listed limit limit pm.peers))
unfolding peer_list_bytes
peer_list_bytes-compact hash num_want zero peers4 peers6 m e h l w k h4 h6 = absurd (omega arith)
peer_list_bytes-compact hash num_want (suc n) peers4 peers6 m {pm} e h l w k h4 h6 =
    let s0 : Lists = record { four = (peers4.array, 0); six = (peers6.array, 0) } in
    let g4 : IsFilled 4 (suc n) [] s0.four = record {
      rest = peers4.array;
      array = refl;
      pos = refl;
      room = h4 ∙ sym (entries_size-four (suc n));
    } in
    let g6 : IsFilled 16 (suc n) [] s0.six = record {
      rest = peers6.array;
      array = refl;
      pos = refl;
      room = h6 ∙ sym (entries_size-six (suc n));
    } in
    let (s, p, (a4, a6)) = list_peers-compact pm.peers n n [] [] s0 h g4 g6 in
    let some_wanted : ((if ltb (length pm.peers) num_want then length pm.peers else num_want) == 0)
        ≡ false =
      ground arith in
    rw (e, peer_list_bytes, some_wanted, p, a4, a6)

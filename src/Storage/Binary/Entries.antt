-- ===== src/Storage/Binary/Entries.antt =====
-- The peers of a hash, written by `encodeBinary` and read back by `decodeBinary`.
use trakx.Common.{
  ℕ, suc, ◌+◌, ◌<◌, ◌%◌, ◌^◌, ◌≡◌, refl, sym, ap, ◌∙◌, subst, Bool, true, false, not, [], ◌∷◌, ◌++◌,
  none, length, lt→leb, if◌then◌else◌, append_assoc, append-nil, All, arith, ◌==◌,
}
use trakx.Common.Assoc.{get, Distinct, sum_by, get_front, set_new}
use trakx.Common.Bytes.{Bytes}
use trakx.Common.Outcome.{ok, read-append, read_le-le}
use trakx.Storage.Types.{Addr, Peer, as_slice, Bytes-discrete}
use trakx.Storage.Memory.{PeerMap, Peers}
use trakx.Storage.Memory.Counts.{seed}
use trakx.Storage.Binary.{
  encode_peer, encode_peers, make_read, from_slice, decode_peer, Filled, fill, decode_peers,
}
use trakx.Udp.Protocol.Types.{IsU16, IsU64}
use trakx.Udp.ConnDb.Binary.{IsPlain, plain4, plain6}

-- The binary form has no place for the zone of an address: a peer with one is not storable.
pub record IsStorablePeer (e : Bytes × Peer) : Type 0 where
  pub id : length e.0 ≡ 20
  pub ip : IsPlain e.1.ip
  pub port : IsU16 e.1.port
  pub last_seen : IsU64 e.1.last_seen

pub record IsStorable (e : Bytes × PeerMap) : Type 0 where
  pub hash : length e.0 ≡ 20
  pub peers : All IsStorablePeer e.1.peers
  pub count : length e.1.peers < 2 ^ 32

plain_slice : (a : Addr) → IsPlain a → length (as_slice a) < 2 ^ 31
plain_slice a (plain4 b h) = omega (arith, h)
plain_slice a (plain6 b h) = omega (arith, h)

from_slice-as_slice : (a : Addr) → IsPlain a → from_slice (as_slice a) ≡ ok a
unfolding from_slice
from_slice-as_slice a (plain4 b h) = ground (arith, h)
from_slice-as_slice a (plain6 b h) = ground (arith, h)

make_read_slice :
    (a : Addr) (rest : Bytes)
    → IsPlain a
    → make_read (length (as_slice a)) (as_slice a ++ rest) ≡ ok (as_slice a, rest)
unfolding make_read
make_read_slice a rest h =
    rw (lt→leb (2 ^ 31) (length (as_slice a)) (plain_slice a h))
      (read-append _ (as_slice a) rest refl)

flag_fits : (c : Bool) → (if c then 1 else 0) < 256
flag_fits c = ground arith

flag_back : (c : Bool) → not ((if c then 1 else 0) == 0) ≡ c
flag_back true = refl
flag_back false = refl

decode_peer-encode_peer :
    (e : Bytes × Peer) (rest : Bytes)
    → IsStorablePeer e
    → decode_peer (encode_peer e ++ rest) ≡ ok (e, rest)
unfolding decode_peer encode_peer
decode_peer-encode_peer (id, p) rest h =
    let slice_fits : length (as_slice p.ip) < 2 ^ 32 = omega (arith, plain_slice p.ip h.ip) in
    simp append_assoc (
      rw (read-append 20 id _ h.id) (
        simp (read_le-le, flag_fits p.complete, slice_fits)
          (rw (make_read_slice p.ip _ h.ip) (
            rw (from_slice-as_slice p.ip h.ip)
              (simp (read_le-le, h.port, h.last_seen) (rw (flag_back p.complete)))))))

-- The peers of one hash, behind those that are filled in already.
decode_peers_step :
    (n : ℕ) (b : Bytes) (f : Filled) {e : Bytes × Peer} {rest : Bytes}
    → decode_peer b ≡ ok (e, rest)
    → decode_peers (suc n) b f ≡ decode_peers n rest (fill e f)
unfolding decode_peers
decode_peers_step n b f h = rw (h, decode_peers)

fill_new :
    (e : Bytes × Peer) (f : Filled)
    → get Bytes-discrete e.0 f.found ≡ none
    → f.complete < 2 ^ 16
    → fill e f ≡ record {
      found = f.found ++ (e ∷ []);
      peers = f.peers + 1;
      complete = (f.complete + seed e.1) % 2 ^ 16;
    }
unfolding fill
fill_new (id, p) f h fits = ground (arith, set_new Bytes-discrete id p f.found h)

pub decode_peers-encode_peers :
    (es front : Peers) (n c : ℕ) (rest : Bytes)
    → All IsStorablePeer es
    → Distinct Bytes-discrete (front ++ es)
    → c < 2 ^ 16
    → decode_peers
        (length es)
        (encode_peers es ++ rest)
        (record { found = front; peers = n; complete = c })
      ≡ (
        record {
          found = front ++ es;
          peers = n + length es;
          complete = (c + sum_by seed es) % 2 ^ 16;
        },
        ok rest,
      )
unfolding encode_peers sum_by
decode_peers-encode_peers [] front n c rest h d fits =
    unfold decode_peers in ground (arith, append-nil front)
decode_peers-encode_peers (e ∷ es) front n c rest (h, hs) d fits =
    let f : Filled = record { found = front; peers = n; complete = c } in
    let c' = (c + seed e.1) % 2 ^ 16 in
    let shift = append_assoc front (e ∷ []) es in
    let fresh = get_front Bytes-discrete e.0 e.1 front es d in
    let ih =
      decode_peers-encode_peers es (front ++ (e ∷ [])) (n + 1) c' rest hs
        (subst (Distinct Bytes-discrete) (sym shift) d) (omega arith) in
    ap (λ b. decode_peers (suc (length es)) b f)
      (append_assoc (encode_peer e) (encode_peers es) rest)
    ∙ decode_peers_step (length es) _ f (decode_peer-encode_peer e (encode_peers es ++ rest) h)
    ∙ ap (decode_peers (length es) (encode_peers es ++ rest)) (fill_new e f fresh fits)
    ∙ ih
    ∙ ground (arith, shift)

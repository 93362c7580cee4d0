-- ===== src/Udp/ConnDb/Binary.antt =====
-- The binary form of the connection database is read back.
use trakx.Common.{
  ℕ, suc, ◌%◌, ◌^◌, ◌<◌, ◌≡◌, refl, sym, ap, ◌∙◌, subst, [], ◌∷◌, ◌++◌, length, length-append, take,
  drop, take-append, drop-append, append_assoc, append-nil, All, arith,
}
use trakx.Common.Assoc.{set, Distinct, get_front, set_new}
use trakx.Common.Bytes.{Bytes, le, of_le-le, length-le}
use trakx.Common.Outcome.{Result, ok, ◌>>=◌, read, read_le, read-append, read_le-le}
use trakx.Storage.Types.{Addr, v4, v6, as_slice}
use trakx.Udp.Protocol.Types.{IsU16, IsU64}
use trakx.Udp.ConnDb.{
  AddrPort, AddrPort-discrete, ConnectionInfo, ConnectionMap, ConnectionDatabase, info_of,
  encode_entry, encode_entries, marshall_binary, decode_addr, decode_entry, decode_entries,
  unmarshall_binary,
}

-- An address that `AddrFromSlice` gives back from its bytes: 4 bytes, or 16 with no zone.
pub data IsPlain : Addr → Type 0 where
  plain4 : (b : Bytes) → length b ≡ 4 → IsPlain (v4 b)
  plain6 : (b : Bytes) → length b ≡ 16 → IsPlain (v6 b [])

pub record IsStorable (e : AddrPort × ConnectionInfo) : Type 0 where
  pub addr : IsPlain e.0.0
  pub port : IsU16 e.0.1
  pub id : IsU64 e.1.id
  pub time_stamp : IsU64 e.1.time_stamp

length-as_slice : (a : Addr) → IsPlain a → length (as_slice a) < 256
length-as_slice a (plain4 b h) = omega (arith, h)
length-as_slice a (plain6 b h) = omega (arith, h)

pub decode_addr-as_slice : (a : Addr) → IsPlain a → decode_addr (as_slice a) ≡ ok a
unfolding decode_addr
decode_addr-as_slice a (plain4 b h) = ground (arith, h)
decode_addr-as_slice a (plain6 b h) = ground (arith, h)

read_info :
    (id time_stamp : ℕ) (rest : Bytes)
    → read 16 (le 8 id ++ (le 8 time_stamp ++ rest)) ≡ ok (le 8 id ++ le 8 time_stamp, rest)
read_info id time_stamp rest =
    ap (read 16) (sym (append_assoc (le 8 id) (le 8 time_stamp) rest))
    ∙ read-append 16 (le 8 id ++ le 8 time_stamp) rest (
        omega (
          arith,
          length-append (le 8 id) (le 8 time_stamp),
          length-le 8 id,
          length-le 8 time_stamp,
        ))

info_of-le :
    (id time_stamp : ℕ)
    → IsU64 id
    → IsU64 time_stamp
    → info_of (le 8 id ++ le 8 time_stamp) ≡ record { id = id; time_stamp = time_stamp }
unfolding info_of
info_of-le id time_stamp h k =
    let front : take 8 (le 8 id ++ le 8 time_stamp) ≡ le 8 id =
      subst (λ n. take n (le 8 id ++ le 8 time_stamp) ≡ le 8 id) (length-le 8 id)
        (take-append (le 8 id) (le 8 time_stamp)) in
    let back : drop 8 (le 8 id ++ le 8 time_stamp) ≡ le 8 time_stamp =
      subst (λ n. drop n (le 8 id ++ le 8 time_stamp) ≡ le 8 time_stamp) (length-le 8 id)
        (drop-append (le 8 id) (le 8 time_stamp)) in
    rw (front, back, of_le-le 8 id h, of_le-le 8 time_stamp k) refl

decode_entry-encode_entry :
    (e : AddrPort × ConnectionInfo) (rest : Bytes)
    → IsStorable e
    → decode_entry (encode_entry e ++ rest) ≡ ok (e, rest)
unfolding decode_entry encode_entry
decode_entry-encode_entry ((a, port), conn) rest h =
    let fits = length-as_slice a h.addr in
    let len : length (as_slice a) % 2 ^ 8 ≡ length (as_slice a) = omega (arith, fits) in
    rw len (
      simp (append_assoc, read_le-le, fits, h.port, h.id, h.time_stamp)
        (rw (read-append (length (as_slice a)) (as_slice a) _ refl) (
          simp (read_le-le, h.port)
            (rw
              (
                read_info conn.id conn.time_stamp rest,
                decode_addr-as_slice a h.addr,
                info_of-le conn.id conn.time_stamp h.id h.time_stamp,
              )
              refl))))

decode_entries_step :
    (n : ℕ) (b : Bytes) (m : ConnectionMap) {e : AddrPort × ConnectionInfo} {rest : Bytes}
    → decode_entry b ≡ ok (e, rest)
    → decode_entries (suc n) b m ≡ decode_entries n rest (set AddrPort-discrete e.0 e.1 m)
unfolding decode_entries
decode_entries_step n b m h = rw (h, decode_entries)

unmarshall_binary_step :
    (b : Bytes) (old : ConnectionDatabase) {n : ℕ} {rest : Bytes} {m : ConnectionMap}
    {r : Result (Unit {0})}
    → read_le 4 b ≡ ok (n, rest)
    → decode_entries n rest [] ≡ (m, r)
    → unmarshall_binary b old ≡ (record old { connection_map = m }, r)
unfolding unmarshall_binary
unmarshall_binary_step b old h k = rw (h, unmarshall_binary) (rw k)

decode_entries-encode_entries :
    (es front : ConnectionMap) (rest : Bytes)
    → All IsStorable es
    → Distinct AddrPort-discrete (front ++ es)
    → decode_entries (length es) (encode_entries es ++ rest) front ≡ (front ++ es, ok tt)
unfolding encode_entries
decode_entries-encode_entries [] front rest h d =
    unfold decode_entries in ap (λ m. (m, ok tt)) (sym (append-nil front))
decode_entries-encode_entries ((k, v) ∷ es) front rest (h, hs) d =
    let shift = append_assoc front ((k, v) ∷ []) es in
    let fresh = get_front AddrPort-discrete k v front es d in
    let ih =
      decode_entries-encode_entries es (front ++ ((k, v) ∷ [])) rest hs
        (subst (Distinct AddrPort-discrete) (sym shift) d) in
    let one = decode_entry-encode_entry (k, v) (encode_entries es ++ rest) h in
    ap (λ b. decode_entries (suc (length es)) b front)
      (append_assoc (encode_entry (k, v)) (encode_entries es) rest)
    ∙ decode_entries_step (length es) (encode_entry (k, v) ++ (encode_entries es ++ rest)) front one
    ∙ ap (decode_entries (length es) (encode_entries es ++ rest))
        (set_new AddrPort-discrete k v front fresh)
    ∙ ih
    ∙ ap (λ m. (m, ok tt)) shift

-- A database whose entries can be stored, with distinct keys and fewer than 2 ^ 32 entries, is
-- read back from its binary form, whatever stood in the receiver's map.
pub unmarshall_binary-marshall_binary :
    (db old : ConnectionDatabase)
    → All IsStorable db.connection_map
    → Distinct AddrPort-discrete db.connection_map
    → length db.connection_map < 2 ^ 32
    → (marshall_binary db >>= λ b. ok (unmarshall_binary b old))
      ≡ ok (record old { connection_map = db.connection_map }, ok tt)
unfolding marshall_binary
unmarshall_binary-marshall_binary db old h d fits =
    let m = db.connection_map in
    let len : length m % 2 ^ 32 ≡ length m = omega (arith, fits) in
    let entries : decode_entries (length m) (encode_entries m) [] ≡ (m, ok tt) =
      rw append-nil at (decode_entries-encode_entries m [] [] h d) in
    ap ok (
      unmarshall_binary_step (le 4 (length m % 2 ^ 32) ++ encode_entries m) old
        (rw len (read_le-le 4 (length m) (encode_entries m) fits)) entries)

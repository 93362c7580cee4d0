-- ===== src/Storage/PeerList/Fill.antt =====
-- Writing entries into a buffer one behind the other.
use trakx.Common.{
  length-append, length-drop, append_assoc, take-append, drop_beyond, le→ltb, ℕ, zero, suc, ◌+◌,
  ◌≡◌, refl, sym, ap, ◌∙◌, false, [], ◌∷◌, ◌++◌, length, take, drop, ◌==◌, ltb, arith,
}
use trakx.Common.Bytes.{Bytes, be, length-be}
use trakx.Common.Outcome.{ok}
use trakx.Storage.Types.{Peer, as_slice}
use trakx.Storage.PeerList.{copy, put, is_full}

copy-append :
    (front rest bs : Bytes) (pos : ℕ)
    → pos ≡ length front
    → copy pos bs (front ++ rest) ≡ (front ++ bs) ++ drop (length bs) rest
unfolding copy
copy-append front rest bs pos h =
    rw (h, take-append front rest, drop_beyond front rest (length bs))
      (sym (append_assoc front bs _))

-- The bytes of `n` entries.
abbrev pub entries_size : ℕ → ℕ → ℕ
entries_size size zero = 0
entries_size size (suc n) = size + 2 + entries_size size n

-- A buffer that is filled with `front` and has room for `n` more entries of an address of `size`
-- bytes and a port.
pub record IsFilled (size n : ℕ) (front : Bytes) (s : Bytes × ℕ) : Type 0 where
  pub rest : Bytes
  pub array : s.0 ≡ front ++ rest
  pub pos : s.1 ≡ length front
  pub room : length rest ≡ entries_size size n

take_whole : (n : ℕ) (xs : Bytes) → length xs ≡ n → take n xs ≡ xs
take_whole zero [] h = refl
take_whole zero (x ∷ xs) h = absurd (omega arith)
take_whole (suc n) [] h = refl
take_whole (suc n) (x ∷ xs) h = ap (◌∷◌ x) (take_whole n xs (omega arith))

pub put-IsFilled :
    (size n : ℕ) (front : Bytes) (peer : Peer) (s : Bytes × ℕ)
    → length (as_slice peer.ip) ≡ size
    → IsFilled size (suc n) front s
    → (s' : Bytes × ℕ) × (put size peer s ≡ ok s')
      × IsFilled size n (front ++ (as_slice peer.ip ++ be 2 peer.port)) s'
put-IsFilled size n front peer (array, pos) len f =
    let a = as_slice peer.ip in
    let b = be 2 peer.port in
    let rest' = drop (length b) (drop (length a) f.rest) in
    let placed : copy pos (take size a) array ≡ (front ++ a) ++ drop (length a) f.rest =
      rw (take_whole size a len, f.array) (copy-append front f.rest a pos f.pos) in
    let next : pos + size ≡ length (front ++ a) =
      omega (arith, length-append front a, f.pos, len) in
    let both : copy (pos + size) b (copy pos (take size a) array) ≡ ((front ++ a) ++ b) ++ rest' =
      rw placed (copy-append (front ++ a) (drop (length a) f.rest) b (pos + size) next) in
    let whole : length array ≡ length front + length f.rest =
      ap length f.array ∙ length-append front f.rest in
    let fits : ltb (length array) (pos + size + 2) ≡ false =
      le→ltb (length array) (pos + size + 2) (omega (arith, whole, f.pos, f.room)) in
    (
      (copy (pos + size) b (copy pos (take size a) array), pos + size + 2),
      unfold put in rw fits,
      record {
        rest = rest';
        array = both ∙ ap (λ x. x ++ rest') (append_assoc front a b);
        pos = omega (
          arith,
          length-append front (a ++ b),
          length-append a b,
          length-be 2 peer.port,
          f.pos,
          len,
        );
        room = omega (
          arith,
          length-drop (length b) (drop (length a) f.rest),
          length-drop (length a) f.rest,
          length-be 2 peer.port,
          f.room,
          len,
        );
      },
    )

pub full-IsFilled :
    (size n : ℕ) (front : Bytes) (s : Bytes × ℕ)
    → IsFilled size n front s
    → is_full size s ≡ (n == 0)
unfolding is_full
full-IsFilled size zero front (array, pos) f =
    let whole : length array ≡ length front + length f.rest =
      ap length f.array ∙ length-append front f.rest in
    ground (arith, whole, f.pos, f.room)
full-IsFilled size (suc n) front (array, pos) f =
    let whole : length array ≡ length front + length f.rest =
      ap length f.array ∙ length-append front f.rest in
    ground (arith, whole, f.pos, f.room)

pub contents-IsFilled :
    (size n : ℕ) (front : Bytes) (s : Bytes × ℕ) → IsFilled size n front s → take s.1 s.0 ≡ front
contents-IsFilled size n front (array, pos) f = rw (f.array, f.pos) (take-append front f.rest)

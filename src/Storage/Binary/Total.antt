-- ===== src/Storage/Binary/Total.antt =====
-- Reading a backup ends on every input.
use trakx.Common.{
  ℕ, zero, suc, ◌≤◌, ◌<◌, ◌^◌, ◌≡◌, subst, [], Option, none, some, length, length-drop, leb,
  Bool-cases, Option-cases, inl, inr, arith,
}
use trakx.Common.Bytes.{Bytes}
use trakx.Common.Outcome.{
  Result, ok, err, panic, eof, ◌>>=◌, read, read_le, split_result, is_ok, is_err, is_panic,
}
use trakx.Storage.Binary.{
  make_read, from_slice, decode_peer, Filled, fill, decode_peers, Decoded, finish_hash, decode_hash,
  decode_loop, decode_binary,
}

-- What is left to read is no longer than `n`.
abbrev NoLonger {ℓ} : {A : Type ℓ} → ℕ → Result (A × Bytes) → Type 0
NoLonger n (ok (a, rest)) = length rest ≤ n
NoLonger n _ = Unit

read-NoLonger : (k n : ℕ) (b : Bytes) → length b ≤ n → NoLonger n (read k b)
unfolding read
read-NoLonger k n b h = elim (Bool-cases (leb k (length b))) [
  | inl e ↦ rw e (omega (arith, length-drop k b))
  | inr e ↦ rw e tt
]

bind-NoLonger :
    {A B : Type 0} (n : ℕ) (m : Result (A × Bytes)) (f : A × Bytes → Result (B × Bytes))
    → NoLonger n m
    → ((a : A) (rest : Bytes) → length rest ≤ n → NoLonger n (f (a, rest)))
    → NoLonger n (m >>= f)
bind-NoLonger n (ok (a, rest)) f h k = k a rest h
bind-NoLonger n (err x) f h k = tt
bind-NoLonger n panic f h k = tt

read_le-NoLonger : (k n : ℕ) (b : Bytes) → length b ≤ n → NoLonger n (read_le k b)
unfolding read_le
read_le-NoLonger k n b h = bind-NoLonger n (read k b) _ (read-NoLonger k n b h) (λ a rest le. le)

make_read-NoLonger : (k n : ℕ) (b : Bytes) → length b ≤ n → NoLonger n (make_read k b)
unfolding make_read
make_read-NoLonger k n b h = elim (Bool-cases (leb (2 ^ 31) k)) [
  | inl e ↦ rw e tt
  | inr e ↦ rw e (read-NoLonger k n b h)
]

from_slice-NoLonger :
    {B : Type 0} (n : ℕ) (b : Bytes) (f : _ → Result (B × Bytes))
    → ((a : _) → NoLonger n (f a))
    → NoLonger n (from_slice b >>= f)
from_slice-NoLonger n b f k = elim (from_slice b) as (λ r. NoLonger n (r >>= f)) [
  | ok a ↦ k a
  | err x ↦ tt
  | panic ↦ tt
]

decode_peer-NoLonger : (n : ℕ) (b : Bytes) → length b ≤ n → NoLonger n (decode_peer b)
unfolding decode_peer
decode_peer-NoLonger n b h = bind-NoLonger n (read 20 b) _ (read-NoLonger 20 n b h) λ id b1 h1.
    bind-NoLonger n (read_le 1 b1) _ (read_le-NoLonger 1 n b1 h1) λ complete b2 h2.
      bind-NoLonger n (read_le 4 b2) _ (read_le-NoLonger 4 n b2 h2) λ len b3 h3.
        bind-NoLonger n (make_read len b3) _ (make_read-NoLonger len n b3 h3) λ slice b4 h4.
          from_slice-NoLonger n slice _ λ ip.
            bind-NoLonger n (read_le 2 b4) _ (read_le-NoLonger 2 n b4 h4) λ port b5 h5.
              bind-NoLonger n (read_le 8 b5) _ (read_le-NoLonger 8 n b5 h5) λ last_seen b6 h6. h6

abbrev LeavesAtMost : ℕ → Result Bytes → Type 0
LeavesAtMost n (ok rest) = length rest ≤ n
LeavesAtMost n _ = Unit

decode_peers-LeavesAtMost :
    (k n : ℕ) (b : Bytes) (f : Filled) → length b ≤ n → LeavesAtMost n (decode_peers k b f).1
unfolding decode_peers
decode_peers-LeavesAtMost zero n b f h = h
decode_peers-LeavesAtMost (suc k) n b f h = elim (split_result (decode_peer b)) [
  | is_ok ((id, p), rest) e ↦
      rw (e, decode_peers)
        (decode_peers-LeavesAtMost k n rest (fill (id, p) f)
          (subst (NoLonger n) e (decode_peer-NoLonger n b h)))
  | is_err x e ↦ rw (e, decode_peers) tt
  | is_panic e ↦ rw (e, decode_peers) tt
]

abbrev NextAtMost : ℕ → Option Bytes → Type 0
NextAtMost n none = Unit
NextAtMost n (some rest) = length rest ≤ n

finish_hash-NextAtMost :
    (n : ℕ) (hash : Bytes) (d : Decoded) (r : Filled × Result Bytes)
    → LeavesAtMost n r.1
    → NextAtMost n (finish_hash hash d r).1
unfolding finish_hash
finish_hash-NextAtMost n hash d (f, ok next) h = h
finish_hash-NextAtMost n hash d (f, err x) h = tt
finish_hash-NextAtMost n hash d (f, panic) h = tt

decode_hash-NextAtMost :
    (n : ℕ) (hash b : Bytes) (d : Decoded) → length b ≤ n → NextAtMost n (decode_hash hash b d).1
unfolding decode_hash
decode_hash-NextAtMost n hash b d h = elim (split_result (read_le 4 b)) [
  | is_ok (count, rest) e ↦
      let f0 : Filled = record { found = []; peers = d.peers; complete = 0 } in
      let le : length rest ≤ n = subst (NoLonger n) e (read_le-NoLonger 4 n b h) in
      rw (e, decode_hash)
        (finish_hash-NextAtMost n hash _ _ (decode_peers-LeavesAtMost count n rest f0 le))
  | is_err x e ↦ rw (e, decode_hash) tt
  | is_panic e ↦ rw (e, decode_hash) tt
]

read_shrinks : (b : Bytes) {x rest : Bytes} → read 20 b ≡ ok (x, rest) → length rest < length b
unfolding read
read_shrinks b e = ground (arith, length-drop 20 b)

decode_loop_total :
    (n : ℕ) (b : Bytes) (d : Decoded)
    → length b < n
    → (d' : Decoded) × (decode_loop n b d ≡ some d')
unfolding decode_loop
decode_loop_total zero b d h = absurd (omega arith)
decode_loop_total (suc n) b d h = elim (split_result (read 20 b)) [
  | is_err eof e ↦ (record d { result = ok tt }, rw (e, decode_loop))
  | is_err x e ↦ (record d { result = err x }, rw (e, decode_loop))
  | is_panic e ↦ (record d { result = panic }, rw (e, decode_loop))
  | is_ok (hash, rest) e ↦
      let shorter = read_shrinks b e in
      let d1 = (decode_hash hash rest d).0 in
      let next = decode_hash-NextAtMost (length rest) hash rest d (omega arith) in
      elim (Option-cases (decode_hash hash rest d).1) [
        | inl x ↦ (d1, rw (e, decode_loop) (rw x))
        | inr (b', x) ↦
            let le : length b' ≤ length rest = subst (NextAtMost (length rest)) x next in
            let (d2, y) = decode_loop_total n b' d1 (omega arith) in
            (d2, rw (e, decode_loop) (rw (x, decode_loop) y))
      ]
]

-- Reading a backup ends with an answer on every input: the loop runs out of its fuel on none.
pub decode_binary_total : (b : Bytes) → (d : Decoded) × (decode_binary b ≡ some d)
unfolding decode_binary
decode_binary_total b = decode_loop_total (suc (length b)) b _ (omega arith)

-- ===== src/Http/Forwarded.antt =====
-- tracker/http/forwarded_appeng.go: `parseForwarded` in the build with the tag `heroku`.
use trakx.Common.{
  ℕ, suc, ◌+◌, ◌≡◌, ◌≢◌, refl, Bool, true, false, [], ◌∷◌, ◌++◌, Option, none, some, length,
  length-append, take, drop, take-append, drop-append, drop_beyond, ltb, ◌==◌, if◌then◌else◌,
  All-append, arith, lt→ltb, le→ltb,
}
use trakx.Common.Bytes.{Bytes, codes}
use trakx.Common.Outcome.{Result, ok, panic}
use trakx.Common.Search.{has_prefix, index, last_index, IsFree, index_lem}
use trakx.Http.Parser.Params.{IsAbsent}
use trakx.Http.Parser.Request.{IsFree-of_absent}

abbrev pub header_key : Bytes
header_key = codes "X-Forwarded-For: "

-- Of a list the last address, which is taken to follow a comma and a space. A slice from behind the
-- end panics.
unfoldable pub last_address : Bytes → Result (Bool × Option Bytes)
last_address value = elim (last_index (codes ",") value) [
  | none ↦ ok (true, some value)
  | some i ↦ if ltb (length value) (i + 2) then panic else ok (true, some (drop (i + 2) value))
]

unfoldable pub parse_forwarded : Bytes → Result (Bool × Option Bytes)
parse_forwarded data_bytes = elim (index header_key data_bytes) [
  | none ↦ ok (false, none)
  | some i ↦
      let from = drop (i + length header_key) data_bytes in
      elim (index (codes "\r\n") from) [
        | none ↦ ok (true, none)
        | some end ↦ last_address (take end from)
      ]
]

last_index_absent : (c : ℕ) (bs : Bytes) → IsAbsent c bs → last_index (c ∷ []) bs ≡ none
unfolding last_index has_prefix
last_index_absent c [] h = refl
last_index_absent c (b ∷ bs) (h, hs) =
    let other : (c == b) ≡ false = ground arith in rw (last_index_absent c bs hs, last_index, other)

last_index_lem :
    (c : ℕ) (front tail : Bytes)
    → IsAbsent c tail
    → last_index (c ∷ []) (front ++ (c ∷ tail)) ≡ some (length front)
unfolding last_index has_prefix
last_index_lem c [] tail h =
    let same : (c == c) ≡ true = ground arith in rw (last_index_absent c tail h, last_index, same)
last_index_lem c (b ∷ front) tail h = rw (last_index_lem c front tail h, last_index)

last_address_lem :
    (front tail : Bytes)
    → IsAbsent b',' tail
    → last_address (front ++ (b',' ∷ tail))
      ≡ (if length tail == 0 then panic else ok (true, some (drop 1 tail)))
unfolding last_address
last_address_lem front [] h =
    let short : ltb (length (front ++ (b',' ∷ []))) (length front + 2) ≡ true =
      lt→ltb _ _ (omega (arith, length-append front (b',' ∷ []))) in
    rw (last_index_lem b',' front [] h, last_address, short)
last_address_lem front (t ∷ tail) h =
    let long : ltb (length (front ++ (b',' ∷ t ∷ tail))) (length front + 2) ≡ false =
      le→ltb _ _ (omega (arith, length-append front (b',' ∷ t ∷ tail))) in
    let behind : drop (length front + 2) (front ++ (b',' ∷ t ∷ tail)) ≡ tail =
      drop_beyond front (b',' ∷ t ∷ tail) 2 in
    let some_left : (suc (length tail) == 0) ≡ false = ground arith in
    rw (last_index_lem b',' front (t ∷ tail) h, last_address, long, behind, some_left)

-- When the first `X-Forwarded-For` of the buffer has a list of addresses, with no carriage return in
-- it, what stands behind the last comma and one byte more is taken for the address. A list that ends
-- in its comma panics.
pub parse_forwarded_lem :
    (before front tail rest : Bytes)
    → IsFree header_key before (header_key ++ ((front ++ (b',' ∷ tail)) ++ (codes "\r\n" ++ rest)))
    → IsAbsent b'\r' front
    → IsAbsent b'\r' tail
    → IsAbsent b',' tail
    → parse_forwarded
        (before ++ (header_key ++ ((front ++ (b',' ∷ tail)) ++ (codes "\r\n" ++ rest))))
      ≡ (if length tail == 0 then panic else ok (true, some (drop 1 tail)))
unfolding parse_forwarded
parse_forwarded_lem before front tail rest f a b c =
    let value = front ++ (b',' ∷ tail) in
    let from = value ++ (codes "\r\n" ++ rest) in
    let start : drop (length before + length header_key) (before ++ (header_key ++ from)) ≡ from =
      rw (drop_beyond before (header_key ++ from) (length header_key))
        (drop-append header_key from) in
    let ended : index (codes "\r\n") from ≡ some (length value) =
      index_lem (codes "\r\n") value rest (
        IsFree-of_absent b'\r' (codes "\n") value (codes "\r\n" ++ rest)
          (All-append (λ x. x ≢ b'\r') front (b',' ∷ tail) a (omega arith, b))) in
    rw (index_lem header_key before from f, parse_forwarded)
      (rw start (
        rw ended (
          rw start
            (rw (take-append value (codes "\r\n" ++ rest)) (last_address_lem front tail c)))))

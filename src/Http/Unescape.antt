-- ===== src/Http/Unescape.antt =====
-- `fromHexChar` and `unescapeFast` of tracker/http/parser.go, against percent-decoding as it is
-- defined: each `%` and the two digits behind it stand for one byte.
pub mod Digits
pub mod Decodes
pub mod Escaped
use trakx.Common.{
  ℕ, zero, suc, ◌+◌, ◌-◌, ◌*◌, ◌≤◌, ◌<◌, ◌≡◌, refl, sym, ap, ◌∙◌, Bool, true, false, ◌&&◌, List, [],
  ◌∷◌, ◌++◌, Option, none, some, map, length, length-append, All, le→ltb, lt→ltb, le→leb, lt→leb,
  set, get_or, take, take-append, append_assoc, append-nil, ◌==◌, leb, ltb, if◌then◌else◌, arith,
  Bool-cases, inl, inr,
}
use trakx.Common.Bytes.{Bytes, codes}
use mathlib.Core.Option

unfoldable pub from_hex_char : ℕ → ℕ
from_hex_char c =
    if leb b'0' c && leb c b'9'
    then c - b'0'
    else if leb b'a' c && leb c b'f'
    then c - b'a' + 10
    else if leb b'A' c && leb c b'F'
    then c - b'A' + 10
    else 0

-- `(a << 4) | b` of two numbers below 16.
abbrev pub hex_byte : ℕ → ℕ → ℕ
hex_byte h k = from_hex_char h * 16 + from_hex_char k

-- The inner loop: `rounds` times from `x`, `bs[x+1] = bs[x+3]`.
unfoldable pub shift_left : ℕ → ℕ → Bytes → Bytes
shift_left zero x bs = bs
shift_left (suc rounds) x bs = shift_left rounds (x + 1) (set bs (x + 1) (get_or bs (x + 3) 0))

-- The outer loop at `i`, with `l` bytes of `bs` still meant. A round takes one from `l - i` at
-- least, so as many rounds as there are bytes are enough. The result is `bs[:l]`.
unfoldable pub unescape_loop : ℕ → ℕ → ℕ → Bytes → Option Bytes
unescape_loop zero i l bs = some (take l bs)
unescape_loop (suc rounds) i l bs = elim (ltb i l) [
  | false ↦ some (take l bs)
  | true ↦ elim (get_or bs i 0 == b'%') [
    | false ↦ unescape_loop rounds (i + 1) l bs
    | true ↦ elim (leb l (i + 2)) [
      | true ↦ none
      | false ↦
          let v = hex_byte (get_or bs (i + 1) 0) (get_or bs (i + 2) 0) in
          let shifted = shift_left (length bs - 3 - i) i (set bs i v) in
          unescape_loop rounds (i + 1) (l - 2) shifted
    ]
  ]
]

-- A slice, with `none` for nil: nil stays nil, and nil is also the answer to a bad escape.
unfoldable pub unescape_fast : Option Bytes → Option Bytes
unescape_fast none = none
unescape_fast (some bs) = unescape_loop (length bs) 0 (length bs) bs

-- The place of a digit among the digits, from `n`, with 0 for a byte that is none of them.
unfoldable pub place_in : ℕ → Bytes → ℕ → ℕ
place_in c [] n = 0
place_in c (d ∷ ds) n = let later = place_in c ds (n + 1) in if c == d then n else later

-- The value of a hexadecimal digit, in either case; any other byte counts as 0.
abbrev pub digit_value : ℕ → ℕ
digit_value c = place_in c (codes "0123456789abcdef") 0 + place_in c (codes "ABCDEF") 10

-- The byte that two digits stand for.
abbrev pub escaped_byte : ℕ → ℕ → ℕ
escaped_byte h k = 16 * digit_value h + digit_value k

-- The definition: the bytes from left to right.
unfoldable pub percent_decode : Bytes → Option Bytes
percent_decode [] = some []
percent_decode (c ∷ []) = if c == b'%' then none else some (c ∷ [])
percent_decode (c ∷ h ∷ []) =
    if c == b'%' then none else Option.map (◌∷◌ c) (percent_decode (h ∷ []))
percent_decode (c ∷ h ∷ k ∷ cs) = elim (c == b'%') [
  | true ↦ Option.map (◌∷◌ (escaped_byte h k)) (percent_decode cs)
  | false ↦ Option.map (◌∷◌ c) (percent_decode (h ∷ k ∷ cs))
]

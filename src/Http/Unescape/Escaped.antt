-- ===== src/Http/Unescape/Escaped.antt =====
-- What a client escapes is what the tracker reads.
use trakx.Common.{
  ℕ, ◌+◌, ◌-◌, ◌/◌, ◌%◌, ◌<◌, ◌≡◌, refl, ap, ◌∙◌, Bool, true, false, ◌&&◌, ◌||◌, [], ◌∷◌, some,
  ◌==◌, leb, ltb, if◌then◌else◌, All, arith, Bool-cases, inl, inr,
}
use trakx.Common.Bytes.{Bytes, IsByte}
use mathlib.Core.Option
use trakx.Http.Unescape.{from_hex_char, hex_byte, unescape_fast, percent_decode}
use trakx.Http.Unescape.Decodes.{
  unescape_fast-percent_decode, percent_decode_plain, percent_decode_escape,
}

abbrev hex_digit : ℕ → ℕ
hex_digit n = if ltb n 10 then b'0' + n else b'a' + (n - 10)

-- What needs no escape: letters, digits, and four marks.
abbrev is_unreserved : ℕ → Bool
is_unreserved c =
    (leb b'0' c && leb c b'9')
    || (leb b'a' c && leb c b'z')
    || (leb b'A' c && leb c b'Z')
    || (c == b'-')
    || (c == b'.')
    || (c == b'_')
    || (c == b'~')

unfoldable pub escape : Bytes → Bytes
escape [] = []
escape (c ∷ cs) =
    if is_unreserved c
    then c ∷ escape cs
    else b'%' ∷ hex_digit (c / 16) ∷ hex_digit (c % 16) ∷ escape cs

hex_digit_back : (n : ℕ) → n < 16 → from_hex_char (hex_digit n) ≡ n
unfolding from_hex_char
hex_digit_back n h = ground arith

hex_byte_back : (c : ℕ) → IsByte c → hex_byte (hex_digit (c / 16)) (hex_digit (c % 16)) ≡ c
hex_byte_back c h =
    let high : c / 16 < 16 = omega arith in
    let low : c % 16 < 16 = omega arith in
    omega (arith, hex_digit_back (c / 16) high, hex_digit_back (c % 16) low)

plain_of_unreserved : (c : ℕ) → is_unreserved c ≡ true → (c == b'%') ≡ false
plain_of_unreserved c e = ground arith

percent_decode-escape : (bs : Bytes) → All IsByte bs → percent_decode (escape bs) ≡ some bs
unfolding escape
percent_decode-escape [] h = unfold percent_decode in refl
percent_decode-escape (c ∷ cs) (h, hs) = elim (Bool-cases (is_unreserved c)) [
  | inl e ↦ rw e (
      percent_decode_plain c (escape cs) (plain_of_unreserved c e)
      ∙ ap (Option.map (◌∷◌ c)) (percent_decode-escape cs hs))
  | inr e ↦ rw e (
      percent_decode_escape b'%' (hex_digit (c / 16)) (hex_digit (c % 16)) (escape cs) refl
      ∙ ap (Option.map (◌∷◌ _)) (percent_decode-escape cs hs)
      ∙ ap (λ x. some (x ∷ cs)) (hex_byte_back c h))
]

-- Any bytes that a client escapes, those of an infohash for example, are read back.
unescape_fast-escape : (bs : Bytes) → All IsByte bs → unescape_fast (some (escape bs)) ≡ some bs
unescape_fast-escape bs h = unescape_fast-percent_decode (escape bs) ∙ percent_decode-escape bs h

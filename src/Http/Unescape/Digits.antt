-- ===== src/Http/Unescape/Digits.antt =====
-- `fromHexChar` gives the value of a digit: below 128 by trying each byte, above it both are 0.
use trakx.Common.{
  ℕ, zero, suc, ◌+◌, ◌≤◌, ◌<◌, ◌≡◌, ◌≢◌, refl, Bool, true, false, ◌&&◌, [], ◌∷◌, All, ◌==◌, ltb,
  arith, Bool-cases, inl, inr,
}
use trakx.Common.Bytes.{Bytes, codes}
use trakx.Http.Unescape.{from_hex_char, hex_byte, place_in, digit_value, escaped_byte}

unfoldable agrees_below : ℕ → Bool
agrees_below zero = true
agrees_below (suc n) = (from_hex_char n == digit_value n) && agrees_below n

ascii : agrees_below 128 ≡ true
unfolding agrees_below from_hex_char place_in
ascii = refl

agrees : (n c : ℕ) → agrees_below n ≡ true → c < n → from_hex_char c ≡ digit_value c
unfolding agrees_below
agrees zero c e h = absurd (omega arith)
agrees (suc n) c e h = elim (Bool-cases (c == n)) [
  | inl same ↦ let p : c ≡ n = ground (arith, same) in rw p (ground (arith, e))
  | inr other ↦
      agrees n c (ground (arith, e)) (let q : c ≢ n = ground (arith, other) in omega (arith, h, q))
]

place_in-none : (c : ℕ) (ds : Bytes) (n : ℕ) → All (λ d. d < c) ds → place_in c ds n ≡ 0
unfolding place_in
place_in-none c [] n h = refl
place_in-none c (d ∷ ds) n (h, hs) =
    let ne : (c == d) ≡ false = ground (arith, h) in rw ne (place_in-none c ds (n + 1) hs)

from_hex_char-digit_value : (c : ℕ) → from_hex_char c ≡ digit_value c
from_hex_char-digit_value c = elim (Bool-cases (ltb c 128)) [
  | inl e ↦ agrees 128 c ascii (ground (arith, e))
  | inr e ↦
      let h : 128 ≤ c = ground (arith, e) in
      let zero_code : from_hex_char c ≡ 0 = unfold from_hex_char in ground (arith, h) in
      rw
        (
          zero_code,
          place_in-none c (codes "0123456789abcdef") 0 (omega (arith, h)),
          place_in-none c (codes "ABCDEF") 10 (omega (arith, h)),
        )
        refl
]

pub hex_byte-escaped_byte : (h k : ℕ) → hex_byte h k ≡ escaped_byte h k
hex_byte-escaped_byte h k = omega (arith, from_hex_char-digit_value h, from_hex_char-digit_value k)

-- ===== src/Strconv.antt =====
-- `strconv.Atoi` of the standard library: a sign or none, decimal digits, and the bounds of an
-- `int64`. `none` is its error.
use trakx.Common.{
  ℕ, zero, suc, ◌+◌, ◌-◌, ◌*◌, ◌^◌, ◌<◌, ◌≡◌, refl, sym, ap, ◌∙◌, subst, false, ◌&&◌, [], ◌∷◌,
  Option, none, some, All, leb, ltb, ◌==◌, if◌then◌else◌, arith, le→leb, lt→ltb,
}
use trakx.Common.Bytes.{Bytes}
use trakx.Bencoding.Decimal.{
  ℤ, pos, negsuc, itoa, format_int, value_of, IsDigit, itoa_value, itoa_digits, itoa_head,
}

unfoldable pub parse_digits : ℕ → Bytes → Option ℕ
parse_digits acc [] = some acc
parse_digits acc (c ∷ cs) =
    if leb b'0' c && leb c b'9' then parse_digits (acc * 10 + (c - b'0')) cs else none

-- `none` for no digits at all.
unfoldable pub parse_unsigned : Bytes → Option ℕ
parse_unsigned [] = none
parse_unsigned (c ∷ cs) = parse_digits 0 (c ∷ cs)

abbrev pub negative : ℕ → ℤ
negative zero = pos 0
negative (suc n) = negsuc n

unfoldable pub atoi : Bytes → Option ℤ
atoi [] = none
atoi (c ∷ cs) =
    if c == b'-'
    then elim (parse_unsigned cs) [
      | none ↦ none
      | some n ↦ if leb n (2 ^ 63) then some (negative n) else none
    ]
    else elim (parse_unsigned (if c == b'+' then cs else c ∷ cs)) [
      | none ↦ none
      | some n ↦ if ltb n (2 ^ 63) then some (pos n) else none
    ]

parse_digits_lem :
    (acc : ℕ) (cs : Bytes) → All IsDigit cs → parse_digits acc cs ≡ some (value_of acc cs)
unfolding parse_digits
parse_digits_lem acc [] h = refl
parse_digits_lem acc (c ∷ cs) (h, hs) =
    ground (arith, parse_digits_lem (acc * 10 + (c - b'0')) cs hs)

parse_unsigned-itoa : (n : ℕ) → parse_unsigned (itoa n) ≡ some n
unfolding parse_unsigned
parse_unsigned-itoa n =
    let (d, ds, e, h) = itoa_head n in
    rw e (
      parse_digits_lem 0 (d ∷ ds) (subst (All IsDigit) e (itoa_digits n))
      ∙ ap some (ap (value_of 0) (sym e) ∙ itoa_value n))

-- An `int64`.
abbrev pub IsInt64 : ℤ → Type 0
IsInt64 (pos n) = n < 2 ^ 63
IsInt64 (negsuc n) = n < 2 ^ 63

atoi_negative :
    (cs : Bytes) {n : ℕ}
    → parse_unsigned cs ≡ some (suc n)
    → n < 2 ^ 63
    → atoi (b'-' ∷ cs) ≡ some (negsuc n)
unfolding atoi
atoi_negative cs {n} e h = rw (e, atoi, le→leb (suc n) (2 ^ 63) (omega (arith, h)))

atoi_plain :
    (c : ℕ) (cs : Bytes) {n : ℕ}
    → IsDigit c
    → parse_unsigned (c ∷ cs) ≡ some n
    → n < 2 ^ 63
    → atoi (c ∷ cs) ≡ some (pos n)
unfolding atoi
atoi_plain c cs {n} d e h =
    let m : (c == b'-') ≡ false = ground arith in
    let p : (c == b'+') ≡ false = ground arith in rw (m, atoi, p, e, lt→ltb n (2 ^ 63) h)

-- What is printed is read back.
pub atoi-format_int : (z : ℤ) → IsInt64 z → atoi (format_int z) ≡ some z
unfolding format_int
atoi-format_int (pos n) h =
    let (d, ds, e, digit) = itoa_head n in
    ap atoi e ∙ atoi_plain d ds digit (ap parse_unsigned (sym e) ∙ parse_unsigned-itoa n) h
atoi-format_int (negsuc n) h = atoi_negative (itoa (suc n)) (parse_unsigned-itoa (suc n)) h

-- ===== src/Bencoding/Decimal.antt =====
-- `strconv.FormatInt(v, 10)` and `strconv.Itoa` of the standard library, and the numbers that
-- decimal digits stand for. `negsuc n` is -(n + 1).
use trakx.Common.{
  ℕ, zero, suc, ◌+◌, ◌*◌, ◌-◌, ◌/◌, ◌%◌, ◌≤◌, ◌<◌, ◌≡◌, refl, [], ◌∷◌, ◌++◌, All, All-append, ltb,
  if◌then◌else◌, arith, Bool-cases, inl, inr, subst,
}
use trakx.Common.Bytes.{Bytes}

pub data ℤ : Type 0 where
  pos : ℕ → ℤ
  negsuc : ℕ → ℤ

-- The digits of `n`, highest first, by at most `fuel` divisions.
unfoldable pub digits_fuel : ℕ → ℕ → Bytes
digits_fuel zero n = []
digits_fuel (suc fuel) n =
    let rest = digits_fuel fuel (n / 10) ++ ((b'0' + n % 10) ∷ []) in
    if ltb n 10 then (b'0' + n) ∷ [] else rest

-- Each division shrinks the number, so `n` of them and one more suffice.
unfoldable pub itoa : ℕ → Bytes
unfolding digits_fuel
itoa n = digits_fuel (suc n) n

unfoldable pub format_int : ℤ → Bytes
format_int (pos n) = itoa n
format_int (negsuc n) = b'-' ∷ itoa (suc n)

-- The number that digits stand for, behind the value `acc` of the digits before them.
abbrev pub value_of : ℕ → Bytes → ℕ
value_of acc [] = acc
value_of acc (d ∷ ds) = value_of (acc * 10 + (d - b'0')) ds

abbrev pub IsDigit : ℕ → Type 0
IsDigit d = (b'0' ≤ d) × (d ≤ b'9')

value_of-append :
    (acc : ℕ) (xs ys : Bytes) → value_of acc (xs ++ ys) ≡ value_of (value_of acc xs) ys
value_of-append acc [] ys = refl
value_of-append acc (x ∷ xs) ys = value_of-append (acc * 10 + (x - b'0')) xs ys

digits_fuel_value : (fuel n : ℕ) → n < fuel → value_of 0 (digits_fuel fuel n) ≡ n
unfolding digits_fuel
digits_fuel_value zero n h = absurd (omega arith)
digits_fuel_value (suc fuel) n h = ground (
  arith,
  digits_fuel_value fuel (n / 10),
  value_of-append 0 (digits_fuel fuel (n / 10)) ((b'0' + n % 10) ∷ []),
)

digits_fuel_digits : (fuel n : ℕ) → All IsDigit (digits_fuel fuel n)
unfolding digits_fuel
digits_fuel_digits zero n = tt
digits_fuel_digits (suc fuel) n = ground (
  arith,
  All-append IsDigit (digits_fuel fuel (n / 10)) ((b'0' + n % 10) ∷ [])
      (digits_fuel_digits fuel (n / 10)) (omega arith),
)

-- Decimal digits, none but for a zero alone leading, that stand for the number.
pub itoa_value : (n : ℕ) → value_of 0 (itoa n) ≡ n
unfolding itoa
itoa_value n = digits_fuel_value (suc n) n (omega arith)

pub itoa_digits : (n : ℕ) → All IsDigit (itoa n)
unfolding itoa
itoa_digits n = digits_fuel_digits (suc n) n

snoc_head : (xs : Bytes) (y : ℕ) → (d : ℕ) × (ds : Bytes) × (xs ++ (y ∷ []) ≡ d ∷ ds)
snoc_head [] y = (y, [], refl)
snoc_head (x ∷ xs) y = (x, xs ++ (y ∷ []), refl)

itoa_cons : (n : ℕ) → (d : ℕ) × (ds : Bytes) × (itoa n ≡ d ∷ ds)
unfolding itoa
itoa_cons n = elim (Bool-cases (ltb n 10)) [
  | inl small ↦ (b'0' + n, [], rw small)
  | inr large ↦
      let (d, ds, e) = snoc_head (digits_fuel n (n / 10)) (b'0' + n % 10) in (d, ds, rw large e)
]

-- The first digit, and the rest.
pub itoa_head : (n : ℕ) → (d : ℕ) × (ds : Bytes) × (itoa n ≡ d ∷ ds) × IsDigit d
itoa_head n =
    let (d, ds, e) = itoa_cons n in
    let digits : All IsDigit (d ∷ ds) = subst (All IsDigit) e (itoa_digits n) in
    (d, ds, e, digits.0)

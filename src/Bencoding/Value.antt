-- ===== src/Bencoding/Value.antt =====
-- The bencoding itself, as BEP 3 describes it: values, how they are written, and a reader.
-- It is the independent description that the writer is held to.
pub mod RoundTrip
use trakx.Common.{
  ℕ, zero, suc, ◌+◌, ◌*◌, ◌-◌, List, [], ◌∷◌, ◌++◌, Bool, ◌&&◌, Option, none, some, length, take,
  drop, leb, ◌==◌, if◌then◌else◌,
}
use trakx.Common.Bytes.{Bytes}
use trakx.Bencoding.Decimal.{ℤ, pos, negsuc, itoa, format_int}

mutual
  pub data Value : Type 0 where
    str : Bytes → Value
    int : ℤ → Value
    list : Items → Value
    dict : Fields → Value

  pub data Items : Type 0 where
    nil : Items
    cons : Value → Items → Items

  pub data Fields : Type 0 where
    end : Fields
    field : Bytes → Value → Fields → Fields

abbrev pub encode_str : Bytes → Bytes
encode_str s = itoa (length s) ++ (b':' ∷ s)

unfoldable mutual
  pub encode : Value → Bytes
  encode (str s) = encode_str s
  encode (int z) = b'i' ∷ (format_int z ++ (b'e' ∷ []))
  encode (list xs) = b'l' ∷ (encode_items xs ++ (b'e' ∷ []))
  encode (dict fs) = b'd' ∷ (encode_fields fs ++ (b'e' ∷ []))

  pub encode_items : Items → Bytes
  encode_items nil = []
  encode_items (cons x xs) = encode x ++ encode_items xs

  pub encode_fields : Fields → Bytes
  encode_fields end = []
  encode_fields (field k v fs) = encode_str k ++ (encode v ++ encode_fields fs)

infixl 5 ◌>>=◌
abbrev pub ◌>>=◌ {ℓ κ} : {A : Type ℓ} {B : Type κ} → Option A → (A → Option B) → Option B
none >>= f = none
some a >>= f = f a

abbrev pub is_digit : ℕ → Bool
is_digit c = leb b'0' c && leb c b'9'

-- The digits in front, as a number behind `acc`, and what follows them.
unfoldable pub scan : ℕ → Bytes → ℕ × Bytes
scan acc [] = (acc, [])
scan acc (c ∷ r) = if is_digit c then scan (acc * 10 + (c - b'0')) r else (acc, c ∷ r)

-- The byte that has to stand in front.
unfoldable pub expect : ℕ → Bytes → Option Bytes
expect c [] = none
expect c (b ∷ r) = if b == c then some r else none

unfoldable pub decode_str : Bytes → Option (Bytes × Bytes)
decode_str b =
    let s = scan 0 b in
    expect b':' s.1 >>= λ r. if leb s.0 (length r) then some (take s.0 r, drop s.0 r) else none

unfoldable pub decode_int : Bytes → Option (ℤ × Bytes)
decode_int [] = none
decode_int (c ∷ r) =
    let s = scan 0 (if c == b'-' then r else c ∷ r) in
    expect b'e' s.1 >>= λ t. some (if c == b'-' then negsuc (s.0 - 1) else pos s.0, t)

unfoldable mutual
  pub decode : ℕ → Bytes → Option (Value × Bytes)
  decode zero b = none
  decode (suc f) [] = none
  decode (suc f) (c ∷ r) =
      let l = decode_items f r >>= λ p. some (list p.0, p.1) in
      let d = decode_fields f r >>= λ p. some (dict p.0, p.1) in
      if c == b'i'
      then (decode_int r >>= λ p. some (int p.0, p.1))
      else if c == b'l'
      then l
      else if c == b'd'
      then d
      else (decode_str (c ∷ r) >>= λ p. some (str p.0, p.1))

  pub decode_items : ℕ → Bytes → Option (Items × Bytes)
  decode_items zero b = none
  decode_items (suc f) [] = none
  decode_items (suc f) (c ∷ r) =
      let more = decode f (c ∷ r) >>= λ p. decode_items f p.1 >>= λ q. some (cons p.0 q.0, q.1) in
      if c == b'e' then some (nil, r) else more

  pub decode_fields : ℕ → Bytes → Option (Fields × Bytes)
  decode_fields zero b = none
  decode_fields (suc f) [] = none
  decode_fields (suc f) (c ∷ r) =
      let more = decode_str (c ∷ r) >>= λ k.
      decode f k.1 >>= λ v. decode_fields f v.1 >>= λ q. some (field k.0 v.0 q.0, q.1) in
      if c == b'e' then some (end, r) else more

-- How deep and long a value is: the fuel that reading it takes.
unfoldable mutual
  pub size : Value → ℕ
  size (str s) = 1
  size (int z) = 1
  size (list xs) = 1 + size_items xs
  size (dict fs) = 1 + size_fields fs

  pub size_items : Items → ℕ
  size_items nil = 1
  size_items (cons x xs) = 1 + (size x + size_items xs)

  pub size_fields : Fields → ℕ
  size_fields end = 1
  size_fields (field k v fs) = 1 + (size v + size_fields fs)

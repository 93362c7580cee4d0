-- ===== src/Bencoding/Value/RoundTrip.antt =====
-- A value that is written is read back.
use trakx.Common.{
  ℕ, zero, suc, ◌+◌, ◌*◌, ◌-◌, ◌≤◌, ◌≡◌, refl, ap, ◌∙◌, [], ◌∷◌, ◌++◌, some, length, ◌==◌, All,
  arith, append_assoc, take-append, drop-append, length-append, le→leb, false,
}
use trakx.Common.Bytes.{Bytes}
use trakx.Bencoding.Decimal.{
  ℤ, pos, negsuc, itoa, format_int, IsDigit, value_of, itoa_value, itoa_digits, itoa_head,
}
use trakx.Bencoding.Value.{
  Value, Items, Fields, str, int, list, dict, nil, cons, end, field, encode_str, encode,
  encode_items, encode_fields, ◌>>=◌, is_digit, scan, expect, decode_str, decode_int, decode,
  decode_items, decode_fields, size, size_items, size_fields,
}

scan-digits :
    (acc : ℕ) (ds : Bytes) (c : ℕ) (r : Bytes)
    → All IsDigit ds
    → is_digit c ≡ false
    → scan acc (ds ++ (c ∷ r)) ≡ (value_of acc ds, c ∷ r)
unfolding scan
scan-digits acc [] c r h n = rw n
scan-digits acc (d ∷ ds) c r h n = ground (arith, scan-digits (acc * 10 + (d - b'0')) ds c r)

scan-itoa : (n c : ℕ) (r : Bytes) → is_digit c ≡ false → scan 0 (itoa n ++ (c ∷ r)) ≡ (n, c ∷ r)
scan-itoa n c r h =
    scan-digits 0 (itoa n) c r (itoa_digits n) h ∙ ap (λ k. (k, c ∷ r)) (itoa_value n)

decode_str-encode_str : (s r : Bytes) → decode_str (encode_str s ++ r) ≡ some (s, r)
unfolding decode_str expect
decode_str-encode_str s r =
    rw (append_assoc, scan-itoa (length s) b':' (s ++ r) refl)
      (rw (
        le→leb (length s) (length (s ++ r)) (omega (arith, length-append s r)),
        take-append,
        drop-append,
      ))

-- Reading a number that does not begin with a minus sign.
decode_int_unsigned :
    (n d : ℕ) (ds r : Bytes)
    → itoa n ≡ d ∷ ds
    → IsDigit d
    → decode_int ((d ∷ ds) ++ (b'e' ∷ r)) ≡ some (pos n, r)
unfolding decode_int expect
decode_int_unsigned n d ds r e h =
    let plain : (d == b'-') ≡ false = ground arith in
    let scanned : scan 0 (d ∷ (ds ++ (b'e' ∷ r))) ≡ (n, b'e' ∷ r) =
      rw e at (scan-itoa n b'e' r refl) in
    rw (plain, scanned)

decode_int-format_int : (z : ℤ) (r : Bytes) → decode_int (format_int z ++ (b'e' ∷ r)) ≡ some (z, r)
unfolding format_int
decode_int-format_int (pos n) r =
    let (d, ds, e, h) = itoa_head n in rw e (decode_int_unsigned n d ds r e h)
decode_int-format_int (negsuc n) r =
    unfold decode_int expect in
    rw (scan-itoa (suc n) b'e' r refl) (ap (λ k. some (negsuc k, r)) (omega arith))

-- A written value begins with "i", "l", "d" or a digit, so not with "e".
encode_head : (v : Value) → (c : ℕ) × (r : Bytes) × (encode v ≡ c ∷ r) × ((c == b'e') ≡ false)
unfolding encode
encode_head (str s) =
    let (d, ds, e, h) = itoa_head (length s) in (d, ds ++ (b':' ∷ s), rw e, ground arith)
encode_head (int z) = (b'i', format_int z ++ (b'e' ∷ []), refl, refl)
encode_head (list xs) = (b'l', encode_items xs ++ (b'e' ∷ []), refl, refl)
encode_head (dict fs) = (b'd', encode_fields fs ++ (b'e' ∷ []), refl, refl)

decode_digit :
    (f d : ℕ) (b : Bytes)
    → IsDigit d
    → decode (suc f) (d ∷ b) ≡ (decode_str (d ∷ b) >>= λ p. some (str p.0, p.1))
unfolding decode
decode_digit f d b h =
    let not_i : (d == b'i') ≡ false = ground arith in
    let not_l : (d == b'l') ≡ false = ground arith in
    let not_d : (d == b'd') ≡ false = ground arith in rw (not_i, not_l, not_d)

str_back : (f : ℕ) (s r : Bytes) → decode (suc f) (encode_str s ++ r) ≡ some (str s, r)
str_back f s r =
    let (d, ds, e, h) = itoa_head (length s) in
    let split : encode_str s ++ r ≡ d ∷ ((ds ++ (b':' ∷ s)) ++ r) = rw e in
    let read_back : decode_str (d ∷ ((ds ++ (b':' ∷ s)) ++ r)) ≡ some (s, r) =
      rw split at (decode_str-encode_str s r) in
    ap (decode (suc f)) split ∙ decode_digit f d ((ds ++ (b':' ∷ s)) ++ r) h ∙ rw read_back

-- One more item in front, and one more field.
items_step :
    (f c : ℕ) (t : Bytes) {v : Value} {xs : Items} {r1 r2 : Bytes}
    → (c == b'e') ≡ false
    → decode f (c ∷ t) ≡ some (v, r1)
    → decode_items f r1 ≡ some (xs, r2)
    → decode_items (suc f) (c ∷ t) ≡ some (cons v xs, r2)
items_step f c t h e1 e2 = unfold decode_items in rw (h, e1, e2)

fields_step :
    (f c : ℕ) (t : Bytes) {k : Bytes} {v : Value} {fs : Fields} {r0 r1 r2 : Bytes}
    → (c == b'e') ≡ false
    → decode_str (c ∷ t) ≡ some (k, r0)
    → decode f r0 ≡ some (v, r1)
    → decode_fields f r1 ≡ some (fs, r2)
    → decode_fields (suc f) (c ∷ t) ≡ some (field k v fs, r2)
fields_step f c t h e0 e1 e2 = unfold decode_fields in rw (h, e0, e1, e2)

cons_case :
    (f : ℕ) (x : Value) (xs : Items) (r : Bytes)
    → ((q : Bytes) → decode f (encode x ++ q) ≡ some (x, q))
    → decode_items f (encode_items xs ++ (b'e' ∷ r)) ≡ some (xs, r)
    → decode_items (suc f) ((encode x ++ encode_items xs) ++ (b'e' ∷ r)) ≡ some (cons x xs, r)
cons_case f x xs r one rest =
    let (c, t, e, n) = encode_head x in
    let q = encode_items xs ++ (b'e' ∷ r) in
    let first : decode f (c ∷ (t ++ q)) ≡ some (x, q) = rw e at (one q) in
    rw (append_assoc, e) (items_step f c (t ++ q) n first rest)

field_case :
    (f : ℕ) (k : Bytes) (v : Value) (fs : Fields) (r : Bytes)
    → ((q : Bytes) → decode f (encode v ++ q) ≡ some (v, q))
    → decode_fields f (encode_fields fs ++ (b'e' ∷ r)) ≡ some (fs, r)
    → decode_fields (suc f) ((encode_str k ++ (encode v ++ encode_fields fs)) ++ (b'e' ∷ r))
      ≡ some (field k v fs, r)
field_case f k v fs r one rest =
    let (d, ds, e, h) = itoa_head (length k) in
    let q = encode_fields fs ++ (b'e' ∷ r) in
    let t = (ds ++ (b':' ∷ k)) ++ (encode v ++ q) in
    let split : encode_str k ++ (encode v ++ q) ≡ d ∷ t = rw e in
    let key : decode_str (d ∷ t) ≡ some (k, encode v ++ q) =
      rw split at (decode_str-encode_str k (encode v ++ q)) in
    let bracket : (encode_str k ++ (encode v ++ encode_fields fs)) ++ (b'e' ∷ r)
        ≡ encode_str k ++ (encode v ++ q) =
      simp append_assoc in
    ap (decode_fields (suc f)) (bracket ∙ split) ∙ fields_step f d t (ground arith) key (one q) rest

int_case :
    (f : ℕ) (z : ℤ) (r : Bytes)
    → decode (suc f) (b'i' ∷ ((format_int z ++ (b'e' ∷ [])) ++ r)) ≡ some (int z, r)
int_case f z r = unfold decode in rw (append_assoc, decode_int-format_int z r)

list_case :
    (f : ℕ) (xs : Items) (r : Bytes)
    → decode_items f (encode_items xs ++ (b'e' ∷ r)) ≡ some (xs, r)
    → decode (suc f) (b'l' ∷ ((encode_items xs ++ (b'e' ∷ [])) ++ r)) ≡ some (list xs, r)
list_case f xs r e = unfold decode in rw (append_assoc, e)

dict_case :
    (f : ℕ) (fs : Fields) (r : Bytes)
    → decode_fields f (encode_fields fs ++ (b'e' ∷ r)) ≡ some (fs, r)
    → decode (suc f) (b'd' ∷ ((encode_fields fs ++ (b'e' ∷ [])) ++ r)) ≡ some (dict fs, r)
dict_case f fs r e = unfold decode in rw (append_assoc, e)

end_case : (f : ℕ) (r : Bytes) → decode_fields (suc f) (b'e' ∷ r) ≡ some (end, r)
unfolding decode
end_case f r = refl

nil_case : (f : ℕ) (r : Bytes) → decode_items (suc f) (b'e' ∷ r) ≡ some (nil, r)
unfolding decode
nil_case f r = refl

mutual
  unfolding size encode

  value_back :
      (v : Value) (f : ℕ) → size v ≤ f → (r : Bytes) → decode f (encode v ++ r) ≡ some (v, r)
  value_back (str s) zero h r = absurd (omega arith)
  value_back (int s) zero h r = absurd (omega arith)
  value_back (list s) zero h r = absurd (omega arith)
  value_back (dict s) zero h r = absurd (omega arith)
  value_back (str s) (suc f) h r = str_back f s r
  value_back (int z) (suc f) h r = int_case f z r
  value_back (list xs) (suc f) h r = list_case f xs r (items_back xs f (omega arith) r)
  value_back (dict fs) (suc f) h r = dict_case f fs r (fields_back fs f (omega arith) r)

  items_back :
      (xs : Items) (f : ℕ)
      → size_items xs ≤ f
      → (r : Bytes) → decode_items f (encode_items xs ++ (b'e' ∷ r)) ≡ some (xs, r)
  items_back nil zero h r = absurd (omega arith)
  items_back (cons x xs) zero h r = absurd (omega arith)
  items_back nil (suc f) h r = nil_case f r
  items_back (cons x xs) (suc f) h r =
      cons_case f x xs r (value_back x f (omega arith)) (items_back xs f (omega arith) r)

  fields_back :
      (fs : Fields) (f : ℕ)
      → size_fields fs ≤ f
      → (r : Bytes) → decode_fields f (encode_fields fs ++ (b'e' ∷ r)) ≡ some (fs, r)
  fields_back end zero h r = absurd (omega arith)
  fields_back (field k v fs) zero h r = absurd (omega arith)
  fields_back end (suc f) h r = end_case f r
  fields_back (field k v fs) (suc f) h r =
      field_case f k v fs r (value_back v f (omega arith)) (fields_back fs f (omega arith) r)

-- A bencoded value is read back from the front of any input, and what follows it is left.
pub decode-encode :
    (v : Value) (f : ℕ) (r : Bytes) → size v ≤ f → decode f (encode v ++ r) ≡ some (v, r)
decode-encode v f r h = value_back v f h r

-- ===== src/Common/Outcome.antt =====
-- Go's results: a value, an error that is returned, or a panic; and `io.ReadFull` over the bytes
-- that a reader has left.
use trakx.Common.{
  ℕ, ◌^◌, ◌<◌, ◌≡◌, refl, sym, ap, ◌∙◌, subst, [], ◌++◌, append-nil, length, length-append, take,
  drop, take-append, drop-append, leb, le→leb, ◌==◌, if◌then◌else◌, arith,
}
use trakx.Common.Bytes.{Bytes, be, le, of_be, of_le, length-be, length-le, of_be-be, of_le-le}

pub data Error : Type 0 where
  eof unexpected_eof bad_addr file_empty parse_failed invalid_type not_initiated file_failed
        query_failed bad_driver bad_backup :
      Error

pub data Result {ℓ} (A : Type ℓ) : Type ℓ where
  ok : A → Result A
  err : Error → Result A
  panic : Result A

infixl 5 ◌>>=◌
abbrev pub ◌>>=◌ {ℓ κ} : {A : Type ℓ} {B : Type κ} → Result A → (A → Result B) → Result B
ok a >>= f = f a
err e >>= f = err e
panic >>= f = panic

-- `io.ReadFull` into `n` bytes: nothing left is `EOF`, too little is `ErrUnexpectedEOF`.
unfoldable pub read : ℕ → Bytes → Result (Bytes × Bytes)
read n bs =
    if leb n (length bs)
    then ok (take n bs, drop n bs)
    else err (if length bs == 0 then eof else unexpected_eof)

unfoldable pub read_be : ℕ → Bytes → Result (ℕ × Bytes)
unfolding read of_be
read_be n bs = do (b, rest) ← read n bs; ok (of_be b, rest)

unfoldable pub read_le : ℕ → Bytes → Result (ℕ × Bytes)
unfolding read of_le
read_le n bs = do (b, rest) ← read n bs; ok (of_le b, rest)

-- `binary.Write` of data with a fixed size into a buffer that cannot fail.
unfoldable pub write : Bytes → Bytes → Result Bytes
write buff d = ok (buff ++ d)

take-append_of : (n : ℕ) (xs ys : Bytes) → length xs ≡ n → take n (xs ++ ys) ≡ xs
take-append_of n xs ys h = subst (λ k. take k (xs ++ ys) ≡ xs) h (take-append xs ys)

drop-append_of : (n : ℕ) (xs ys : Bytes) → length xs ≡ n → drop n (xs ++ ys) ≡ ys
drop-append_of n xs ys h = subst (λ k. drop k (xs ++ ys) ≡ ys) h (drop-append xs ys)

pub read-append : (n : ℕ) (xs ys : Bytes) → length xs ≡ n → read n (xs ++ ys) ≡ ok (xs, ys)
unfolding read
read-append n xs ys h = rw (
  le→leb n (length (xs ++ ys)) (omega (arith, length-append xs ys)),
  take-append_of n xs ys h,
  drop-append_of n xs ys h,
)

pub read_be-be : (n v : ℕ) (rest : Bytes) → v < 256 ^ n → read_be n (be n v ++ rest) ≡ ok (v, rest)
unfolding read_be
read_be-be n v rest h =
    rw (read-append n (be n v) rest (length-be n v)) (ap (λ w. ok (w, rest)) (of_be-be n v h))

-- The same for the last field of a datagram.
pub read_be-be_last : (n v : ℕ) → v < 256 ^ n → read_be n (be n v) ≡ ok (v, [])
read_be-be_last n v h = ap (read_be n) (sym (append-nil (be n v))) ∙ read_be-be n v [] h

pub read_last : (n : ℕ) (xs : Bytes) → length xs ≡ n → read n xs ≡ ok (xs, [])
read_last n xs h = ap (read n) (sym (append-nil xs)) ∙ read-append n xs [] h

pub read_le-le : (n v : ℕ) (rest : Bytes) → v < 256 ^ n → read_le n (le n v ++ rest) ≡ ok (v, rest)
unfolding read_le
read_le-le n v rest h =
    rw (read-append n (le n v) rest (length-le n v)) (ap (λ w. ok (w, rest)) (of_le-le n v h))

-- A value is returned.
unfoldable pub IsOk : {A : Type 0} → Result A → Type 0
IsOk (ok a) = Unit
IsOk (err e) = ⊥
IsOk panic = ⊥

pub bind-IsOk :
    {A B : Type 0} (r : Result A) (f : A → Result B)
    → IsOk r
    → ((a : A) → IsOk (f a))
    → IsOk (r >>= f)
unfolding IsOk
bind-IsOk (ok a) f h k = k a
bind-IsOk (err e) f h k = elim h [ ]
bind-IsOk panic f h k = elim h [ ]

pub ok_of : {A : Type 0} (r : Result A) → IsOk r → (a : A) × (r ≡ ok a)
unfolding IsOk
ok_of (ok a) h = (a, refl)
ok_of (err e) h = elim h [ ]
ok_of panic h = elim h [ ]

-- To split on a computed result and keep the equation.
pub data Cases {ℓ} {A : Type ℓ} (r : Result A) : Type ℓ where
  is_ok : (a : A) → r ≡ ok a → Cases r
  is_err : (x : Error) → r ≡ err x → Cases r
  is_panic : r ≡ panic → Cases r

pub split_result {ℓ} : {A : Type ℓ} (r : Result A) → Cases r
split_result (ok a) = is_ok a refl
split_result (err x) = is_err x refl
split_result panic = is_panic refl

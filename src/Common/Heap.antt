-- ===== src/Common/Heap.antt =====
-- A heap of objects of one type: an address is the place of the object in a list.
use trakx.Common.{
  ℕ, zero, suc, ◌<◌, ◌≡◌, ◌≢◌, refl, ap, List, [], ◌∷◌, ◌++◌, Option, none, some, length, set,
  arith,
}

module _ {ℓ} {A : Type ℓ} where
  -- What a pointer points to; `none` for one that was never handed out.
  abbrev pub deref : ℕ → List A → Option A
  deref p [] = none
  deref zero (x ∷ xs) = some x
  deref (suc p) (x ∷ xs) = deref p xs

  -- The list without the element at the place.
  abbrev pub take_out : ℕ → List A → List A
  take_out p [] = []
  take_out zero (x ∷ xs) = xs
  take_out (suc p) (x ∷ xs) = x ∷ take_out p xs

  pub deref_of_lt : (p : ℕ) (xs : List A) → p < length xs → (x : A) × (deref p xs ≡ some x)
  deref_of_lt p [] h = absurd (omega arith)
  deref_of_lt zero (x ∷ xs) h = (x, refl)
  deref_of_lt (suc p) (x ∷ xs) h = deref_of_lt p xs (omega arith)

  pub lt_of_deref : (p : ℕ) (xs : List A) {x : A} → deref p xs ≡ some x → p < length xs
  lt_of_deref p [] e = absurd (ground (arith, e))
  lt_of_deref zero (y ∷ xs) e = omega arith
  lt_of_deref (suc p) (y ∷ xs) e = omega (arith, lt_of_deref p xs e)

  pub length-set : (xs : List A) (p : ℕ) (v : A) → length (set xs p v) ≡ length xs
  length-set [] p v = refl
  length-set (x ∷ xs) zero v = refl
  length-set (x ∷ xs) (suc p) v = ap suc (length-set xs p v)

  pub deref-set_self : (p : ℕ) (xs : List A) (v : A) → p < length xs → deref p (set xs p v) ≡ some v
  deref-set_self p [] v h = absurd (omega arith)
  deref-set_self zero (x ∷ xs) v h = refl
  deref-set_self (suc p) (x ∷ xs) v h = deref-set_self p xs v (omega arith)

  pub deref-set_ne : (q p : ℕ) (xs : List A) (v : A) → q ≢ p → deref q (set xs p v) ≡ deref q xs
  deref-set_ne q p [] v n = refl
  deref-set_ne zero zero (x ∷ xs) v n = absurd (n refl)
  deref-set_ne zero (suc p) (x ∷ xs) v n = refl
  deref-set_ne (suc q) zero (x ∷ xs) v n = refl
  deref-set_ne (suc q) (suc p) (x ∷ xs) v n = deref-set_ne q p xs v (λ e. n (ap suc e))

  pub deref-new : (xs : List A) (v : A) → deref (length xs) (xs ++ (v ∷ [])) ≡ some v
  deref-new [] v = refl
  deref-new (x ∷ xs) v = deref-new xs v

  pub deref-append : (p : ℕ) (xs ys : List A) → p < length xs → deref p (xs ++ ys) ≡ deref p xs
  deref-append p [] ys h = absurd (omega arith)
  deref-append zero (x ∷ xs) ys h = refl
  deref-append (suc p) (x ∷ xs) ys h = deref-append p xs ys (omega arith)

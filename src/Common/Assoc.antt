-- ===== src/Common/Assoc.antt =====
-- Go maps, as association lists over keys with decidable equality. The order of the list is the
-- order in which `range` happens to yield the entries.
use trakx.Common.{
  ℕ, ◌+◌, ◌≡◌, ◌≢◌, refl, subst, Option, none, some, List, [], ◌∷◌, ◌++◌, All, arith,
}
use mathlib.Core.Logic.{ite, if_pos, if_neg}
use mathlib.Core.Option.{some-injective}

abbrev pub weight {ℓ} : {V : Type ℓ} → (V → ℕ) → Option V → ℕ
weight f none = 0
weight f (some v) = f v

module _ {ℓ} {K V : Type ℓ} where
  -- The values' weights, added up.
  unfoldable pub sum_by : (V → ℕ) → List (K × V) → ℕ
  sum_by f [] = 0
  sum_by f ((k, v) ∷ m) = f v + sum_by f m

  pub sum_by-append : (f : V → ℕ) (m n : List (K × V)) → sum_by f (m ++ n) ≡ sum_by f m + sum_by f n
  unfolding sum_by
  sum_by-append f [] n = omega arith
  sum_by-append f ((k, v) ∷ m) n = omega (arith, sum_by-append f m n)

module _ {ℓ} {K V : Type ℓ} (dec : Discrete K) where
  unfoldable pub get : K → List (K × V) → Option V
  get k [] = none
  get k ((j, v) ∷ m) = ite (dec k j) (some v) (get k m)

  -- A new key goes to the end.
  unfoldable pub set : K → V → List (K × V) → List (K × V)
  set k v [] = (k, v) ∷ []
  set k v ((j, w) ∷ m) = ite (dec k j) ((j, v) ∷ m) ((j, w) ∷ set k v m)

  unfoldable pub delete : K → List (K × V) → List (K × V)
  delete k [] = []
  delete k ((j, w) ∷ m) = ite (dec k j) m ((j, w) ∷ delete k m)

  abbrev pub Distinct : List (K × V) → Type ℓ
  Distinct [] = Unit
  Distinct ((k, v) ∷ m) = (get k m ≡ none) × Distinct m

  pub get-set :
      (j k : K) (v : V) (m : List (K × V)) → get j (set k v m) ≡ ite (dec j k) (some v) (get j m)
  unfolding get set
  get-set j k v [] = refl
  get-set j k v ((i, w) ∷ m) = ground (arith, get-set j k v m)

  pub get-set_self : (k : K) (v : V) (m : List (K × V)) → get k (set k v m) ≡ some v
  get-set_self k v m = ground (arith, get-set k k v m)

  pub get-set_ne : (j k : K) (v : V) (m : List (K × V)) → j ≢ k → get j (set k v m) ≡ get j m
  get-set_ne j k v m h = ground (arith, get-set j k v m)

  pub get-delete_ne : (j k : K) (m : List (K × V)) → j ≢ k → get j (delete k m) ≡ get j m
  unfolding get delete
  get-delete_ne j k [] h = refl
  get-delete_ne j k ((i, w) ∷ m) h = ground (arith, get-delete_ne j k m)

  pub get-delete_self : (k : K) (m : List (K × V)) → Distinct m → get k (delete k m) ≡ none
  unfolding get delete
  get-delete_self k [] h = refl
  get-delete_self k ((i, w) ∷ m) (h, d) = ground (arith, get-delete_self k m)

  pub sum_by-set :
      (f : V → ℕ) (k : K) (v : V) (m : List (K × V))
      → sum_by f (set k v m) + weight f (get k m) ≡ sum_by f m + f v
  unfolding get set sum_by
  sum_by-set f k v [] = omega arith
  sum_by-set f k v ((j, w) ∷ m) = ground (arith, sum_by-set f k v m)

  pub sum_by-delete :
      (f : V → ℕ) (k : K) (m : List (K × V))
      → sum_by f (delete k m) + weight f (get k m) ≡ sum_by f m
  unfolding get delete sum_by
  sum_by-delete f k [] = omega arith
  sum_by-delete f k ((j, w) ∷ m) = ground (arith, sum_by-delete f k m)

  pub set-Distinct : (k : K) (v : V) (m : List (K × V)) → Distinct m → Distinct (set k v m)
  unfolding get set
  set-Distinct k v [] h = (refl, tt)
  set-Distinct k v ((j, w) ∷ m) (h, d) = ground (arith, set-Distinct k v m, get-set j k v m)

  pub delete-Distinct : (k : K) (m : List (K × V)) → Distinct m → Distinct (delete k m)
  unfolding get delete
  delete-Distinct k [] h = tt
  delete-Distinct k ((j, w) ∷ m) (h, d) = ground (arith, delete-Distinct k m, get-delete_ne j k m)

  -- A predicate of the values.
  abbrev pub AllValues : (V → Type ℓ) → List (K × V) → Type ℓ
  AllValues P = All (λ e. P e.1)

  pub set-AllValues :
      (P : V → Type ℓ) (k : K) (v : V) (m : List (K × V))
      → P v
      → AllValues P m
      → AllValues P (set k v m)
  unfolding set
  set-AllValues P k v [] p h = (p, tt)
  set-AllValues P k v ((j, w) ∷ m) p (q, h) = elim (dec k j) [
    | yes e ↦ rw (if_pos _ e) (p, h)
    | no n ↦ rw (if_neg _ n) (q, set-AllValues P k v m p h)
  ]

  pub delete-AllValues :
      (P : V → Type ℓ) (k : K) (m : List (K × V)) → AllValues P m → AllValues P (delete k m)
  unfolding delete
  delete-AllValues P k [] h = tt
  delete-AllValues P k ((j, w) ∷ m) (q, h) = elim (dec k j) [
    | yes e ↦ rw (if_pos _ e) h
    | no n ↦ rw (if_neg _ n) (q, delete-AllValues P k m h)
  ]

  pub get-AllValues :
      (P : V → Type ℓ) (k : K) {v : V} (m : List (K × V)) → AllValues P m → get k m ≡ some v → P v
  unfolding get
  get-AllValues P k [] h e = absurd (ground arith)
  get-AllValues P k ((j, w) ∷ m) (q, h) e = elim (dec k j) [
    | yes y ↦ subst P (some-injective _ _ (rw (if_pos _ y) at e)) q
    | no n ↦ get-AllValues P k m h (rw (if_neg _ n) at e)
  ]

  -- A new key goes to the end of the list.
  pub set_new : (k : K) (v : V) (m : List (K × V)) → get k m ≡ none → set k v m ≡ m ++ ((k, v) ∷ [])
  unfolding get set
  set_new k v [] h = refl
  set_new k v ((j, w) ∷ m) h = ground (arith, set_new k v m)

  pub get-append : (k : K) (m n : List (K × V)) → get k m ≡ none → get k (m ++ n) ≡ get k n
  unfolding get
  get-append k [] n h = refl
  get-append k ((j, w) ∷ m) n h = ground (arith, get-append k m n)

  -- An entry in the middle of a list with distinct keys.
  pub get_middle :
      (k : K) (v : V) (front back : List (K × V))
      → get k front ≡ none
      → get k (front ++ ((k, v) ∷ back)) ≡ some v
  unfolding get
  get_middle k v front back h = ground (arith, get-append k front ((k, v) ∷ back))

  pub get_front :
      (k : K) (v : V) (front back : List (K × V))
      → Distinct (front ++ ((k, v) ∷ back))
      → get k front ≡ none
  unfolding get
  get_front k v [] back d = refl
  get_front k v ((j, w) ∷ front) back (h, d) =
      ground (arith, get_front k v front back d, get_middle k v front back)

  pub delete_middle :
      (k : K) (v : V) (front back : List (K × V))
      → get k front ≡ none
      → delete k (front ++ ((k, v) ∷ back)) ≡ front ++ back
  unfolding get delete
  delete_middle k v [] back h = ground arith
  delete_middle k v ((j, w) ∷ front) back h = ground (arith, delete_middle k v front back)

  pub set_middle :
      (k : K) (v w : V) (front back : List (K × V))
      → get k front ≡ none
      → set k w (front ++ ((k, v) ∷ back)) ≡ front ++ ((k, w) ∷ back)
  unfolding get set
  set_middle k v w [] back h = ground arith
  set_middle k v w ((j, x) ∷ front) back h = ground (arith, set_middle k v w front back)

  pub Distinct-middle :
      (k : K) (v : V) (front back : List (K × V))
      → Distinct (front ++ ((k, v) ∷ back))
      → Distinct (front ++ back)
  Distinct-middle k v front back d =
      subst Distinct (delete_middle k v front back (get_front k v front back d))
        (delete-Distinct k (front ++ ((k, v) ∷ back)) d)

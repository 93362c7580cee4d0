-- ===== src/Common/Bytes.antt =====
-- Fixed-width integers on the wire: `binary.BigEndian` and `binary.LittleEndian` of the standard
-- library. A byte is a number below 256, a byte slice is a list of them.
use trakx.Common.{
  ℕ, zero, suc, ◌+◌, ◌*◌, ◌/◌, ◌%◌, ◌^◌, ◌<◌, ◌≡◌, refl, ap, ◌∙◌, List, [], ◌∷◌, reverse, length,
  length-reverse, All, All-reverse, arith,
}
use mathlib.Core.List.{reverse-reverse}
use Prim.Native.Char.{code}
use Prim.Native.String.{String}
use native.Mathlib.Nat.{pow-suc}

abbrev pub Bytes : Type 0
Bytes = List ℕ

-- The bytes of an ASCII text.
abbrev pub codes : String → Bytes
codes String.[] = []
codes (String.◌∷◌ c s) = code c ∷ codes s

abbrev pub IsByte : ℕ → Type 0
IsByte b = b < 256

-- The `n` low bytes of `v`, lowest first.
unfoldable pub le : ℕ → ℕ → Bytes
le zero v = []
le (suc n) v = v % 256 ∷ le n (v / 256)

unfoldable pub of_le : Bytes → ℕ
of_le [] = 0
of_le (b ∷ bs) = b + 256 * of_le bs

-- The same, highest first.
unfoldable pub be : ℕ → ℕ → Bytes
unfolding le
be n v = reverse (le n v)

unfoldable pub of_be : Bytes → ℕ
unfolding of_le
of_be bs = of_le (reverse bs)

pub length-le : (n v : ℕ) → length (le n v) ≡ n
unfolding le
length-le zero v = refl
length-le (suc n) v = ap suc (length-le n (v / 256))

pub length-be : (n v : ℕ) → length (be n v) ≡ n
unfolding be
length-be n v = length-reverse (le n v) ∙ length-le n v

div_lt_pow : (n v : ℕ) → v < 256 ^ suc n → v / 256 < 256 ^ n
div_lt_pow n v h = omega (arith, pow-suc 256 n)

pub of_le-le : (n v : ℕ) → v < 256 ^ n → of_le (le n v) ≡ v
unfolding le of_le
of_le-le zero v h = omega arith
of_le-le (suc n) v h = omega (arith, of_le-le n (v / 256) (div_lt_pow n v h))

pub of_be-be : (n v : ℕ) → v < 256 ^ n → of_be (be n v) ≡ v
unfolding be of_be
of_be-be n v h = ap of_le (reverse-reverse (le n v)) ∙ of_le-le n v h

pub le-IsByte : (n v : ℕ) → All IsByte (le n v)
unfolding le
le-IsByte zero v = tt
le-IsByte (suc n) v = (omega arith, le-IsByte n (v / 256))

pub be-IsByte : (n v : ℕ) → All IsByte (be n v)
unfolding be
be-IsByte n v = All-reverse IsByte (le n v) (le-IsByte n v)

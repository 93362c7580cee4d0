-- ===== src/Common/Search.antt =====
-- `HasPrefix`, `Index` and `LastIndex` of the package bytes. `none` is the -1 of a search in vain.
use trakx.Common.{
  ℕ, suc, ◌≡◌, refl, ap, Bool, true, false, [], ◌∷◌, ◌++◌, Option, none, some, length, ◌==◌,
  if◌then◌else◌, arith,
}
use trakx.Common.Bytes.{Bytes}
use mathlib.Core.Option

unfoldable pub has_prefix : Bytes → Bytes → Bool
has_prefix [] bs = true
has_prefix (p ∷ ps) [] = false
has_prefix (p ∷ ps) (b ∷ bs) = if p == b then has_prefix ps bs else false

unfoldable pub index : Bytes → Bytes → Option ℕ
index sep [] = if has_prefix sep [] then some 0 else none
index sep (b ∷ bs) = elim (has_prefix sep (b ∷ bs)) [
  | true ↦ some 0
  | false ↦ Option.map suc (index sep bs)
]

unfoldable pub last_index : Bytes → Bytes → Option ℕ
last_index sep [] = if has_prefix sep [] then some 0 else none
last_index sep (b ∷ bs) = elim (last_index sep bs) [
  | some i ↦ some (suc i)
  | none ↦ if has_prefix sep (b ∷ bs) then some 0 else none
]

pub has_prefix-append : (ps bs : Bytes) → has_prefix ps (ps ++ bs) ≡ true
unfolding has_prefix
has_prefix-append [] bs = refl
has_prefix-append (p ∷ ps) bs = ground (arith, has_prefix-append ps bs)

-- The first place where `sep` stands, if it stands nowhere before.
abbrev pub IsFree : Bytes → Bytes → Bytes → Type 0
IsFree sep [] after = Unit
IsFree sep (b ∷ bs) after = (has_prefix sep (b ∷ (bs ++ after)) ≡ false) × IsFree sep bs after

pub index_lem :
    (sep front after : Bytes)
    → IsFree sep front (sep ++ after)
    → index sep (front ++ (sep ++ after)) ≡ some (length front)
unfolding index has_prefix
index_lem [] [] [] h = refl
index_lem [] [] (a ∷ after) h = refl
index_lem (p ∷ sep) [] after h = rw (has_prefix-append (p ∷ sep) after, index)
index_lem sep (b ∷ front) after (h, hs) =
    rw (h, index) (ap (Option.map suc) (index_lem sep front after hs))

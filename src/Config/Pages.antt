-- ===== src/Config/Pages.antt =====
-- What `stripNewlineTabs` of config/embed.go leaves, and which files it is for.
use trakx.Common.{
  ◌≡◌, refl, sym, ap, ◌∙◌, Bool, true, false, ◌||◌, [], ◌∷◌, ◌++◌, reverse, ◌==◌, if◌then◌else◌,
  Bool-cases, inl, inr, arith,
}
use trakx.Common.Bytes.{Bytes, codes}
use trakx.Common.Search.{has_prefix, has_prefix-append}
use trakx.Config.Embed.{without, has_suffix, strip_newline_tabs, trimmed}
use trakx.Storage.Types.{Bytes-discrete}
use mathlib.Core.Bool.{decide}
use mathlib.Core.List.{reverse-reverse, reverse-append}

-- The text, or what is left of it behind some bytes, is the ending.
unfoldable pub ends_in : Bytes → Bytes → Bool
ends_in ending [] = decide (Bytes-discrete [] ending)
ends_in ending (b ∷ bs) = decide (Bytes-discrete (b ∷ bs) ending) || ends_in ending bs

-- A text with its line feeds (10) and tabs (9) left out.
unfoldable pub one_line : Bytes → Bytes
one_line [] = []
one_line (b ∷ bs) = let rest = one_line bs in if (b == 9) || (b == 10) then rest else b ∷ rest

-- A page of HTML is served as one line, any other file as it is.
unfoldable pub served : Bytes → Bytes → Bytes
served name text = if ends_in (codes ".html") name then one_line text else text

strip-one_line : (bs : Bytes) → strip_newline_tabs bs ≡ one_line bs
unfolding strip_newline_tabs without one_line
strip-one_line [] = refl
strip-one_line (b ∷ bs) = elim (Bool-cases (b == 9)) [
  | inl e ↦ rw e (strip-one_line bs)
  | inr e ↦ rw e (elim (Bool-cases (b == 10)) [
    | inl f ↦ rw f (strip-one_line bs)
    | inr f ↦ rw f (ap (◌∷◌ b) (strip-one_line bs))
  ])
]

decide-true : {P : Type 0} (d : Dec P) → P → decide d ≡ true
unfolding decide
decide-true (yes p) h = refl
decide-true (no n) h = absurd (n h)

decide_refl : (bs : Bytes) → decide (Bytes-discrete bs bs) ≡ true
decide_refl bs = decide-true (Bytes-discrete bs bs) refl

decide_yes : {P : Type 0} (d : Dec P) → decide d ≡ true → P
unfolding decide
decide_yes (yes p) e = p
decide_yes (no n) e = absurd (ground (arith, e))

ends_in-append : (stem ending : Bytes) → ends_in ending (stem ++ ending) ≡ true
unfolding ends_in
ends_in-append [] [] = decide_refl []
ends_in-append [] (e ∷ es) = rw (decide_refl (e ∷ es)) refl
ends_in-append (b ∷ stem) ending = rw (ends_in-append stem ending) (ground arith)

stem_of : (ending bs : Bytes) → ends_in ending bs ≡ true → (stem : Bytes) × (bs ≡ stem ++ ending)
unfolding ends_in
stem_of ending [] e = ([], decide_yes (Bytes-discrete [] ending) e)
stem_of ending (b ∷ bs) e = elim (Bool-cases (decide (Bytes-discrete (b ∷ bs) ending))) [
  | inl d ↦ ([], decide_yes (Bytes-discrete (b ∷ bs) ending) d)
  | inr d ↦ let (stem, h) = stem_of ending bs (ground (arith, e, d)) in (b ∷ stem, ap (◌∷◌ b) h)
]

rest_of : (ps bs : Bytes) → has_prefix ps bs ≡ true → (rest : Bytes) × (bs ≡ ps ++ rest)
unfolding has_prefix
rest_of [] bs e = (bs, refl)
rest_of (p ∷ ps) [] e = absurd (ground (arith, e))
rest_of (p ∷ ps) (b ∷ bs) e =
    let (rest, h) = rest_of ps bs (ground (arith, e)) in
    let same : b ≡ p = ground (arith, e) in (rest, rw (same, h) refl)

-- A text that ends in the suffix is one with the suffix behind a stem.
has_suffix-stem :
    (suffix bs : Bytes) → has_suffix suffix bs ≡ true → (stem : Bytes) × (bs ≡ stem ++ suffix)
unfolding has_suffix
has_suffix-stem suffix bs e =
    let (rest, h) = rest_of (reverse suffix) (reverse bs) e in
    (
      reverse rest,
      sym (reverse-reverse bs)
          ∙ ap reverse h
          ∙ reverse-append (reverse suffix) rest
          ∙ ap (◌++◌ (reverse rest)) (reverse-reverse suffix),
    )

has_suffix-append : (stem suffix : Bytes) → has_suffix suffix (stem ++ suffix) ≡ true
unfolding has_suffix
has_suffix-append stem suffix =
    rw (reverse-append stem suffix) (has_prefix-append (reverse suffix) (reverse stem))

both : (a b : Bool) → (a ≡ true → b ≡ true) → (b ≡ true → a ≡ true) → a ≡ b
both true b h k = sym (h refl)
both false true h k = k refl
both false false h k = refl

has_suffix-ends_in : (suffix bs : Bytes) → has_suffix suffix bs ≡ ends_in suffix bs
has_suffix-ends_in suffix bs =
    both (has_suffix suffix bs) (ends_in suffix bs)
      (λ e.
        let (stem, h) = has_suffix-stem suffix bs e in
        ap (ends_in suffix) h ∙ ends_in-append stem suffix)
      (λ e.
        let (stem, h) = stem_of suffix bs e in
        ap (has_suffix suffix) h ∙ has_suffix-append stem suffix)

pub trimmed-served : (name text : Bytes) → trimmed name text ≡ served name text
unfolding trimmed served
trimmed-served name text = rw (has_suffix-ends_in (codes ".html") name, strip-one_line text) refl

-- ===== src/Http/Parser/Params.antt =====
-- The parameters of a query are split and decoded.
use trakx.Common.{
  ℕ, ◌+◌, ◌≤◌, ◌<◌, ◌≡◌, ◌≢◌, refl, sym, ap, ◌∙◌, false, List, [], ◌∷◌, ◌++◌, Option, none, some,
  length, length-append, map, append_assoc, append-nil, ◌==◌, All, arith,
}
use trakx.Common.Bytes.{Bytes}
use mathlib.Core.Option
use trakx.Http.Unescape.{unescape_fast, percent_decode}
use trakx.Http.Unescape.Decodes.{unescape_fast-percent_decode}
use trakx.Http.Parser.{maxparams, split_params, unescape_all}

-- Does not stand among the bytes.
abbrev pub IsAbsent : ℕ → Bytes → Type 0
IsAbsent c = All (λ b. b ≢ c)

-- The parameters of a query, with `&` between them.
unfoldable pub join : List Bytes → Bytes
join [] = []
join (p ∷ []) = p
join (p ∷ q ∷ ps) = p ++ (b'&' ∷ join (q ∷ ps))

-- No parameter holds a `&`, and the last is not empty.
abbrev pub IsQuery : List Bytes → Type 0
IsQuery [] = ⊥
IsQuery (p ∷ []) = IsAbsent b'&' p × (0 < length p)
IsQuery (p ∷ q ∷ ps) = IsAbsent b'&' p × IsQuery (q ∷ ps)

split_params_other :
    (c d : ℕ) (cs segment : Bytes) (filled : List (Option Bytes))
    → c ≢ b'&'
    → split_params (c ∷ d ∷ cs) segment filled ≡ split_params (d ∷ cs) (segment ++ (c ∷ [])) filled
unfolding split_params
split_params_other c d cs segment filled h =
    let e : (c == b'&') ≡ false = ground arith in rw (e, split_params)

split_params_amp :
    (cs segment : Bytes) (filled : List (Option Bytes))
    → length filled + 1 < maxparams
    → split_params (b'&' ∷ cs) segment filled ≡ split_params cs [] (filled ++ (some segment ∷ []))
unfolding split_params
split_params_amp cs segment filled h =
    let e : (length (filled ++ (some segment ∷ [])) == maxparams) ≡ false =
      ground (arith, length-append filled (some segment ∷ [])) in
    rw (e, split_params)

split_params_inner :
    (p more segment : Bytes) (filled : List (Option Bytes))
    → IsAbsent b'&' p
    → length filled + 1 < maxparams
    → split_params (p ++ (b'&' ∷ more)) segment filled
      ≡ split_params more [] (filled ++ (some (segment ++ p) ∷ []))
split_params_inner [] more segment filled h k =
    split_params_amp more segment filled k
    ∙ ap (λ x. split_params more [] (filled ++ (some x ∷ []))) (sym (append-nil segment))
split_params_inner (c ∷ []) more segment filled (h, hs) k =
    split_params_other c b'&' more segment filled h
    ∙ split_params_amp more (segment ++ (c ∷ [])) filled k
split_params_inner (c ∷ d ∷ p) more segment filled (h, hs) k =
    split_params_other c d (p ++ (b'&' ∷ more)) segment filled h
    ∙ split_params_inner (d ∷ p) more (segment ++ (c ∷ [])) filled hs k
    ∙ ap (λ x. split_params more [] (filled ++ (some x ∷ [])))
        (append_assoc segment (c ∷ []) (d ∷ p))

split_params_last :
    (p segment : Bytes) (filled : List (Option Bytes))
    → IsAbsent b'&' p
    → 0 < length p
    → split_params p segment filled ≡ filled ++ (some (segment ++ p) ∷ [])
unfolding split_params
split_params_last [] segment filled h k = absurd (omega arith)
split_params_last (c ∷ []) segment filled (h, hs) k =
    let e : (c == b'&') ≡ false = ground arith in rw (e, split_params)
split_params_last (c ∷ d ∷ p) segment filled (h, hs) k =
    split_params_other c d p segment filled h
    ∙ split_params_last (d ∷ p) (segment ++ (c ∷ [])) filled hs (omega arith)
    ∙ ap (λ x. filled ++ (some x ∷ [])) (append_assoc segment (c ∷ []) (d ∷ p))

pub split_params-join :
    (ps : List Bytes) (filled : List (Option Bytes))
    → IsQuery ps
    → length filled + length ps ≤ maxparams
    → split_params (join ps) [] filled ≡ filled ++ map some ps
unfolding join
split_params-join [] filled h k = absurd h
split_params-join (p ∷ []) filled (h, w) k = split_params_last p [] filled h w
split_params-join (p ∷ q ∷ ps) filled (h, hs) k =
    split_params_inner p (join (q ∷ ps)) [] filled h (omega arith)
    ∙ split_params-join (q ∷ ps) (filled ++ (some p ∷ [])) hs
        (omega (arith, length-append filled (some p ∷ [])))
    ∙ append_assoc filled (some p ∷ []) (map some (q ∷ ps))

-- All parameters decoded, or none if one is cut off in an escape.
unfoldable pub decode_all : List Bytes → Option (List Bytes)
decode_all [] = some []
decode_all (p ∷ ps) = elim (percent_decode p) [
  | none ↦ none
  | some q ↦ Option.map (◌∷◌ q) (decode_all ps)
]

abbrev decoded_first : Option Bytes → Option (List Bytes) → Option (List Bytes)
decoded_first none r = none
decoded_first (some q) r = Option.map (◌∷◌ q) r

abbrev unescaped_first : Option Bytes → Option (List (Option Bytes)) → Option (List (Option Bytes))
unescaped_first none r = none
unescaped_first (some q) r = Option.map (◌∷◌ (some q)) r

first_map :
    (o : Option Bytes) (r : Option (List Bytes))
    → unescaped_first o (Option.map (map some) r) ≡ Option.map (map some) (decoded_first o r)
first_map none r = refl
first_map (some q) none = refl
first_map (some q) (some qs) = refl

unescape_all-cons :
    (o : Option Bytes) (ps : List (Option Bytes))
    → unescape_all (o ∷ ps) ≡ unescaped_first (unescape_fast o) (unescape_all ps)
unfolding unescape_all
unescape_all-cons o ps =
    elim (unescape_fast o)
      as (λ u.
        (elim u [
          | none ↦ none
          | some bs ↦ elim (unescape_all ps) [ none ↦ none | some qs ↦ some (some bs ∷ qs) ]
        ])
        ≡ unescaped_first u (unescape_all ps)) [ none ↦ refl | some bs ↦ refl ]

decode_all-cons :
    (p : Bytes) (ps : List Bytes)
    → decode_all (p ∷ ps) ≡ decoded_first (percent_decode p) (decode_all ps)
unfolding decode_all
decode_all-cons p ps =
    elim (percent_decode p)
      as (λ u.
        (elim u [ none ↦ none | some q ↦ Option.map (◌∷◌ q) (decode_all ps) ])
        ≡ decoded_first u (decode_all ps)) [ none ↦ refl | some q ↦ refl ]

pub unescape_all-decode_all :
    (ps : List Bytes) → unescape_all (map some ps) ≡ Option.map (map some) (decode_all ps)
unescape_all-decode_all [] = unfold unescape_all decode_all in refl
unescape_all-decode_all (p ∷ ps) =
    unescape_all-cons (some p) (map some ps)
    ∙ ap (λ o. unescaped_first o (unescape_all (map some ps))) (unescape_fast-percent_decode p)
    ∙ ap (unescaped_first (percent_decode p)) (unescape_all-decode_all ps)
    ∙ first_map (percent_decode p) (decode_all ps)
    ∙ ap (Option.map (map some)) (sym (decode_all-cons p ps))

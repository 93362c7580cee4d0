-- ===== src/Http/Parser/Total.antt =====
-- No slice of `parse` is out of its bounds.
use trakx.Common.{
  ℕ, suc, ◌+◌, ◌≤◌, ◌<◌, ◌≡◌, refl, sym, ◌∙◌, true, [], ◌∷◌, Option, none, some, length, ltb, arith,
  le→leb, Bool-cases, Option-cases, inl, inr,
}
use trakx.Common.Bytes.{Bytes, codes}
use trakx.Common.Outcome.{IsOk, bind-IsOk}
use trakx.Common.Search.{has_prefix, index}
use mathlib.Core.Option.{some-injective, none-ne-some}
use trakx.Http.Parser.{
  slice, split_params, unescape_all, parse_params, parse_query, parse_plain, path_start,
  query_start, parse_url, parse_request, parse_decoded, parse,
}

has_prefix-le : (sep bs : Bytes) → has_prefix sep bs ≡ true → length sep ≤ length bs
unfolding has_prefix
has_prefix-le [] bs e = omega arith
has_prefix-le (p ∷ sep) [] e = absurd (ground (arith, e))
has_prefix-le (p ∷ sep) (b ∷ bs) e =
    let h = has_prefix-le sep bs (ground (arith, e)) in omega (arith, h)

pub index-le : (sep bs : Bytes) (i : ℕ) → index sep bs ≡ some i → i + length sep ≤ length bs
unfolding index
index-le sep [] i e = elim (Bool-cases (has_prefix sep [])) [
  | inl p ↦
      let f : some 0 ≡ some i = sym (rw p refl) ∙ e in
      omega (arith, some-injective _ i f, has_prefix-le sep [] p)
  | inr p ↦ let f : none ≡ some i = sym (rw p refl) ∙ e in absurd (none-ne-some i f)
]
index-le sep (b ∷ bs) i e = elim (Bool-cases (has_prefix sep (b ∷ bs))) [
  | inl p ↦
      let f : some 0 ≡ some i = sym (rw (p, index)) ∙ e in
      omega (arith, some-injective _ i f, has_prefix-le sep (b ∷ bs) p)
  | inr p ↦ elim (Option-cases (index sep bs)) [
    | inl n ↦ let f : none ≡ some i = sym (rw (p, index, n)) ∙ e in absurd (none-ne-some i f)
    | inr (j, m) ↦
        let f : some (suc j) ≡ some i = sym (rw (p, index, m)) ∙ e in
        omega (arith, some-injective _ i f, index-le sep bs j m)
  ]
]

pub slice-IsOk : (bs : Bytes) (a b : ℕ) → a ≤ b → b ≤ length bs → IsOk (slice bs a b)
unfolding slice IsOk
slice-IsOk bs a b h k = rw (le→leb a b h, le→leb b (length bs) k) tt

parse_params-IsOk :
    (bs : Bytes) (pathstart pathend : ℕ) (method params_bytes : Bytes)
    → pathstart ≤ pathend
    → pathend ≤ length bs
    → IsOk (parse_params bs pathstart pathend method params_bytes)
unfolding parse_params IsOk
parse_params-IsOk bs pathstart pathend method params_bytes h k =
    elim (Option-cases (unescape_all (split_params params_bytes [] []))) [
      | inl u ↦ rw (u, parse_params) tt
      | inr (params, u) ↦
          rw (u, parse_params)
            (bind-IsOk (slice bs pathstart pathend) _ (slice-IsOk bs pathstart pathend h k)
              (λ path. tt))
    ]

parse_query-IsOk :
    (bs : Bytes) (pathstart pathend url_end : ℕ) (method : Bytes)
    → pathend < url_end
    → url_end ≤ length bs
    → IsOk (parse_query bs pathstart pathend url_end method)
unfolding parse_query IsOk
parse_query-IsOk bs pathstart pathend url_end method h k =
    elim (Bool-cases (ltb pathend pathstart)) [
      | inl e ↦ rw (e, parse_query) tt
      | inr e ↦
          let order : pathstart ≤ pathend = ground (arith, e) in
          rw (e, parse_query)
            (bind-IsOk (slice bs (pathend + 1) url_end) _
              (slice-IsOk bs (pathend + 1) url_end (omega arith) k)
              (λ query. parse_params-IsOk bs pathstart pathend method query order (omega arith)))
    ]

parse_plain-IsOk :
    (bs : Bytes) (pathstart url_end : ℕ) (method : Bytes)
    → pathstart ≤ url_end
    → url_end ≤ length bs
    → IsOk (parse_plain bs pathstart url_end method)
unfolding parse_plain IsOk
parse_plain-IsOk bs pathstart url_end method h k =
    bind-IsOk (slice bs pathstart url_end) _ (slice-IsOk bs pathstart url_end h k) (λ path. tt)

query_start-lt :
    (bs : Bytes) (url_end pathend : ℕ) → query_start bs url_end ≡ some pathend → pathend < url_end
unfolding query_start
query_start-lt bs url_end pathend e = elim (Option-cases (index (codes "?") bs)) [
  | inl n ↦ absurd (none-ne-some pathend (sym (rw (n, query_start)) ∙ e))
  | inr (i, s) ↦ elim (Bool-cases (ltb i url_end)) [
    | inl b ↦
        let same : i ≡ pathend = some-injective i pathend (sym (rw (s, query_start, b)) ∙ e) in
        let before : i < url_end = ground (arith, b) in omega (arith, same, before)
    | inr b ↦ absurd (none-ne-some pathend (sym (rw (s, query_start, b)) ∙ e))
  ]
]

parse_url-IsOk : (bs method : Bytes) → IsOk (parse_url bs method)
unfolding parse_url IsOk
parse_url-IsOk bs method = elim (Option-cases (index (codes " HTTP/") bs)) [
  | inl n ↦ rw (n, parse_url) tt
  | inr (url_end, f) ↦
      let k = index-le (codes " HTTP/") bs url_end f in
      rw (f, parse_url)
        (elim (Bool-cases (ltb url_end 5)) [
          | inl e ↦ rw e tt
          | inr e ↦ rw e (elim (Bool-cases (ltb url_end (path_start bs))) [
            | inl b ↦ rw b tt
            | inr b ↦ rw b (elim (Option-cases (query_start bs url_end)) [
              | inl q ↦ rw q (
                  parse_plain-IsOk bs (path_start bs) url_end method (ground (arith, b))
                    (omega (arith, k)))
              | inr (pathend, q) ↦ rw q (
                  parse_query-IsOk bs (path_start bs) pathend url_end method
                    (query_start-lt bs url_end pathend q) (omega (arith, k)))
            ])
          ])
        ])
]

parse_request-IsOk : (bs : Bytes) → IsOk (parse_request bs)
unfolding parse_request IsOk
parse_request-IsOk bs = elim (Option-cases (index (codes " /") bs)) [
  | inl n ↦ rw (n, parse_request) tt
  | inr (methodend, f) ↦
      let k = index-le (codes " /") bs methodend f in
      rw (f, parse_request)
        (bind-IsOk (slice bs 0 methodend) _
          (slice-IsOk bs 0 methodend (omega arith) (omega (arith, k)))
          (λ method. parse_url-IsOk bs method))
]

parse_decoded-IsOk : (decoded : Option Bytes) → IsOk (parse_decoded decoded)
unfolding parse_decoded IsOk
parse_decoded-IsOk none = tt
parse_decoded-IsOk (some bs) = parse_request-IsOk bs

pub parse-IsOk :
    (base64 : Bytes → Option Bytes) (bs : Bytes) (size : ℕ)
    → size ≤ length bs
    → IsOk (parse base64 bs size)
unfolding parse
parse-IsOk base64 bs size h = elim (Bool-cases (has_prefix (codes "R0VU") bs)) [
  | inl e ↦
      rw (e, parse)
        (bind-IsOk (slice bs 0 size) _ (slice-IsOk bs 0 size (omega arith) h)
          (λ encoded. parse_decoded-IsOk (base64 encoded)))
  | inr e ↦ rw (e, parse) (parse_request-IsOk bs)
]

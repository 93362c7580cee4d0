-- ===== src/Http/Worker/Total.antt =====
-- The parameters of a request are cut within their bounds.
use trakx.Common.{
  ◌+◌, ◌≤◌, not, List, [], ◌∷◌, Option, none, some, length, ltb, arith, Bool-cases, Option-cases,
  inl, inr,
}
use trakx.Common.Bytes.{Bytes, codes}
use trakx.Common.Outcome.{IsOk, bind-IsOk}
use trakx.Common.Search.{index}
use trakx.Http.Announce.{AnnounceParams, same}
use trakx.Http.Parser.{slice}
use trakx.Http.Parser.Total.{index-le, slice-IsOk}
use trakx.Http.Worker.{key_val, set_param, announce_params, infohash_of, infohashes_of}

key_val-IsOk : (p : Option Bytes) → IsOk (key_val p)
unfolding key_val IsOk
key_val-IsOk none = tt
key_val-IsOk (some param) = elim (Option-cases (index (codes "=") param)) [
  | inl n ↦ rw (n, key_val) tt
  | inr (equal, e) ↦
      let k = index-le (codes "=") param equal e in
      rw (e, key_val)
        (bind-IsOk (slice param 0 equal) _
          (slice-IsOk param 0 equal (omega arith) (omega (arith, k)))
          (λ key.
            bind-IsOk (slice param (equal + 1) (length param)) _
              (slice-IsOk param (equal + 1) (length param) (omega (arith, k)) (omega arith))
              (λ val. tt)))
]

pub announce_params-IsOk :
    (ps : List (Option Bytes)) (v : AnnounceParams) → IsOk (announce_params ps v)
unfolding announce_params
announce_params-IsOk [] v = unfold IsOk in tt
announce_params-IsOk (p ∷ ps) v =
    bind-IsOk (key_val p) _ (key_val-IsOk p) (λ pair. announce_params-IsOk ps (set_param pair v))

infohash_of-IsOk : (p : Option Bytes) → IsOk (infohash_of p)
unfolding infohash_of IsOk
infohash_of-IsOk none = tt
infohash_of-IsOk (some param) = elim (Bool-cases (ltb (length param) 10)) [
  | inl e ↦ rw (e, infohash_of) tt
  | inr e ↦
      let long : 10 ≤ length param = ground (arith, e) in
      rw (e, infohash_of)
        (bind-IsOk (slice param 0 10) _ (slice-IsOk param 0 10 (omega arith) long) (λ key.
          elim (Bool-cases (not (same key (codes "info_hash=")))) [
            | inl n ↦ rw n tt
            | inr n ↦ rw n (
                bind-IsOk (slice param 10 (length param)) _
                  (slice-IsOk param 10 (length param) long (omega arith)) (λ hash. tt))
          ]))
]

pub infohashes_of-IsOk : (ps : List (Option Bytes)) → IsOk (infohashes_of ps)
unfolding infohashes_of IsOk
infohashes_of-IsOk [] = tt
infohashes_of-IsOk (p ∷ ps) =
    bind-IsOk (infohash_of p) _ (infohash_of-IsOk p)
      (λ hash. bind-IsOk (infohashes_of ps) _ (infohashes_of-IsOk ps) (λ hashes. tt))

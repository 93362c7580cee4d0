-- ===== src/Storage/Trim/Counters.antt =====
-- `trim` and the global counters, in the build without the tag `fast`.
use trakx.Common.{
  ℕ, ◌+◌, ◌≡◌, refl, sym, ap, ◌∙◌, subst, fun_ext, true, false, [], ◌∷◌, ◌++◌, length, ◌==◌,
  append_assoc, Bool-cases, inl, inr, arith,
}
use trakx.Common.Assoc.{delete, sum_by, sum_by-append}
use trakx.Common.Bytes.{Bytes}
use trakx.Storage.Types.{Peer, Bytes-discrete}
use trakx.Storage.Memory.{PeerMap, Peers, HashMap, Store}
use trakx.Storage.Memory.Counts.{IsValid}
use trakx.Storage.Memory.Sums.{total_of, over_peers}
use trakx.Storage.Memory.Totals.{TracksBy, Tracks}
use trakx.Storage.Trim.{trim_peers, trim_hashes, trim}
use trakx.Storage.Trim.Inner.{trim_peers-TracksBy}
use trakx.Storage.Trim.Outer.{
  written, written_lem, deleted_lem, written-IsValid, delete-IsValid, counted,
}
use trakx.Stats.{Stats}

-- The sum over a map with an entry in its middle.
total_middle :
    (g : Peer → ℕ) (hash : Bytes) (pm : PeerMap) (front es : HashMap)
    → total_of g (front ++ ((hash, pm) ∷ es))
      ≡ sum_by g pm.peers + (total_of g front + total_of g es)
unfolding total_of sum_by
total_middle g hash pm front es =
    omega (arith, sum_by-append (over_peers g) front ((hash, pm) ∷ es))

total_front :
    (g : Peer → ℕ) (front es : HashMap)
    → total_of g (front ++ es) ≡ total_of g front + total_of g es
unfolding total_of
total_front g front es = sum_by-append (over_peers g) front es

no_peers : (g : Peer → ℕ) (ps : Peers) → (length ps == 0) ≡ true → sum_by g ps ≡ 0
unfolding sum_by
no_peers g [] e = refl
no_peers g (p ∷ ps) e = absurd (ground arith)

same-TracksBy :
    {st : Stats} (w w' : (Peer → ℕ) → ℕ)
    → ((g : Peer → ℕ) → w g ≡ w' g)
    → TracksBy st w
    → TracksBy st w'
same-TracksBy {st} w w' e t = subst (TracksBy st) (fun_ext e) t

module _ (now timeout : ℕ) where
  trim_hashes-Tracks :
      (es front : HashMap) (s : Store)
      → s.hashmap ≡ front ++ es
      → IsValid s.hashmap
      → Tracks s
      → Tracks (trim_hashes false now timeout es s).0
  unfolding trim_hashes
  trim_hashes-Tracks [] front s here v t = t
  trim_hashes-Tracks ((hash, pm) ∷ es) front s here v t =
      let r = trim_peers false now timeout pm.peers (pm, s.stats) in
      let rest = λ (g : Peer → ℕ). total_of g front + total_of g es in
      let c = counted false now timeout hash pm front es s here v in
      let w = written false now timeout hash pm front es s here v in
      let w_lem = written_lem false now timeout hash pm front es s here v in
      let d_lem = deleted_lem false now timeout hash pm front es s here v in
      let wv = written-IsValid false now timeout hash pm front es s here v in
      let before : TracksBy s.stats (λ g. sum_by g pm.peers + rest g) =
        same-TracksBy _ _ (λ g. ap (total_of g) here ∙ total_middle g hash pm front es) t in
      let after : TracksBy r.1 (λ g. sum_by g r.0.peers + rest g) =
        trim_peers-TracksBy now timeout rest pm.peers [] pm s.stats refl c before in
      elim (Bool-cases (length r.0.peers == 0)) [
        | inl e ↦
            let s' : Store = record { hashmap = delete Bytes-discrete hash w; stats = r.1 } in
            rw e (
              trim_hashes-Tracks es front s' d_lem (delete-IsValid hash w wv) (
                same-TracksBy _ _
                  (λ g. sym (
                    ap (total_of g) d_lem
                    ∙ total_front g front es
                    ∙ omega (arith, no_peers g r.0.peers e)))
                  after))
        | inr n ↦
            let s' : Store = record { hashmap = w; stats = r.1 } in
            rw n (
              trim_hashes-Tracks es (front ++ ((hash, r.0) ∷ [])) s'
                (w_lem ∙ sym (append_assoc front ((hash, r.0) ∷ []) es)) wv
                (same-TracksBy _ _
                  (λ g. sym (ap (total_of g) w_lem ∙ total_middle g hash r.0 front es)) after))
      ]

  -- `Trim` keeps the counters in step with the database.
  pub trim-Tracks : (s : Store) → IsValid s.hashmap → Tracks s → Tracks (trim false now timeout s).0
  unfolding trim
  trim-Tracks s v t = trim_hashes-Tracks s.hashmap [] s refl v t

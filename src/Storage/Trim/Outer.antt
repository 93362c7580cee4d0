-- ===== src/Storage/Trim/Outer.antt =====
-- The outer loop of `trim`: what it leaves in the database.
use trakx.Common.{
  ℕ, ◌+◌, ◌≡◌, refl, sym, ap, ◌∙◌, subst, Bool, true, false, List, [], ◌∷◌, ◌++◌, none, length,
  ◌==◌, if◌then◌else◌, append_assoc, Bool-cases, inl, inr, arith,
}
use trakx.Common.Assoc.{
  get, set, delete, sum_by, Distinct, get_middle, get_front, delete_middle, set_middle,
  delete-Distinct, delete-AllValues, get-AllValues,
}
use trakx.Common.Bytes.{Bytes}
use trakx.Storage.Types.{Bytes-discrete}
use trakx.Storage.Memory.{PeerMap, Peers, HashMap, Store}
use trakx.Storage.Memory.Counts.{IsCounted, IsValid, set-IsValid}
use trakx.Storage.Trim.{trim_peers, trim_hashes, trim}
use trakx.Storage.Trim.Inner.{live, IsTrimmed, trim_peers-IsTrimmed}
use trakx.Stats.{Stats}

-- The database without its counters: which peers stand under which hash.
unfoldable pub view : HashMap → List (Bytes × Peers)
view [] = []
view ((hash, pm) ∷ m) = (hash, pm.peers) ∷ view m

-- The same with the expired peers left out, and then the hashes that have no peer.
unfoldable pub live_view : ℕ → ℕ → List (Bytes × Peers) → List (Bytes × Peers)
live_view now timeout [] = []
live_view now timeout ((hash, ps) ∷ v) =
    if length (live now timeout ps) == 0
    then live_view now timeout v
    else (hash, live now timeout ps) ∷ live_view now timeout v

unfoldable pub peers_in : List (Bytes × Peers) → ℕ
peers_in = sum_by length

view-append : (m n : HashMap) → view (m ++ n) ≡ view m ++ view n
unfolding view
view-append [] n = refl
view-append ((hash, pm) ∷ m) n = ap (◌∷◌ (hash, pm.peers)) (view-append m n)

pub delete-IsValid :
    (hash : Bytes) (m : HashMap) → IsValid m → IsValid (delete Bytes-discrete hash m)
delete-IsValid hash m h = record {
  hashes = delete-Distinct Bytes-discrete hash m h.hashes;
  peermaps = delete-AllValues Bytes-discrete IsCounted hash m h.peermaps;
}

module _ (fast : Bool) (now timeout : ℕ) where
  -- `front` is what the loop has left behind it, `es` what it has not reached.
  pub record IsSwept (front es : HashMap) (r : Store × ℕ × ℕ) : Type 0 where
    pub contents : view r.0.hashmap ≡ view front ++ live_view now timeout (view es)
    pub valid : IsValid r.0.hashmap
    pub peers : r.1 + peers_in (live_view now timeout (view es)) ≡ peers_in (view es)
    pub hashes : r.2 + length (live_view now timeout (view es)) ≡ length es

  -- One round, at an entry of the map.
  module _ (hash : Bytes) (pm : PeerMap) (front es : HashMap) (s : Store)
      (here : s.hashmap ≡ front ++ ((hash, pm) ∷ es)) (valid : IsValid s.hashmap) where
    abbrev pub after : PeerMap × Stats × ℕ
    after = trim_peers fast now timeout pm.peers (pm, s.stats)

    pub fresh : get Bytes-discrete hash front ≡ none
    fresh =
        get_front Bytes-discrete hash pm front es
          (subst (Distinct Bytes-discrete) here valid.hashes)

    pub counted : IsCounted pm
    counted =
        get-AllValues Bytes-discrete IsCounted hash s.hashmap valid.peermaps
          (ap (get Bytes-discrete hash) here ∙ get_middle Bytes-discrete hash pm front es fresh)

    inner : IsTrimmed fast now timeout [] pm.peers after
    inner = trim_peers-IsTrimmed fast now timeout pm.peers [] pm s.stats refl counted

    abbrev pub written : HashMap
    written = set Bytes-discrete hash after.0 s.hashmap

    pub written_lem : written ≡ front ++ ((hash, after.0) ∷ es)
    written_lem =
        ap (set Bytes-discrete hash after.0) here
        ∙ set_middle Bytes-discrete hash pm after.0 front es fresh

    pub deleted_lem : delete Bytes-discrete hash written ≡ front ++ es
    deleted_lem =
        ap (delete Bytes-discrete hash) written_lem
        ∙ delete_middle Bytes-discrete hash after.0 front es fresh

    pub written-IsValid : IsValid written
    written-IsValid = set-IsValid hash after.0 s.hashmap inner.counted valid

  pub trim_hashes-IsSwept :
      (es front : HashMap) (s : Store)
      → s.hashmap ≡ front ++ es
      → IsValid s.hashmap
      → IsSwept front es (trim_hashes fast now timeout es s)
  unfolding trim_hashes view live_view peers_in sum_by
  trim_hashes-IsSwept [] front s here v = record {
    contents = ap view here ∙ view-append front [];
    valid = v;
    peers = refl;
    hashes = refl;
  }
  trim_hashes-IsSwept ((hash, pm) ∷ es) front s here v =
      let r = trim_peers fast now timeout pm.peers (pm, s.stats) in
      let left : r.0.peers ≡ live now timeout pm.peers = (inner hash pm front es s here v).peers in
      let gone = (inner hash pm front es s here v).removed in
      let w = written hash pm front es s here v in
      elim (Bool-cases (length r.0.peers == 0)) [
        | inl e ↦
            let none_live : (length (live now timeout pm.peers) == 0) ≡ true = rw left at e in
            let s' : Store = record { hashmap = delete Bytes-discrete hash w; stats = r.1 } in
            let ih =
              trim_hashes-IsSwept es front s' (deleted_lem hash pm front es s here v)
                (delete-IsValid hash w (written-IsValid hash pm front es s here v)) in
            rw e (record {
              contents = rw none_live ih.contents;
              valid = ih.valid;
              peers = rw none_live (ground (arith, ih.peers));
              hashes = rw none_live (omega (arith, ih.hashes));
            })
        | inr n ↦
            let some_live : (length (live now timeout pm.peers) == 0) ≡ false = rw left at n in
            let s' : Store = record { hashmap = w; stats = r.1 } in
            let next = front ++ ((hash, r.0) ∷ []) in
            let ih =
              trim_hashes-IsSwept es next s'
                (written_lem hash pm front es s here v
                  ∙ sym (append_assoc front ((hash, r.0) ∷ []) es))
                (written-IsValid hash pm front es s here v) in
            rw n (record {
              contents =
                  rw some_live
                    (ih.contents ∙ rw (view-append front ((hash, r.0) ∷ []), append_assoc, left));
              valid = ih.valid;
              peers = rw some_live (omega (arith, ih.peers, gone));
              hashes = rw some_live (omega (arith, ih.hashes));
            })
      ]

  -- `Trim` keeps the invariant. It leaves, in order, the hashes that have a peer seen within the
  -- timeout, each with these peers as they were, and nothing else; and it returns the number of
  -- peers and the number of hashes that are gone.
  pub trim-IsSwept :
      (s : Store) → IsValid s.hashmap → IsSwept [] s.hashmap (trim fast now timeout s)
  unfolding trim
  trim-IsSwept s v = trim_hashes-IsSwept s.hashmap [] s refl v

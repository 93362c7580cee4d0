-- ===== src/Storage/Map/Swept.antt =====
-- `trim` of tracker/storage/map/memory.go, at every hash and peer id.
use trakx.Common.{
  ℕ, ◌≡◌, refl, sym, ap, ◌∙◌, Bool, true, List, [], ◌∷◌, Option, none, some, length, ◌==◌, arith,
  Bool-cases, inl, inr,
}
use mathlib.Core.Logic.{ite}
use trakx.Common.Assoc.{get, Distinct, AllValues}
use trakx.Common.Bytes.{Bytes}
use trakx.Storage.Types.{Peer, Bytes-discrete}
use trakx.Storage.Memory.{PeerMap, Peers, HashMap, Store}
use trakx.Storage.Memory.Counts.{IsValid, IsCounted}
use trakx.Storage.Memory.Sums.{peer_of}
use trakx.Storage.Trim.{trim}
use trakx.Storage.Trim.Inner.{live}
use trakx.Storage.Trim.Outer.{view, live_view, trim-IsSwept}
use trakx.Storage.Map.{unexpired}

-- `peer_of` on a view.
unfoldable peer_in : Bytes → Bytes → List (Bytes × Peers) → Option Peer
peer_in hash id v = elim (get Bytes-discrete hash v) [
  | none ↦ none
  | some ps ↦ get Bytes-discrete id ps
]

peer_in-view : (hash id : Bytes) (m : HashMap) → peer_in hash id (view m) ≡ peer_of hash id m
unfolding peer_in view peer_of get
peer_in-view hash id [] = refl
peer_in-view hash id ((h, pm) ∷ m) = ground (arith, peer_in-view hash id m)

get-live :
    (now timeout : ℕ) (id : Bytes) (ps : Peers)
    → Distinct Bytes-discrete ps
    → get Bytes-discrete id (live now timeout ps) ≡ unexpired now timeout (get Bytes-discrete id ps)
unfolding get live
get-live now timeout id [] d = refl
get-live now timeout id ((i, p) ∷ ps) (n, d) = ground (arith, get-live now timeout id ps d, n)

nothing_live : (ps : Peers) → (length ps == 0) ≡ true → ps ≡ []
nothing_live [] e = refl
nothing_live (p ∷ ps) e = absurd (ground (arith, e))

absent :
    (hash id : Bytes) (m : HashMap) → get Bytes-discrete hash m ≡ none → peer_of hash id m ≡ none
unfolding peer_of
absent hash id m e = rw (e, peer_of)

peer_of-cons :
    (hash id h : Bytes) (pm : PeerMap) (m : HashMap)
    → peer_of hash id ((h, pm) ∷ m)
      ≡ ite (Bytes-discrete hash h) (get Bytes-discrete id pm.peers) (peer_of hash id m)
unfolding peer_of get
peer_of-cons hash id h pm m = ground arith

peer_in-cons :
    (hash id h : Bytes) (ps : Peers) (v : List (Bytes × Peers))
    → peer_in hash id ((h, ps) ∷ v)
      ≡ ite (Bytes-discrete hash h) (get Bytes-discrete id ps) (peer_in hash id v)
unfolding peer_in get
peer_in-cons hash id h ps v = ground arith

unexpired-ite :
    {P : Type 0} (now timeout : ℕ) (d : Dec P) (a b : Option Peer)
    → ite d (unexpired now timeout a) (unexpired now timeout b) ≡ unexpired now timeout (ite d a b)
unexpired-ite now timeout (yes p) a b = refl
unexpired-ite now timeout (no n) a b = refl

-- A hash with no peer left, which the view leaves out.
skip_hash : {P : Type 0} (d : Dec P) (a b : Option Peer) → a ≡ none → (P → b ≡ none) → b ≡ ite d a b
skip_hash (yes p) a b e n = n p ∙ sym e
skip_hash (no q) a b e n = refl

peer_in-live_view :
    (now timeout : ℕ) (hash id : Bytes) (m : HashMap)
    → Distinct Bytes-discrete m
    → AllValues Bytes-discrete IsCounted m
    → peer_in hash id (live_view now timeout (view m)) ≡ unexpired now timeout (peer_of hash id m)
unfolding live_view view
peer_in-live_view now timeout hash id [] d c = unfold peer_in peer_of get in refl
peer_in-live_view now timeout hash id ((h, pm) ∷ m) (fresh, d) (c, cs) =
    let rest = peer_in-live_view now timeout hash id m d cs in
    let kept = get-live now timeout id pm.peers c.ids in
    let both : ite (Bytes-discrete hash h) (get Bytes-discrete id (live now timeout pm.peers))
          (peer_in hash id (live_view now timeout (view m)))
        ≡ unexpired now timeout (peer_of hash id ((h, pm) ∷ m)) =
      rw (rest, kept, peer_of-cons hash id h pm m)
        (unexpired-ite now timeout (Bytes-discrete hash h) (get Bytes-discrete id pm.peers)
          (peer_of hash id m)) in
    let gone : (hash ≡ h) → peer_in hash id (live_view now timeout (view m)) ≡ none = λ e.
      rest
      ∙ ap (unexpired now timeout)
          (absent hash id m (ap (λ x. get Bytes-discrete x m) e ∙ fresh)) in
    elim (Bool-cases (length (live now timeout pm.peers) == 0)) [
      | inl e ↦
          let nothing : get Bytes-discrete id (live now timeout pm.peers) ≡ none =
            ap (get Bytes-discrete id) (nothing_live (live now timeout pm.peers) e)
            ∙ unfold get in refl in
          rw e (skip_hash (Bytes-discrete hash h) _ _ nothing gone ∙ both)
      | inr e ↦ rw e (
          peer_in-cons hash id h (live now timeout pm.peers) (live_view now timeout (view m))
          ∙ both)
    ]

-- After `trim` on a valid database, what stands under a hash and an id is what stood there, unless it
-- has expired.
pub peer_of-trim :
    (fast : Bool) (now timeout : ℕ) (hash id : Bytes) (s : Store)
    → IsValid s.hashmap
    → peer_of hash id (trim fast now timeout s).0.hashmap
      ≡ unexpired now timeout (peer_of hash id s.hashmap)
peer_of-trim fast now timeout hash id s v =
    let swept = trim-IsSwept fast now timeout s v in
    sym (peer_in-view hash id _)
    ∙ ap (peer_in hash id) swept.contents
    ∙ unfold view in peer_in-live_view now timeout hash id s.hashmap v.hashes v.peermaps

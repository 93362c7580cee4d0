-- ===== src/Storage/Locks/Pointed.antt =====
-- The pointers of the database of tracker/storage/map, by hash and id.
use trakx.Common.{
  ℕ, ◌<◌, ◌≡◌, ◌≢◌, refl, sym, ap, ◌∙◌, List, [], ◌∷◌, ◌++◌, Option, none, some, length, All,
  Option-cases, inl, inr, arith,
}
use trakx.Common
use trakx.Common.Assoc.{get, get-AllValues}
use trakx.Common.Bytes.{Bytes}
use trakx.Common.Heap.{deref, deref-set_self, deref-set_ne}
use trakx.Storage.Types.{Peer, Bytes-discrete}
use trakx.Storage.Map.{write}
use trakx.Storage.Locks.{SharedMap, Shared, peer_at}
use trakx.Storage.Locks.Invariant.{Fits, IsAllocated, All-deref}
use mathlib.Core.Logic.{ite, if_pos, if_neg}

-- The pointer to the peer with this id under this hash.
unfoldable pub pointer_in : Bytes → Bytes → List (Bytes × ℕ) → List SharedMap → Option ℕ
pointer_in h i hashmap peermaps = elim (get Bytes-discrete h hashmap) [
  | none ↦ none
  | some p ↦ elim (deref p peermaps) [ none ↦ none | some pm ↦ get Bytes-discrete i pm.pointers ]
]

abbrev pub at_pointer : List Peer → Option ℕ → Option Peer
at_pointer peers none = none
at_pointer peers (some q) = deref q peers

pub peer_at-pointer_in :
    (h i : Bytes) (s : Shared)
    → peer_at h i s ≡ at_pointer s.peers (pointer_in h i s.hashmap s.peermaps)
unfolding peer_at pointer_in
peer_at-pointer_in h i s = elim (Option-cases (get Bytes-discrete h s.hashmap)) [
  | inl e ↦ rw (e, peer_at, pointer_in) refl
  | inr (p, e) ↦ elim (Option-cases (deref p s.peermaps)) [
    | inl f ↦ rw (e, peer_at, pointer_in) (rw f refl)
    | inr (pm, f) ↦ elim (Option-cases (get Bytes-discrete i pm.pointers)) [
      | inl g ↦ rw (e, peer_at, pointer_in) (rw f (rw g refl))
      | inr (q, g) ↦ rw (e, peer_at, pointer_in) (rw f (rw g refl))
    ]
  ]
]

pub pointer_in-some :
    (h i : Bytes) (hashmap : List (Bytes × ℕ)) (peermaps : List SharedMap) {p : ℕ} {pm : SharedMap}
    → get Bytes-discrete h hashmap ≡ some p
    → deref p peermaps ≡ some pm
    → pointer_in h i hashmap peermaps ≡ get Bytes-discrete i pm.pointers
unfolding pointer_in
pointer_in-some h i hashmap peermaps e f = rw (e, pointer_in) (rw f refl)

pub pointer_in-none :
    (h i : Bytes) (hashmap : List (Bytes × ℕ)) (peermaps : List SharedMap)
    → get Bytes-discrete h hashmap ≡ none
    → pointer_in h i hashmap peermaps ≡ none
unfolding pointer_in
pointer_in-none h i hashmap peermaps e = rw (e, pointer_in) refl

-- A hash has its peermap to itself, a peer stands in one place, and no peer of the database is in the
-- pool.
pub record IsUnshared (s : Shared) : Type 0 where
  pub allocated : IsAllocated s
  pub own_map :
      (h h' : Bytes) (p : ℕ)
      → get Bytes-discrete h s.hashmap ≡ some p
      → get Bytes-discrete h' s.hashmap ≡ some p
      → h ≡ h'
  pub own_peer :
      (h h' i i' : Bytes) (q : ℕ)
      → pointer_in h i s.hashmap s.peermaps ≡ some q
      → pointer_in h' i' s.hashmap s.peermaps ≡ some q
      → (h ≡ h') × (i ≡ i')
  pub not_pooled :
      (h i : Bytes) (c q : ℕ)
      → pointer_in h i s.hashmap s.peermaps ≡ some q
      → deref c s.pool ≢ some q

-- The pointers after one peermap has been changed.
pub pointer_in-set :
    (hash : Bytes) (p : ℕ) (pm' : SharedMap) (s : Shared) (h i : Bytes)
    → IsUnshared s
    → get Bytes-discrete hash s.hashmap ≡ some p
    → p < length s.peermaps
    → pointer_in h i s.hashmap (Common.set s.peermaps p pm')
      ≡ ite
          (Bytes-discrete h hash)
          (get Bytes-discrete i pm'.pointers)
          (pointer_in h i s.hashmap s.peermaps)
unfolding pointer_in
pointer_in-set hash p pm' s h i u g l = elim (Bytes-discrete h hash) [
  | yes e ↦ rw (if_pos _ e) (
      pointer_in-some h i s.hashmap (Common.set s.peermaps p pm')
        (ap (λ k. get Bytes-discrete k s.hashmap) e ∙ g) (deref-set_self p s.peermaps pm' l))
  | no n ↦ rw (if_neg _ n) (elim (Option-cases (get Bytes-discrete h s.hashmap)) [
    | inl e ↦ rw (e, pointer_in) refl
    | inr (r, e) ↦
        rw (e, pointer_in)
          (rw
            (deref-set_ne r p s.peermaps pm'
              (λ same. n (u.own_map h hash r e (g ∙ ap some (sym same)))))
            refl)
  ])
]

-- Every pointer is one to a peer.
pub pointer_in_lt :
    (h i : Bytes) (s : Shared) {q : ℕ}
    → IsAllocated s
    → pointer_in h i s.hashmap s.peermaps ≡ some q
    → q < length s.peers
unfolding pointer_in
pointer_in_lt h i s {q} a e = elim (Option-cases (get Bytes-discrete h s.hashmap)) [
  | inl f ↦ absurd (ground (arith, e, pointer_in-none h i s.hashmap s.peermaps f))
  | inr (p, f) ↦ elim (Option-cases (deref p s.peermaps)) [
    | inl g ↦ absurd (ground (arith, (rw (f, pointer_in) at e), g))
    | inr (pm, g) ↦
        get-AllValues Bytes-discrete (λ r. r < length s.peers) i pm.pointers
          (All-deref (λ m. Fits (length s.peers) m.pointers) s.peermaps p a.objects g)
          (sym (pointer_in-some h i s.hashmap s.peermaps f g) ∙ e)
  ]
]

-- A function of what two decisions choose.
chosen :
    {P Q : Type 0} (d : Dec P) (e : Dec Q) (f : Option ℕ → Option Peer) (x y : Option ℕ)
    {v b : Option Peer}
    → f x ≡ v
    → ((P × Q → ⊥) → f y ≡ b)
    → f (ite d (ite e x y) y) ≡ ite d (ite e v b) b
chosen (yes p) (yes q) f x y h k = h
chosen (yes p) (no n) f x y h k = k (λ r. n r.1)
chosen (no n) e f x y h k = k (λ r. n r.0)

-- One peer is stored, at a pointer that is that of its hash and id and of no other.
pub stored_once :
    (hash id : Bytes) (q : ℕ) (v : Peer) (before after : Bytes → Bytes → Option ℕ)
    (peers peers' : List Peer)
    → ((h i : Bytes)
        → after h i
          ≡ ite
              (Bytes-discrete h hash)
              (ite (Bytes-discrete i id) (some q) (before h i))
              (before h i))
    → ((h i : Bytes) → before h i ≡ some q → (h ≡ hash) × (i ≡ id))
    → ((h i : Bytes) (r : ℕ) → before h i ≡ some r → r ≢ q → deref r peers' ≡ deref r peers)
    → deref q peers' ≡ some v
    → (h i : Bytes)
    → at_pointer peers' (after h i)
      ≡ write hash id (some v) (λ h i. at_pointer peers (before h i)) h i
stored_once hash id q v before after peers peers' points only kept stored h i =
    ap (at_pointer peers') (points h i)
    ∙ chosen (Bytes-discrete h hash) (Bytes-discrete i id) (at_pointer peers') (some q) (before h i)
        stored
        (λ other. elim (Option-cases (before h i)) [
          | inl e ↦ rw e refl
          | inr (r, e) ↦ rw e (kept h i r e (λ same. other (only h i (e ∙ ap some same))))
        ])

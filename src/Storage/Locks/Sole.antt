-- ===== src/Storage/Locks/Sole.antt =====
-- A `Save` of tracker/storage/map that runs with no other thread between its steps.
use trakx.Common.{
  ℕ, suc, ◌<◌, ◌≡◌, ◌≢◌, refl, sym, ap, ◌∙◌, Bool, true, false, List, [], ◌∷◌, ◌++◌, Option, none,
  some, length, length-append, Option-cases, inl, inr, arith,
}
use trakx.Common
use trakx.Common.Assoc
use trakx.Common.Assoc.{get, get-set}
use trakx.Common.Bytes.{Bytes}
use trakx.Common.Heap.{
  deref, deref-append, deref-new, deref-set_self, deref-set_ne, lt_of_deref, deref_of_lt,
}
use trakx.Storage.Types.{Peer, Bytes-discrete}
use trakx.Storage.Memory.{update_stats, update_counts}
use trakx.Storage.Map.{write}
use trakx.Storage.Locks
use trakx.Storage.Locks.{
  SharedMap, Shared, Saving, looking, storing, finished, zero_peer, counts_of, with_counts,
  saved_peer, step, peer_at,
}
use trakx.Storage.Locks.Alone.{
  alone, fresh, reused, get_peer_new, get_peer_pooled, saved_got, storing_lem, looking_some,
  alone-reading,
}
use trakx.Storage.Locks.Stale.{found_map, found_state, alone-looking}
use trakx.Storage.Locks.Invariant.{All-deref}
use trakx.Storage.Locks.Pointed.{
  pointer_in, at_pointer, peer_at-pointer_in, pointer_in-some, IsUnshared, pointer_in-set,
  pointer_in_lt, stored_once,
}
use mathlib.Core.Logic.{ite}

-- What the state holds after a step, against what it held: one peer is written.
abbrev pub IsWritten : Saving → Shared → Shared → Type 0
IsWritten a s s' =
    (h i : Bytes)
    → peer_at h i s' ≡ write a.hash a.id (some (saved_peer a)) (λ h i. peer_at h i s) h i

where_yes : {P : Type 0} (d : Dec P) (x y z : Option ℕ) → (P → x ≡ y) → ite d x z ≡ ite d y z
where_yes (yes p) x y z h = h p
where_yes (no n) x y z h = refl

same_at_yes : {P : Type 0} (d : Dec P) (x y : Option ℕ) → (P → x ≡ y) → x ≡ ite d y x
same_at_yes (yes p) x y h = h p
same_at_yes (no n) x y h = refl

-- The pointers of a state whose peermap at the hash has got the pointer.
pointed :
    (hash id : Bytes) (p q : ℕ) (pm pm' : SharedMap) (s : Shared)
    → IsUnshared s
    → get Bytes-discrete hash s.hashmap ≡ some p
    → deref p s.peermaps ≡ some pm
    → ((i : Bytes)
        → get Bytes-discrete i pm'.pointers
          ≡ ite (Bytes-discrete i id) (some q) (get Bytes-discrete i pm.pointers))
    → (h i : Bytes)
    → pointer_in h i s.hashmap (Common.set s.peermaps p pm')
      ≡ ite
          (Bytes-discrete h hash)
          (ite (Bytes-discrete i id) (some q) (pointer_in h i s.hashmap s.peermaps))
          (pointer_in h i s.hashmap s.peermaps)
pointed hash id p q pm pm' s u g e points h i =
    pointer_in-set hash p pm' s h i u g (lt_of_deref p s.peermaps e)
    ∙ where_yes (Bytes-discrete h hash) _ _ _ (λ y.
      points i
      ∙ ap (ite (Bytes-discrete i id) (some q)) (
          sym (
            pointer_in-some h i s.hashmap s.peermaps
              (ap (λ k. get Bytes-discrete k s.hashmap) y ∙ g) e)))

-- A state in which one peermap has got the pointer, and the peer is stored there.
written :
    (a : Saving) (p q : ℕ) (pm pm' : SharedMap) (s s' : Shared)
    → IsUnshared s
    → get Bytes-discrete a.hash s.hashmap ≡ some p
    → deref p s.peermaps ≡ some pm
    → ((i : Bytes)
        → get Bytes-discrete i pm'.pointers
          ≡ ite (Bytes-discrete i a.id) (some q) (get Bytes-discrete i pm.pointers))
    → s'.hashmap ≡ s.hashmap
    → s'.peermaps ≡ Common.set s.peermaps p pm'
    → ((h i : Bytes) → pointer_in h i s.hashmap s.peermaps ≡ some q → (h ≡ a.hash) × (i ≡ a.id))
    → ((h i : Bytes) (r : ℕ)
        → pointer_in h i s.hashmap s.peermaps ≡ some r
        → r ≢ q
        → deref r s'.peers ≡ deref r s.peers)
    → deref q s'.peers ≡ some (saved_peer a)
    → IsWritten a s s'
written a p q pm pm' s s' u g e points same_map same_maps only kept stored h i =
    peer_at-pointer_in h i s'
    ∙ ap (λ m. at_pointer s'.peers (pointer_in h i m s'.peermaps)) same_map
    ∙ ap (λ m. at_pointer s'.peers (pointer_in h i s.hashmap m)) same_maps
    ∙ stored_once a.hash a.id q (saved_peer a) (λ h i. pointer_in h i s.hashmap s.peermaps)
        (λ h i. pointer_in h i s.hashmap (Common.set s.peermaps p pm')) s.peers s'.peers
        (pointed a.hash a.id p q pm pm' s u g e points) only kept stored h i
    ∙ ap
        (λ x. ite (Bytes-discrete h a.hash) (ite (Bytes-discrete i a.id) (some (saved_peer a)) x) x)
        (sym (peer_at-pointer_in h i s))

module _ (fast : Bool) (a : Saving) (p : ℕ) (pm : SharedMap) (s : Shared) (u : IsUnshared s)
    (g : get Bytes-discrete a.hash s.hashmap ≡ some p) (e : deref p s.peermaps ≡ some pm) where
  -- A peer that is there.
  sole_found :
      (q : ℕ) (old : Peer)
      → get Bytes-discrete a.id pm.pointers ≡ some q
      → deref q s.peers ≡ some old
      → (s' : Shared) × (alone fast 5 (looking a, s) ≡ (finished, s'))
        × IsWritten a s s'
        × (s'.stats ≡ update_stats fast (peer_at a.hash a.id s) a.complete a.ip s.stats)
  unfolding alone
  sole_found q old f o =
      let mid = found_state fast a p pm old s in
      let s' : Shared = record mid { peers = Common.set s.peers q (saved_peer a) } in
      let here : pointer_in a.hash a.id s.hashmap s.peermaps ≡ some q =
        pointer_in-some a.hash a.id s.hashmap s.peermaps g e ∙ f in
      (
        s',
        ap (alone fast 1) (alone-looking fast a p q s g e f o) ∙ storing_lem fast a q mid o,
        written a p q pm (found_map a pm old) s s' u g e
            (λ i.
              same_at_yes (Bytes-discrete i a.id) (get Bytes-discrete i pm.pointers) (some q)
                (λ y. ap (λ k. get Bytes-discrete k pm.pointers) y ∙ f))
            refl refl (λ h i x. u.own_peer h a.hash i a.id q x here)
            (λ h i r x n. deref-set_ne r q s.peers (saved_peer a) n)
            (deref-set_self q s.peers (saved_peer a) (lt_of_deref q s.peers o)),
        ap (λ x. update_stats fast x a.complete a.ip s.stats)
            (sym (peer_at-pointer_in a.hash a.id s ∙ ap (at_pointer s.peers) here ∙ o)),
      )

  -- A new peer, with what the pool hands out.
  sole_new :
      (q : ℕ) (t : Shared) (peer : Peer)
      → get Bytes-discrete a.id pm.pointers ≡ none
      → Locks.get_peer a.choice s ≡ (q, t)
      → deref q t.peers ≡ some peer
      → t.hashmap ≡ s.hashmap
      → t.peermaps ≡ s.peermaps
      → t.stats ≡ s.stats
      → ((h i : Bytes) → pointer_in h i s.hashmap s.peermaps ≢ some q)
      → ((r : ℕ) → r < length s.peers → deref r t.peers ≡ deref r s.peers)
      → (s' : Shared) × (alone fast 5 (looking a, s) ≡ (finished, s'))
        × IsWritten a s s'
        × (s'.stats ≡ update_stats fast (peer_at a.hash a.id s) a.complete a.ip s.stats)
  unfolding alone
  sole_new q t peer f got there m1 m2 m3 free kept =
      let pm' =
        with_counts (update_counts none a.complete (counts_of pm))
          (Assoc.set Bytes-discrete a.id q pm.pointers) in
      let s' = saved_got fast a p pm (q, t) in
      let here : pointer_in a.hash a.id s.hashmap s.peermaps ≡ none =
        pointer_in-some a.hash a.id s.hashmap s.peermaps g e ∙ f in
      (
        s',
        ap (alone fast 4) (looking_some fast a s g) ∙ alone-reading fast a p pm s e f got there,
        written a p q pm pm' s s' u g e (λ i. get-set Bytes-discrete i a.id q pm.pointers) m1
            (ap (λ l. Common.set l p pm') m2) (λ h i x. absurd (free h i x))
            (λ h i r x n.
              deref-set_ne r q t.peers (saved_peer a) n
              ∙ kept r (pointer_in_lt h i s u.allocated x))
            (deref-set_self q t.peers (saved_peer a) (lt_of_deref q t.peers there)),
        ap (update_stats fast none a.complete a.ip) m3
            ∙ ap (λ x. update_stats fast x a.complete a.ip s.stats)
                (sym (peer_at-pointer_in a.hash a.id s ∙ ap (at_pointer s.peers) here)),
      )

  -- In a database whose pointers are ones to objects, where no two hashes share a peermap, no peer stands in two places,
  -- and no peer of the database is in the pool, a Save of a hash that is there, with no other
  -- thread between its steps, finishes within five steps. It writes its peer under its hash and id and changes no other,
  -- and it changes the global counters by what was there, whatever the pool hands out.
  pub alone-IsWritten :
      (s' : Shared) × (alone fast 5 (looking a, s) ≡ (finished, s'))
      × IsWritten a s s'
      × (s'.stats ≡ update_stats fast (peer_at a.hash a.id s) a.complete a.ip s.stats)
  alone-IsWritten = elim (Option-cases (get Bytes-discrete a.id pm.pointers)) [
    | inr (q, f) ↦
        let (old, o) = deref_of_lt q s.peers (
          pointer_in_lt a.hash a.id s u.allocated
            (pointer_in-some a.hash a.id s.hashmap s.peermaps g e ∙ f)) in
        sole_found q old f o
    | inl f ↦ elim (Option-cases (deref a.choice s.pool)) [
      | inl c ↦
          sole_new (length s.peers) (fresh s).1 zero_peer f (get_peer_new a.choice s c)
            (deref-new s.peers zero_peer) refl refl refl
            (λ h i x. absurd (omega (arith, pointer_in_lt h i s u.allocated x)))
            (λ r l. deref-append r s.peers (zero_peer ∷ []) l)
      | inr (q, c) ↦
          let (peer, o) =
            deref_of_lt q s.peers
              (All-deref (λ r. r < length s.peers) s.pool a.choice u.allocated.pooled c) in
          sole_new q (reused a.choice q s).1 peer f (get_peer_pooled a.choice s c) o refl refl refl
            (λ h i x. u.not_pooled h i a.choice q x c) (λ r l. refl)
    ]
  ]

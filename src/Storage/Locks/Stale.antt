-- ===== src/Storage/Locks/Stale.antt =====
-- An order of the steps of tracker/storage/map in which a peer is written after it has gone back to the
-- pool and out again.
use trakx.Common.{
  ℕ, ◌≡◌, ◌≢◌, refl, sym, ap, ◌∙◌, Bool, true, false, List, [], ◌∷◌, Option, none, some,
  if◌then◌else◌, arith,
}
use trakx.Common
use trakx.Common.Assoc
use trakx.Common.Assoc.{get, get-set_self, get-delete_ne}
use trakx.Common.Bytes.{Bytes}
use trakx.Common.Heap.{deref, deref-set_self, lt_of_deref}
use trakx.Storage.Types.{Peer, Bytes-discrete}
use trakx.Storage.Memory.{update_counts, update_stats, drop_counts, drop_stats}
use trakx.Storage.Locks.{
  SharedMap, Shared, Saving, looking, reading, writing, counting, storing, drop_looking,
  drop_locking, drop_counting, finished, write_found, counts_of, with_counts, saved_peer,
  step_writing, step_dropping, step, run, peer_at,
}
use trakx.Storage.Locks.Alone.{
  repeat, alone, saved_got, reused, get_peer_pooled, counting_lem, storing_lem, looking_some,
  alone-reading, first_steps, second_steps, third_steps,
}

-- A Save goes on until it is about to store its peer, a Drop and another Save run to their ends, and
-- the first stores.
abbrev pub stale : List ℕ
stale = repeat 0 4 (repeat 1 3 (repeat 2 5 (0 ∷ [])))

-- The peermap when a peer has been found and counted, and when it has been dropped.
abbrev pub found_map : Saving → SharedMap → Peer → SharedMap
found_map a pm old = with_counts (update_counts (some old) a.complete (counts_of pm)) pm.pointers

abbrev dropped_map : Bytes → SharedMap → Peer → SharedMap
dropped_map id pm old =
    with_counts (drop_counts old (counts_of pm)) (Assoc.delete Bytes-discrete id pm.pointers)

module _ (fast : Bool) where
  abbrev pub found_state : Saving → ℕ → SharedMap → Peer → Shared → Shared
  found_state a p pm old s = record s {
    peermaps = Common.set s.peermaps p (found_map a pm old);
    stats = update_stats fast (some old) a.complete a.ip s.stats;
  }

  abbrev dropped_state : Bytes → ℕ → ℕ → SharedMap → Peer → Shared → Shared
  dropped_state id p q pm old s = record s {
    peermaps = Common.set s.peermaps p (dropped_map id pm old);
    stats = drop_stats fast old s.stats;
    pool = q ∷ s.pool;
  }

  reading_found :
      (a : Saving) (p q : ℕ) (s : Shared) {pm : SharedMap}
      → deref p s.peermaps ≡ some pm
      → get Bytes-discrete a.id pm.pointers ≡ some q
      → step fast (reading a p) s ≡ (writing a p (some q), s)
  unfolding step
  reading_found a p q s e f = rw (e, step) (rw f refl)

  writing_found :
      (a : Saving) (p q : ℕ) (s : Shared) {pm : SharedMap} {old : Peer}
      → deref p s.peermaps ≡ some pm
      → deref q s.peers ≡ some old
      → step fast (writing a p (some q)) s
        ≡ (counting a q true, record s { peermaps = Common.set s.peermaps p (found_map a pm old) })
  unfolding step step_writing write_found
  writing_found a p q s e o = rw (e, step_writing) (rw o refl)

  -- A Save of a peer that is there, up to the store.
  pub alone-looking :
      (a : Saving) (p q : ℕ) (s : Shared) {pm : SharedMap} {old : Peer}
      → get Bytes-discrete a.hash s.hashmap ≡ some p
      → deref p s.peermaps ≡ some pm
      → get Bytes-discrete a.id pm.pointers ≡ some q
      → deref q s.peers ≡ some old
      → alone fast 4 (looking a, s) ≡ (storing a q, found_state a p pm old s)
  unfolding alone
  alone-looking a p q s g e f o =
      ap (alone fast 3) (looking_some fast a s g)
      ∙ ap (alone fast 2) (reading_found a p q s e f)
      ∙ ap (alone fast 1) (writing_found a p q s e o)
      ∙ counting_lem fast a q true _ o

  drop_looking_lem :
      (hash id : Bytes) (p : ℕ) (s : Shared)
      → get Bytes-discrete hash s.hashmap ≡ some p
      → step fast (drop_looking hash id) s ≡ (drop_locking id p, s)
  unfolding step
  drop_looking_lem hash id p s g = rw (g, step) refl

  drop_locking_lem :
      (id : Bytes) (p q : ℕ) (s : Shared) {pm : SharedMap} {old : Peer}
      → deref p s.peermaps ≡ some pm
      → get Bytes-discrete id pm.pointers ≡ some q
      → deref q s.peers ≡ some old
      → step fast (drop_locking id p) s
        ≡ (drop_counting q, record s { peermaps = Common.set s.peermaps p (dropped_map id pm old) })
  unfolding step step_dropping
  drop_locking_lem id p q s e f o = rw (e, step_dropping) (rw f (rw o refl))

  drop_counting_lem :
      (q : ℕ) (s : Shared) {old : Peer}
      → deref q s.peers ≡ some old
      → step fast (drop_counting q) s
        ≡ (finished, record s { stats = drop_stats fast old s.stats; pool = q ∷ s.pool })
  unfolding step
  drop_counting_lem q s o = rw (o, step) refl

  alone-dropping :
      (hash id : Bytes) (p q : ℕ) (s : Shared) {pm : SharedMap} {old : Peer}
      → get Bytes-discrete hash s.hashmap ≡ some p
      → deref p s.peermaps ≡ some pm
      → get Bytes-discrete id pm.pointers ≡ some q
      → deref q s.peers ≡ some old
      → alone fast 3 (drop_looking hash id, s) ≡ (finished, dropped_state id p q pm old s)
  unfolding alone
  alone-dropping hash id p q s g e f o =
      ap (alone fast 2) (drop_looking_lem hash id p s g)
      ∙ ap (alone fast 1) (drop_locking_lem id p q s e f o)
      ∙ drop_counting_lem q _ o

  -- A Save of a peer that is there is about to store it when the peer is dropped, and another Save,
  -- of a new id under the same hash, gets it from the pool and runs to its end. Then the first stores. All
  -- three finish, and under the new id stands what the first has stored: its address and its
  -- port, with what it said of its completion.
  pub run-stale :
      (a b : Saving) (p q : ℕ) (pm : SharedMap) (old : Peer) (s : Shared)
      → get Bytes-discrete a.hash s.hashmap ≡ some p
      → deref p s.peermaps ≡ some pm
      → get Bytes-discrete a.id pm.pointers ≡ some q
      → deref q s.peers ≡ some old
      → b.hash ≡ a.hash
      → get Bytes-discrete b.id pm.pointers ≡ none
      → b.choice ≡ 0
      → (s' : Shared) × (run fast stale (looking a ∷ drop_looking a.hash a.id ∷ looking b ∷ [], s)
          ≡ (finished ∷ finished ∷ finished ∷ [], s'))
        × (peer_at b.hash b.id s' ≡ some (saved_peer a))
  unfolding peer_at run alone
  run-stale a b p q pm old s g e f o same n c =
      let s1 = found_state a p pm old s in
      let pm1 = found_map a pm old in
      let e1 : deref p s1.peermaps ≡ some pm1 =
        deref-set_self p s.peermaps pm1 (lt_of_deref p s.peermaps e) in
      let s2 = dropped_state a.id p q pm1 old s1 in
      let pm2 = dropped_map a.id pm1 old in
      let e2 : deref p s2.peermaps ≡ some pm2 =
        deref-set_self p s1.peermaps pm2 (lt_of_deref p s1.peermaps e1) in
      let new : b.id ≢ a.id = λ i. absurd (ground (arith, n, f, i)) in
      let n2 : get Bytes-discrete b.id pm2.pointers ≡ none =
        get-delete_ne Bytes-discrete b.id a.id pm.pointers new ∙ n in
      let got = get_peer_pooled b.choice s2 (ap (λ i. deref i (q ∷ s.pool)) c) in
      let s3 = saved_got fast b p pm2 (reused b.choice q s2) in
      let o3 : deref q s3.peers ≡ some (saved_peer b) =
        deref-set_self q s.peers (saved_peer b) (lt_of_deref q s.peers o) in
      let s4 : Shared = record s3 { peers = Common.set s3.peers q (saved_peer a) } in
      let h4 : get Bytes-discrete b.hash s.hashmap ≡ some p =
        ap (λ h. get Bytes-discrete h s.hashmap) same ∙ g in
      let e4 : deref p s4.peermaps ≡ some _ =
        deref-set_self p s2.peermaps _ (lt_of_deref p s2.peermaps e2) in
      let f4 : get Bytes-discrete b.id (Assoc.set Bytes-discrete b.id q pm2.pointers) ≡ some q =
        get-set_self Bytes-discrete b.id q pm2.pointers in
      let o4 : deref q s4.peers ≡ some (saved_peer a) =
        deref-set_self q s3.peers (saved_peer a) (lt_of_deref q s3.peers o3) in
      (
        s4,
        first_steps fast 4 (repeat 1 3 (repeat 2 5 (0 ∷ []))) (looking a)
              (drop_looking a.hash a.id ∷ looking b ∷ []) s
            ∙ ap
                (λ r.
                  run fast (repeat 1 3 (repeat 2 5 (0 ∷ [])))
                    (r.0 ∷ drop_looking a.hash a.id ∷ looking b ∷ [], r.1))
                (alone-looking a p q s g e f o)
            ∙ second_steps fast 3 (repeat 2 5 (0 ∷ [])) (storing a q) (drop_looking a.hash a.id)
                (looking b ∷ []) s1
            ∙ ap (λ r. run fast (repeat 2 5 (0 ∷ [])) (storing a q ∷ r.0 ∷ looking b ∷ [], r.1))
                (alone-dropping a.hash a.id p q s1 g e1 f o)
            ∙ third_steps fast 5 (0 ∷ []) (storing a q) finished (looking b) [] s2
            ∙ ap (λ r. run fast (0 ∷ []) (storing a q ∷ finished ∷ r.0 ∷ [], r.1))
                (ap (alone fast 4) (looking_some fast b s2 h4)
                  ∙ alone-reading fast b p pm2 s2 e2 n2 got o)
            ∙ first_steps fast 1 [] (storing a q) (finished ∷ finished ∷ []) s3
            ∙ ap (λ r. run fast [] (r.0 ∷ finished ∷ finished ∷ [], r.1))
                (storing_lem fast a q s3 o3),
        rw (h4, peer_at) (rw e4 (rw f4 o4)),
      )

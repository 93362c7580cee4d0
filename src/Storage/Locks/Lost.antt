-- ===== src/Storage/Locks/Lost.antt =====
-- Orders of the steps of tracker/storage/map after which a peer that was saved is counted and not there.
use trakx.Common.{
  ℕ, zero, suc, ◌+◌, ◌<◌, ◌≡◌, ◌≢◌, refl, sym, ap, ◌∙◌, subst, Bool, true, false, List, [], ◌∷◌,
  ◌++◌, Option, none, some, length, length-append, ◌==◌, if◌then◌else◌, arith,
}
use trakx.Common
use trakx.Common.Assoc
use trakx.Common.Assoc.{get, Distinct, get-set_self, get-set_ne, get-delete_self}
use trakx.Common.Bytes.{Bytes}
use trakx.Common.Heap.{deref, deref-new, deref-append, deref-set_self, deref-set_ne, lt_of_deref}
use trakx.Stats.{Stats}
use trakx.Storage.Types.{Bytes-discrete}
use trakx.Storage.Memory.{update_stats}
use trakx.Storage.Locks.{
  SharedMap, Shared, Saving, looking, making, reading, sweeping, emptying, finished, sweep,
  step_sweeping, step, turn, run, peer_at,
}
use trakx.Storage.Locks.Alone.{
  alone-reading_new, made, new_map, first_steps, get-nil, looking_none, looking_some, repeat,
  saved_new, second_steps,
}

-- Two Saves of a hash that is not there look, one after the other, and then each makes the peermap.
abbrev pub race : List ℕ
race = 0 ∷ 1 ∷ 0 ∷ 1 ∷ repeat 0 4 (repeat 1 4 [])

-- A Save looks, the round of trim sweeps, the Save goes on to its end, and the hash is deleted.
abbrev pub late : List ℕ
late = 0 ∷ 1 ∷ repeat 0 4 (1 ∷ [])

module _ (fast : Bool) where
  both_made :
      (is : List ℕ) (a b : Saving) (s : Shared)
      → get Bytes-discrete a.hash s.hashmap ≡ none
      → get Bytes-discrete b.hash s.hashmap ≡ none
      → run fast (0 ∷ 1 ∷ 0 ∷ 1 ∷ is) (looking a ∷ looking b ∷ [], s)
        ≡ run fast is (
          reading a (length s.peermaps) ∷ reading b (length (made a s).peermaps) ∷ [],
          made b (made a s),
        )
  unfolding run turn step
  both_made is a b s n m =
      ap (λ r. run fast (1 ∷ 0 ∷ 1 ∷ is) (r.0 ∷ looking b ∷ [], r.1)) (looking_none fast a s n)
      ∙ ap (λ r. run fast (0 ∷ 1 ∷ is) (making a ∷ r.0 ∷ [], r.1)) (looking_none fast b s m)

  -- What two Saves of one hash leave that were both looking before either had made the peermap.
  abbrev both_saved : Saving → Saving → Shared → Shared
  both_saved a b s =
      saved_new fast b (length (made a s).peermaps) new_map
        (saved_new fast a (length s.peermaps) new_map (made b (made a s)))

  grown : (a : Saving) (s : Shared) → length (made a s).peermaps ≡ suc (length s.peermaps)
  grown a s = omega (arith, length-append s.peermaps (new_map ∷ []))

  -- The second thread's peermap is as it was when the first has finished.
  second_map :
      (a b : Saving) (s : Shared)
      → deref
          (length (made a s).peermaps)
          (saved_new fast a (length s.peermaps) new_map (made b (made a s))).peermaps
        ≡ some new_map
  second_map a b s =
      deref-set_ne (length (made a s).peermaps) (length s.peermaps) (made b (made a s)).peermaps _
        (λ e. absurd (omega (arith, grown a s, e)))
      ∙ deref-new (made a s).peermaps new_map

  run-race :
      (a b : Saving) (s : Shared)
      → get Bytes-discrete a.hash s.hashmap ≡ none
      → get Bytes-discrete b.hash s.hashmap ≡ none
      → deref a.choice s.pool ≡ none
      → deref b.choice s.pool ≡ none
      → run fast race (looking a ∷ looking b ∷ [], s) ≡ (finished ∷ finished ∷ [], both_saved a b s)
  unfolding run
  run-race a b s n m c d =
      let p = length s.peermaps in
      let first = made a s in
      let second = made b first in
      let found : deref p second.peermaps ≡ some new_map =
        deref-append p first.peermaps (new_map ∷ []) (omega (arith, grown a s))
        ∙ deref-new s.peermaps new_map in
      let third = saved_new fast a p new_map second in
      both_made (repeat 0 4 (repeat 1 4 [])) a b s n m
      ∙ first_steps fast 4 (repeat 1 4 []) (reading a p) (reading b (length first.peermaps) ∷ [])
          second
      ∙ ap (λ r. run fast (repeat 1 4 []) (r.0 ∷ reading b (length first.peermaps) ∷ [], r.1))
          (alone-reading_new fast a p new_map second found (get-nil a.id) c)
      ∙ second_steps fast 4 [] finished (reading b (length first.peermaps)) [] third
      ∙ ap (λ r. run fast [] (finished ∷ r.0 ∷ [], r.1))
          (alone-reading_new fast b (length first.peermaps) new_map third (second_map a b s)
            (get-nil b.id) d)

  -- Two Saves of a hash that is not in the database, with two peer ids, for each of which a peer is made, where each looks for the
  -- peermap before the other has made it, and then the first goes on to its end before the second. Both
  -- finish and both are counted in the global counters, but the first peer is not there: the
  -- peermap that holds it has been replaced.
  pub run-race_lost :
      (a b : Saving) (s : Shared)
      → get Bytes-discrete a.hash s.hashmap ≡ none
      → b.hash ≡ a.hash
      → a.id ≢ b.id
      → deref a.choice s.pool ≡ none
      → deref b.choice s.pool ≡ none
      → (s' : Shared) × (run fast race (looking a ∷ looking b ∷ [], s)
          ≡ (finished ∷ finished ∷ [], s'))
        × (peer_at a.hash a.id s' ≡ none)
        × (s'.stats
            ≡ update_stats fast none b.complete b.ip
                (update_stats fast none a.complete a.ip s.stats))
  unfolding peer_at
  run-race_lost a b s n same other c d =
      let first = made a s in
      let q = length first.peermaps in
      let at_hash : get Bytes-discrete a.hash (Assoc.set Bytes-discrete b.hash q first.hashmap)
          ≡ some q =
        ap (λ h. get Bytes-discrete h (Assoc.set Bytes-discrete b.hash q first.hashmap)) (sym same)
        ∙ get-set_self Bytes-discrete b.hash q first.hashmap in
      let third = saved_new fast a (length s.peermaps) new_map (made b first) in
      let at_map : deref q (both_saved a b s).peermaps ≡ some _ =
        deref-set_self q third.peermaps _ (lt_of_deref q third.peermaps (second_map a b s)) in
      let at_id : get Bytes-discrete a.id (Assoc.set Bytes-discrete b.id (length third.peers) [])
          ≡ none =
        get-set_ne Bytes-discrete a.id b.id (length third.peers) [] other ∙ get-nil a.id in
      (
        both_saved a b s,
        run-race a b s n (rw same n) c d,
        rw (at_hash, peer_at) (rw at_map (rw at_id refl)),
        refl,
      )

  sweeping_lem :
      (now timeout : ℕ) (hash : Bytes) (p : ℕ) (s : Shared) {pm pm' : SharedMap} {st : Stats}
      {pool : List ℕ}
      → deref p s.peermaps ≡ some pm
      → sweep fast now timeout s.peers pm.pointers (pm, s.stats, s.pool) ≡ some (pm', st, pool)
      → pm'.pointers ≡ []
      → step fast (sweeping now timeout hash p) s ≡ (
        emptying hash,
        record s { peermaps = Common.set s.peermaps p pm'; stats = st; pool = pool },
      )
  unfolding step step_sweeping
  sweeping_lem now timeout hash p s {pm} {pm'} {st} {pool} e f z =
      rw (e, step_sweeping)
        (rw f (
          ap
            (λ l. (
              (if length l == 0 then emptying hash else finished),
              record s { peermaps = Common.set s.peermaps p pm'; stats = st; pool = pool },
            ))
            z))

  -- A Save of a new peer, for which a peer is made, has found the peermap of its hash when a round of trim takes the last peers
  -- out of that peermap, and the round deletes the hash after the Save has finished. Both
  -- finish and the peer is counted in the global counters, but it is not there: the peermap
  -- that holds it has left the map.
  pub run-late_lost :
      (a : Saving) (now timeout p : ℕ) (pm pm' : SharedMap) (st : Stats) (pool : List ℕ)
      (s : Shared)
      → Distinct Bytes-discrete s.hashmap
      → get Bytes-discrete a.hash s.hashmap ≡ some p
      → deref p s.peermaps ≡ some pm
      → sweep fast now timeout s.peers pm.pointers (pm, s.stats, s.pool) ≡ some (pm', st, pool)
      → pm'.pointers ≡ []
      → deref a.choice pool ≡ none
      → (s' : Shared) × (run fast late (looking a ∷ sweeping now timeout a.hash p ∷ [], s)
          ≡ (finished ∷ finished ∷ [], s'))
        × (peer_at a.hash a.id s' ≡ none)
        × (s'.stats ≡ update_stats fast none a.complete a.ip st)
  unfolding peer_at run turn step
  run-late_lost a now timeout p pm pm' st pool s d g e f z c =
      let swept : Shared = record s {
        peermaps = Common.set s.peermaps p pm';
        stats = st;
        pool = pool;
      } in
      let saved = saved_new fast a p pm' swept in
      let at_map : deref p swept.peermaps ≡ some pm' =
        deref-set_self p s.peermaps pm' (lt_of_deref p s.peermaps e) in
      let at_id : get Bytes-discrete a.id pm'.pointers ≡ none =
        ap (get Bytes-discrete a.id) z ∙ get-nil a.id in
      let ran : run fast late (looking a ∷ sweeping now timeout a.hash p ∷ [], s) ≡ (
        finished ∷ finished ∷ [],
        record saved { hashmap = Assoc.delete Bytes-discrete a.hash s.hashmap },
      ) =
        ap (λ r. run fast (1 ∷ repeat 0 4 (1 ∷ [])) (r.0 ∷ sweeping now timeout a.hash p ∷ [], r.1))
          (looking_some fast a s g)
        ∙ ap (λ r. run fast (repeat 0 4 (1 ∷ [])) (reading a p ∷ r.0 ∷ [], r.1))
            (sweeping_lem now timeout a.hash p s e f z)
        ∙ first_steps fast 4 (1 ∷ []) (reading a p) (emptying a.hash ∷ []) swept
        ∙ ap (λ r. run fast (1 ∷ []) (r.0 ∷ emptying a.hash ∷ [], r.1))
            (alone-reading_new fast a p pm' swept at_map at_id c) in
      (
        record saved { hashmap = Assoc.delete Bytes-discrete a.hash s.hashmap },
        ran,
        rw (get-delete_self Bytes-discrete a.hash s.hashmap d, peer_at) refl,
        refl,
      )

-- ===== src/Storage/Locks/Moves.antt =====
-- What one step of a thread of tracker/storage/map leaves, for each kind of step that writes.
use trakx.Common.{
  ℕ, zero, suc, ◌≤◌, ◌<◌, ◌≡◌, refl, Bool, true, false, List, [], ◌∷◌, ◌++◌, Option, none, some,
  length, length-append, All, All-append, ◌==◌, Option-cases, Bool-cases, inl, inr, arith,
}
use trakx.Common.Assoc
use trakx.Common.Assoc.{get, AllValues, set-AllValues, delete-AllValues, get-AllValues}
use trakx.Common.Bytes.{Bytes}
use trakx.Common.Heap.{deref, take_out, deref_of_lt}
use trakx.Stats.{Stats}
use trakx.Storage.Types.{Peer, Bytes-discrete}
use trakx.Storage.Memory.{update_counts, drop_counts, drop_stats}
use trakx.Storage.Trim.{is_expired}
use trakx.Storage.Locks.{
  SharedMap, Shared, Saving, making, counting, drop_counting, finished, write_new, write_found,
  get_peer, zero_peer, counts_of, with_counts, step_writing, step_counting, step_dropping, sweep,
  step_sweeping, step,
}
use trakx.Storage.Locks.Invariant.{
  Fits, Fits-le, IsAllocated, IsPeer, IsRunning, Stepped, All-deref, All-map, moved, changed,
}

All-take_out :
    {A : Type 0} (P : A → Type 0) (xs : List A) (i : ℕ) → All P xs → All P (take_out i xs)
All-take_out P [] i h = tt
All-take_out P (x ∷ xs) zero (h, hs) = hs
All-take_out P (x ∷ xs) (suc i) (h, hs) = (h, All-take_out P xs i hs)

-- The peer that the pool hands out is one of the heap, and the rest stays as it was.
record Got (s : Shared) (r : ℕ × Shared) : Type 0 where
  peer : r.0 < length r.1.peers
  allocated : IsAllocated r.1
  maps : length s.peermaps ≡ length r.1.peermaps
  peers : length s.peers ≤ length r.1.peers

get_peer-Got : (choice : ℕ) (s : Shared) → IsAllocated s → Got s (get_peer choice s)
unfolding get_peer
get_peer-Got choice s h = elim (Option-cases (deref choice s.pool)) [
  | inl e ↦
      let grown : length (s.peers ++ (zero_peer ∷ [])) ≡ suc (length s.peers) =
        omega (arith, length-append s.peers (zero_peer ∷ [])) in
      rw (e, get_peer)
        (record {
          peer = omega (arith, grown);
          allocated = record {
            maps = h.maps;
            objects =
                All-map (λ m. Fits (length s.peers) m.pointers)
                  (λ m. Fits (length (s.peers ++ (zero_peer ∷ []))) m.pointers) s.peermaps
                  (λ m. Fits-le m.pointers (omega (arith, grown))) h.objects;
            pooled =
                All-map (λ q. q < length s.peers) (λ q. q < length (s.peers ++ (zero_peer ∷ [])))
                  s.pool (λ q b. omega (arith, grown)) h.pooled;
          };
          maps = refl;
          peers = omega (arith, grown);
        })
  | inr (q, e) ↦
      rw (e, get_peer)
        (record {
          peer = All-deref (λ i. i < length s.peers) s.pool choice h.pooled e;
          allocated = record {
            maps = h.maps;
            objects = h.objects;
            pooled = All-take_out (λ i. i < length s.peers) s.pool choice h.pooled;
          };
          maps = refl;
          peers = omega arith;
        })
]

pub write_new-Stepped :
    (a : Saving) (p : ℕ) (pm : SharedMap) (s : Shared)
    → IsAllocated s
    → Fits (length s.peers) pm.pointers
    → Stepped s (write_new a p pm s)
unfolding write_new
write_new-Stepped a p pm s h f =
    let got = get_peer-Got a.choice s h in
    let q = (get_peer a.choice s).0 in
    let s' = (get_peer a.choice s).1 in
    let next =
      changed s' (counting a q false) p
        (with_counts (update_counts none a.complete (counts_of pm))
          (Assoc.set Bytes-discrete a.id q pm.pointers))
        s'.stats s'.pool got.allocated
        (set-AllValues Bytes-discrete (λ i. i < length s'.peers) a.id q pm.pointers got.peer
          (Fits-le pm.pointers got.peers f))
        got.allocated.pooled (unfold IsRunning in got.peer) in
    record {
      thread = next.thread;
      allocated = next.allocated;
      maps = omega (arith, got.maps, next.maps);
      peers = omega (arith, got.peers, next.peers);
    }

pub step_writing-Stepped :
    (a : Saving) (p : ℕ) (found : Option ℕ) (s : Shared)
    → IsAllocated s
    → p < length s.peermaps
    → IsPeer (length s.peers) found
    → Stepped s (step_writing a p found s)
unfolding step_writing IsPeer
step_writing-Stepped a p none s h b q =
    let (pm, e) = deref_of_lt p s.peermaps b in
    rw (e, step_writing)
      (write_new-Stepped a p pm s h
        (All-deref (λ m. Fits (length s.peers) m.pointers) s.peermaps p h.objects e))
step_writing-Stepped a p (some q) s h b k =
    let (pm, e) = deref_of_lt p s.peermaps b in
    let (peer, i) = deref_of_lt q s.peers k in
    rw (e, step_writing)
      (rw i (
        unfold write_found in
        changed s (counting a q true) p _ s.stats s.pool h
          (All-deref (λ m. Fits (length s.peers) m.pointers) s.peermaps p h.objects e) h.pooled
          (unfold IsRunning in k)))

module _ (fast : Bool) where
  pub step_counting-Stepped :
      (a : Saving) (q : ℕ) (existed : Bool) (s : Shared)
      → IsAllocated s
      → q < length s.peers
      → Stepped s (step_counting fast a q existed s)
  unfolding step_counting
  step_counting-Stepped a q existed s h b =
      let (peer, e) = deref_of_lt q s.peers b in
      rw (e, step_counting)
        (record {
          thread = unfold IsRunning in b;
          allocated = record { maps = h.maps; objects = h.objects; pooled = h.pooled };
          maps = omega arith;
          peers = omega arith;
        })

  pub step_dropping-Stepped :
      (id : Bytes) (p : ℕ) (s : Shared)
      → IsAllocated s
      → p < length s.peermaps
      → Stepped s (step_dropping fast id p s)
  unfolding step_dropping
  step_dropping-Stepped id p s h b =
      let (pm, e) = deref_of_lt p s.peermaps b in
      let fits : Fits (length s.peers) pm.pointers =
        All-deref (λ m. Fits (length s.peers) m.pointers) s.peermaps p h.objects e in
      rw (e, step_dropping)
        (elim (Option-cases (get Bytes-discrete id pm.pointers)) [
          | inl n ↦ rw n (moved s finished h (unfold IsRunning in tt))
          | inr (q, x) ↦
              let known : q < length s.peers =
                get-AllValues Bytes-discrete (λ i. i < length s.peers) id pm.pointers fits x in
              let (peer, i) = deref_of_lt q s.peers known in
              rw x (
                rw i (
                  changed s (drop_counting q) p _ s.stats s.pool h
                    (delete-AllValues Bytes-discrete (λ j. j < length s.peers) id pm.pointers fits)
                    h.pooled (unfold IsRunning in known)))
        ])

  pub sweep-Fits :
      (now timeout : ℕ) (peers : List Peer) (es : List (Bytes × ℕ)) (pm : SharedMap) (st : Stats)
      (pool : List ℕ)
      → Fits (length peers) es
      → Fits (length peers) pm.pointers
      → All (λ q. q < length peers) pool
      → (pm' : SharedMap) × (st' : Stats) × (pool' : List ℕ) × (sweep fast now timeout peers es
            (pm, st, pool)
          ≡ some (pm', st', pool'))
        × Fits (length peers) pm'.pointers
        × All (λ q. q < length peers) pool'
  unfolding sweep
  sweep-Fits now timeout peers [] pm st pool f g h = (pm, st, pool, refl, g, h)
  sweep-Fits now timeout peers ((id, q) ∷ es) pm st pool (b, f) g h =
      let (peer, i) = deref_of_lt q peers b in
      elim (Bool-cases (is_expired now timeout peer)) [
        | inl x ↦
            let (pm', st', pool', e, g', h') =
              sweep-Fits now timeout peers es
                (with_counts (drop_counts peer (counts_of pm))
                  (Assoc.delete Bytes-discrete id pm.pointers))
                (drop_stats fast peer st) (q ∷ pool) f
                (delete-AllValues Bytes-discrete (λ j. j < length peers) id pm.pointers g) (b, h) in
            (pm', st', pool', rw (i, sweep) (rw x e), g', h')
        | inr x ↦
            let (pm', st', pool', e, g', h') = sweep-Fits now timeout peers es pm st pool f g h in
            (pm', st', pool', rw (i, sweep) (rw x e), g', h')
      ]

  pub step_sweeping-Stepped :
      (now timeout : ℕ) (hash : Bytes) (p : ℕ) (s : Shared)
      → IsAllocated s
      → p < length s.peermaps
      → Stepped s (step_sweeping fast now timeout hash p s)
  unfolding step_sweeping
  step_sweeping-Stepped now timeout hash p s h b =
      let (pm, e) = deref_of_lt p s.peermaps b in
      let fits : Fits (length s.peers) pm.pointers =
        All-deref (λ m. Fits (length s.peers) m.pointers) s.peermaps p h.objects e in
      let (pm', st', pool', swept, fits', pooled') =
        sweep-Fits now timeout s.peers pm.pointers pm s.stats s.pool fits fits h.pooled in
      rw (e, step_sweeping)
        (rw swept (
          changed s _ p pm' st' pool' h fits' pooled'
            (elim (Bool-cases (length pm'.pointers == 0)) [
              | inl x ↦ rw x (unfold IsRunning in tt)
              | inr x ↦ rw x (unfold IsRunning in tt)
            ])))

  pub making-Stepped :
      (a : Saving) (s : Shared) → IsAllocated s → Stepped s (step fast (making a) s)
  unfolding step IsRunning
  making-Stepped a s h =
      let new : SharedMap = record { complete = 0; incomplete = 0; pointers = [] } in
      let grown : length (s.peermaps ++ (new ∷ [])) ≡ suc (length s.peermaps) =
        omega (arith, length-append s.peermaps (new ∷ [])) in
      record {
        thread = omega (arith, grown);
        allocated = record {
          maps =
              set-AllValues Bytes-discrete (λ p. p < length (s.peermaps ++ (new ∷ []))) a.hash
                (length s.peermaps) s.hashmap (omega (arith, grown))
                (Fits-le s.hashmap (omega (arith, grown)) h.maps);
          objects =
              All-append (λ m. Fits (length s.peers) m.pointers) s.peermaps (new ∷ []) h.objects
                (tt, tt);
          pooled = h.pooled;
        };
        maps = omega (arith, grown);
        peers = omega arith;
      }

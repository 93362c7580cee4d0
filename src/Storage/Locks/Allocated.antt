-- ===== src/Storage/Locks/Allocated.antt =====
-- No schedule of the threads of tracker/storage/map follows a nil pointer.
use trakx.Common.{
  ℕ, ◌≤◌, ◌<◌, Bool, List, [], ◌∷◌, none, some, length, All, Option-cases, inl, inr, arith,
}
use trakx.Common.Assoc.{get, delete-AllValues, get-AllValues}
use trakx.Common.Heap.{deref, deref_of_lt, length-set}
use trakx.Storage.Types.{Bytes-discrete}
use trakx.Storage.Locks.{
  Shared, Thread, looking, making, reading, writing, counting, storing, drop_looking, drop_locking,
  drop_counting, sweeping, emptying, finished, nil_pointer, saved_peer, step, turn, run,
}
use trakx.Storage.Locks.Invariant.{
  Fits, IsAllocated, IsPeer, IsRunning, IsRunningIn, Stepped, All-set, All-deref, All-map,
  found-IsPeer, moved,
}
use trakx.Storage.Locks.Moves.{
  step_writing-Stepped, step_counting-Stepped, step_dropping-Stepped, step_sweeping-Stepped,
  making-Stepped,
}

module _ (fast : Bool) where
  step-Stepped :
      (t : Thread) (s : Shared) → IsAllocated s → IsRunningIn s t → Stepped s (step fast t s)
  unfolding step IsRunning
  step-Stepped (looking a) s h r = elim (Option-cases (get Bytes-discrete a.hash s.hashmap)) [
    | inl e ↦ rw (e, step) (moved s (making a) h tt)
    | inr (p, e) ↦
        rw (e, step)
          (moved s (reading a p) h
            (get-AllValues Bytes-discrete (λ q. q < length s.peermaps) a.hash s.hashmap h.maps e))
  ]
  step-Stepped (making a) s h r = making-Stepped fast a s h
  step-Stepped (reading a p) s h r =
      let (pm, e) = deref_of_lt p s.peermaps r in
      rw (e, step)
        (moved s (writing a p (get Bytes-discrete a.id pm.pointers)) h (
          r,
          found-IsPeer a.id pm.pointers (length s.peers)
              (All-deref (λ m. Fits (length s.peers) m.pointers) s.peermaps p h.objects e),
        ))
  step-Stepped (writing a p found) s h (r, k) = step_writing-Stepped a p found s h r k
  step-Stepped (counting a q existed) s h r = step_counting-Stepped fast a q existed s h r
  step-Stepped (storing a q) s h r =
      let (peer, e) = deref_of_lt q s.peers r in
      let same = length-set s.peers q (saved_peer a) in
      rw (e, step)
        (record {
          thread = tt;
          allocated = record {
            maps = h.maps;
            objects = rw same h.objects;
            pooled = rw same h.pooled;
          };
          maps = omega arith;
          peers = omega (arith, same);
        })
  step-Stepped (drop_looking hash id) s h r =
      elim (Option-cases (get Bytes-discrete hash s.hashmap)) [
        | inl e ↦ rw (e, step) (moved s finished h tt)
        | inr (p, e) ↦
            rw (e, step)
              (moved s (drop_locking id p) h
                (get-AllValues Bytes-discrete (λ q. q < length s.peermaps) hash s.hashmap h.maps e))
      ]
  step-Stepped (drop_locking id p) s h r = step_dropping-Stepped fast id p s h r
  step-Stepped (drop_counting q) s h r =
      let (peer, e) = deref_of_lt q s.peers r in
      rw (e, step)
        (record {
          thread = tt;
          allocated = record { maps = h.maps; objects = h.objects; pooled = (r, h.pooled) };
          maps = omega arith;
          peers = omega arith;
        })
  step-Stepped (sweeping now timeout hash p) s h r =
      step_sweeping-Stepped fast now timeout hash p s h r
  step-Stepped (emptying hash) s h r = record {
    thread = tt;
    allocated = record {
      maps = delete-AllValues Bytes-discrete (λ p. p < length s.peermaps) hash s.hashmap h.maps;
      objects = h.objects;
      pooled = h.pooled;
    };
    maps = omega arith;
    peers = omega arith;
  }
  step-Stepped finished s h r = moved s finished h tt
  step-Stepped nil_pointer s h r = elim r [ ]

IsRunning-le : (t : Thread) {m m' n n' : ℕ} → m ≤ m' → n ≤ n' → IsRunning m n t → IsRunning m' n' t
unfolding IsRunning IsPeer
IsRunning-le (looking a) h k r = tt
IsRunning-le (making a) h k r = tt
IsRunning-le (reading a p) h k r = omega arith
IsRunning-le (writing a p none) h k (r, q) = (omega arith, tt)
IsRunning-le (writing a p (some i)) h k (r, q) = (omega arith, omega arith)
IsRunning-le (counting a q existed) h k r = omega arith
IsRunning-le (storing a q) h k r = omega arith
IsRunning-le (drop_looking hash id) h k r = tt
IsRunning-le (drop_locking id p) h k r = omega arith
IsRunning-le (drop_counting q) h k r = omega arith
IsRunning-le (sweeping now timeout hash p) h k r = omega arith
IsRunning-le (emptying hash) h k r = tt
IsRunning-le finished h k r = tt
IsRunning-le nil_pointer h k r = elim r [ ]

-- The heap is sound, and no thread has followed a nil pointer.
pub record IsAlive (r : List Thread × Shared) : Type 0 where
  pub allocated : IsAllocated r.1
  pub threads : All (λ t. IsRunning (length r.1.peermaps) (length r.1.peers) t) r.0

turn-IsAlive :
    (fast : Bool) (i : ℕ) (r : List Thread × Shared) → IsAlive r → IsAlive (turn fast i r)
unfolding turn
turn-IsAlive fast i (threads, s) h = elim (Option-cases (deref i threads)) [
  | inl e ↦ rw (e, turn) h
  | inr (t, e) ↦
      let next =
        step-Stepped fast t s h.allocated (All-deref (IsRunningIn s) threads i h.threads e) in
      let s' = (step fast t s).1 in
      rw (e, turn)
        (record {
          allocated = next.allocated;
          threads =
              All-set (IsRunningIn s') threads i (step fast t s).0
                (All-map (IsRunningIn s) (IsRunningIn s') threads
                  (λ u. IsRunning-le u next.maps next.peers) h.threads)
                next.thread;
        })
]

-- Any number of Saves, Drops and rounds of trim run in turns, from lock to lock, in any order. When
-- the pointers of the database and of the threads are ones to objects, they stay so, and no thread
-- follows a nil pointer, whatever has been taken from the map while it held a pointer.
pub run-IsAlive :
    (fast : Bool) (schedule : List ℕ) (r : List Thread × Shared)
    → IsAlive r
    → IsAlive (run fast schedule r)
unfolding run
run-IsAlive fast [] r h = h
run-IsAlive fast (i ∷ is) r h = run-IsAlive fast is (turn fast i r) (turn-IsAlive fast i r h)

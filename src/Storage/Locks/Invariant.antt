-- ===== src/Storage/Locks/Invariant.antt =====
-- What holds of the pointers of the database of tracker/storage/map and of its threads at every time.
use trakx.Common.{
  ℕ, zero, suc, ◌+◌, ◌≤◌, ◌<◌, ◌≡◌, refl, ap, subst, Bool, true, false, List, [], ◌∷◌, ◌++◌, Option,
  none, some, length, length-append, All, All-append, ◌==◌, if◌then◌else◌, Option-cases, Bool-cases,
  inl, inr, arith,
}
use trakx.Common
use trakx.Common.Assoc.{get, AllValues, get-AllValues}
use trakx.Common.Bytes.{Bytes}
use trakx.Common.Heap.{deref, length-set}
use trakx.Stats.{Stats}
use trakx.Storage.Types.{Bytes-discrete}
use trakx.Storage.Locks.{
  SharedMap, Shared, Thread, looking, making, reading, writing, counting, storing, drop_looking,
  drop_locking, drop_counting, sweeping, emptying, finished, nil_pointer,
}

-- Pointers below a bound.
abbrev pub Fits : ℕ → List (Bytes × ℕ) → Type 0
Fits n = AllValues Bytes-discrete (λ p. p < n)

pub Fits-le : {m n : ℕ} (es : List (Bytes × ℕ)) → m ≤ n → Fits m es → Fits n es
Fits-le [] h f = tt
Fits-le (e ∷ es) h (f, fs) = (omega (arith, f), Fits-le es h fs)

-- Every pointer of the hashmap is one to a peermap, and every pointer of a peermap or of the pool one
-- to a peer.
pub record IsAllocated (s : Shared) : Type 0 where
  pub maps : Fits (length s.peermaps) s.hashmap
  pub objects : All (λ pm. Fits (length s.peers) pm.pointers) s.peermaps
  pub pooled : All (λ q. q < length s.peers) s.pool

unfoldable pub IsPeer : ℕ → Option ℕ → Type 0
IsPeer n none = Unit
IsPeer n (some q) = q < n

-- The pointers that a thread holds are ones to objects, and it has not followed a nil pointer.
unfoldable pub IsRunning : ℕ → ℕ → Thread → Type 0
IsRunning maps peers (reading a p) = p < maps
IsRunning maps peers (writing a p found) = (p < maps) × IsPeer peers found
IsRunning maps peers (counting a q existed) = q < peers
IsRunning maps peers (storing a q) = q < peers
IsRunning maps peers (drop_locking id p) = p < maps
IsRunning maps peers (drop_counting q) = q < peers
IsRunning maps peers (sweeping now timeout hash p) = p < maps
IsRunning maps peers nil_pointer = ⊥
IsRunning maps peers (looking a) = Unit
IsRunning maps peers (making a) = Unit
IsRunning maps peers (drop_looking hash id) = Unit
IsRunning maps peers (emptying hash) = Unit
IsRunning maps peers finished = Unit

abbrev pub IsRunningIn : Shared → Thread → Type 0
IsRunningIn s = IsRunning (length s.peermaps) (length s.peers)

-- What a step leaves: the heap has not shrunk.
pub record Stepped (s : Shared) (r : Thread × Shared) : Type 0 where
  pub thread : IsRunningIn r.1 r.0
  pub allocated : IsAllocated r.1
  pub maps : length s.peermaps ≤ length r.1.peermaps
  pub peers : length s.peers ≤ length r.1.peers

pub All-set :
    {A : Type 0} (P : A → Type 0) (xs : List A) (i : ℕ) (v : A)
    → All P xs
    → P v
    → All P (Common.set xs i v)
All-set P [] i v h p = tt
All-set P (x ∷ xs) zero v (h, hs) p = (p, hs)
All-set P (x ∷ xs) (suc i) v (h, hs) p = (h, All-set P xs i v hs p)

pub All-deref :
    {A : Type 0} (P : A → Type 0) (xs : List A) (i : ℕ) {x : A}
    → All P xs
    → deref i xs ≡ some x
    → P x
All-deref P [] i h e = absurd (ground (arith, e))
All-deref P (y ∷ xs) zero (h, hs) e = subst P (ground (arith, e)) h
All-deref P (y ∷ xs) (suc i) (h, hs) e = All-deref P xs i hs e

pub All-map :
    {A : Type 0} (P Q : A → Type 0) (xs : List A) → ((x : A) → P x → Q x) → All P xs → All Q xs
All-map P Q [] f h = tt
All-map P Q (x ∷ xs) f (h, hs) = (f x h, All-map P Q xs f hs)

-- A step that changes no object but one peermap, with the pool.
pub IsAllocated-set :
    (s : Shared) (p : ℕ) (pm : SharedMap) (st : Stats) (pool : List ℕ)
    → IsAllocated s
    → Fits (length s.peers) pm.pointers
    → All (λ q. q < length s.peers) pool
    → IsAllocated (record s { peermaps = Common.set s.peermaps p pm; stats = st; pool = pool })
IsAllocated-set s p pm st pool h f g = record {
  maps = rw (length-set s.peermaps p pm) h.maps;
  objects = All-set (λ m. Fits (length s.peers) m.pointers) s.peermaps p pm h.objects f;
  pooled = g;
}

pub found-IsPeer :
    (id : Bytes) (es : List (Bytes × ℕ)) (n : ℕ) → Fits n es → IsPeer n (get Bytes-discrete id es)
unfolding IsPeer
found-IsPeer id es n f = elim (Option-cases (get Bytes-discrete id es)) [
  | inl e ↦ rw (e, IsPeer) tt
  | inr (q, e) ↦ rw (e, IsPeer) (get-AllValues Bytes-discrete (λ p. p < n) id es f e)
]

-- A step that only moves the thread.
pub moved : (s : Shared) (t : Thread) → IsAllocated s → IsRunningIn s t → Stepped s (t, s)
moved s t h r = record { thread = r; allocated = h; maps = omega arith; peers = omega arith }

-- A step that changes one peermap, the counters and the pool.
pub changed :
    (s : Shared) (t : Thread) (p : ℕ) (pm : SharedMap) (st : Stats) (pool : List ℕ)
    → IsAllocated s
    → Fits (length s.peers) pm.pointers
    → All (λ q. q < length s.peers) pool
    → IsRunningIn s t
    → Stepped s (t, record s { peermaps = Common.set s.peermaps p pm; stats = st; pool = pool })
changed s t p pm st pool h f g r = record {
  thread = rw (length-set s.peermaps p pm) r;
  allocated = IsAllocated-set s p pm st pool h f g;
  maps = omega (arith, length-set s.peermaps p pm);
  peers = omega arith;
}

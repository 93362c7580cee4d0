-- ===== src/Storage/Locks/Alone.antt =====
-- One thread of tracker/storage/map that takes its steps while the others stand.
use trakx.Common.{
  ℕ, zero, suc, ◌+◌, ◌<◌, ◌≡◌, ◌≢◌, refl, sym, ap, ◌∙◌, subst, Bool, true, false, List, [], ◌∷◌,
  ◌++◌, Option, none, some, length, length-append, ◌==◌, if◌then◌else◌, arith,
}
use trakx.Common
use trakx.Common.Assoc
use trakx.Common.Assoc.{get, Distinct, get-set_self, get-set_ne, get-delete_self}
use trakx.Common.Bytes.{Bytes}
use trakx.Common.Heap.{deref, take_out, deref-new}
use trakx.Storage.Types.{Peer, Bytes-discrete}
use trakx.Storage.Memory.{update_counts, update_stats}
use trakx.Storage.Locks.{
  SharedMap, Shared, Saving, Thread, looking, making, reading, writing, counting, storing, finished,
  get_peer, zero_peer, write_new, counts_of, with_counts, saved_peer, step_writing, step_counting,
  step, turn, run,
}

-- The same turn some times, and then the others.
abbrev pub repeat : ℕ → ℕ → List ℕ → List ℕ
repeat i zero is = is
repeat i (suc n) is = i ∷ repeat i n is

pub get-nil : (id : Bytes) → get {V = ℕ} Bytes-discrete id [] ≡ none
unfolding get
get-nil id = refl

abbrev pub new_map : SharedMap
new_map = record { complete = 0; incomplete = 0; pointers = [] }

-- A thread has made the peermap.
abbrev pub made : Saving → Shared → Shared
made a s = record s {
  hashmap = Assoc.set Bytes-discrete a.hash (length s.peermaps) s.hashmap;
  peermaps = s.peermaps ++ (new_map ∷ []);
}

-- A peer that is made.
abbrev pub fresh : Shared → ℕ × Shared
fresh s = (length s.peers, record s { peers = s.peers ++ (zero_peer ∷ []) })

-- A peer that was put back.
abbrev pub reused : ℕ → ℕ → Shared → ℕ × Shared
reused choice q s = (q, record s { pool = take_out choice s.pool })

pub get_peer_new :
    (choice : ℕ) (s : Shared) → deref choice s.pool ≡ none → get_peer choice s ≡ fresh s
unfolding get_peer
get_peer_new choice s e = rw (e, get_peer) refl

pub get_peer_pooled :
    (choice : ℕ) (s : Shared) {q : ℕ}
    → deref choice s.pool ≡ some q
    → get_peer choice s ≡ reused choice q s
unfolding get_peer
get_peer_pooled choice s e = rw (e, get_peer) refl

module _ (fast : Bool) where
  -- One thread alone.
  unfoldable pub alone : ℕ → Thread × Shared → Thread × Shared
  alone zero r = r
  alone (suc n) (t, s) = alone n (step fast t s)

  -- What Save leaves when it finds no peer in its peermap, with the peer that the pool hands out.
  abbrev pub saved_got : Saving → ℕ → SharedMap → ℕ × Shared → Shared
  saved_got a p pm (q, s) = record s {
    peermaps = Common.set s.peermaps p (
        with_counts (update_counts none a.complete (counts_of pm))
          (Assoc.set Bytes-discrete a.id q pm.pointers));
    peers = Common.set s.peers q (saved_peer a);
    stats = update_stats fast none a.complete a.ip s.stats;
  }

  abbrev pub saved_new : Saving → ℕ → SharedMap → Shared → Shared
  saved_new a p pm s = saved_got a p pm (fresh s)

  pub reading_lem :
      (a : Saving) (p : ℕ) (pm : SharedMap) (s : Shared)
      → deref p s.peermaps ≡ some pm
      → get Bytes-discrete a.id pm.pointers ≡ none
      → step fast (reading a p) s ≡ (writing a p none, s)
  unfolding step
  reading_lem a p pm s e n = rw (e, step) (rw n refl)

  pub writing_lem :
      (a : Saving) (p : ℕ) (pm : SharedMap) (s : Shared)
      → deref p s.peermaps ≡ some pm
      → step fast (writing a p none) s ≡ write_new a p pm s
  unfolding step step_writing
  writing_lem a p pm s e = rw (e, step_writing) refl

  pub counting_lem :
      (a : Saving) (q : ℕ) (existed : Bool) (s : Shared) {peer : Peer}
      → deref q s.peers ≡ some peer
      → step fast (counting a q existed) s ≡ (
        storing a q,
        record s {
          stats = update_stats fast (if existed then some peer else none) a.complete a.ip s.stats;
        },
      )
  unfolding step step_counting
  counting_lem a q existed s e = rw (e, step_counting) refl

  pub storing_lem :
      (a : Saving) (q : ℕ) (s : Shared) {peer : Peer}
      → deref q s.peers ≡ some peer
      → step fast (storing a q) s
        ≡ (finished, record s { peers = Common.set s.peers q (saved_peer a) })
  unfolding step
  storing_lem a q s e = rw (e, step) refl

  pub alone-reading :
      (a : Saving) (p : ℕ) (pm : SharedMap) (s : Shared) {q : ℕ} {s' : Shared} {peer : Peer}
      → deref p s.peermaps ≡ some pm
      → get Bytes-discrete a.id pm.pointers ≡ none
      → get_peer a.choice s ≡ (q, s')
      → deref q s'.peers ≡ some peer
      → alone 4 (reading a p, s) ≡ (finished, saved_got a p pm (q, s'))
  unfolding alone write_new
  alone-reading a p pm s {q} {s'} e n got there =
      ap (alone 3) (reading_lem a p pm s e n)
      ∙ ap (alone 2) (writing_lem a p pm s e)
      ∙ ap
          (λ r. alone 2 (
            counting a r.0 false,
            record (r.1) {
              peermaps = Common.set r.1.peermaps p (
                  with_counts (update_counts none a.complete (counts_of pm))
                    (Assoc.set Bytes-discrete a.id r.0 pm.pointers));
            },
          ))
          got
      ∙ ap (alone 1) (counting_lem a q false _ there)
      ∙ storing_lem a q _ there

  pub alone-reading_new :
      (a : Saving) (p : ℕ) (pm : SharedMap) (s : Shared)
      → deref p s.peermaps ≡ some pm
      → get Bytes-discrete a.id pm.pointers ≡ none
      → deref a.choice s.pool ≡ none
      → alone 4 (reading a p, s) ≡ (finished, saved_new a p pm s)
  alone-reading_new a p pm s e n c =
      alone-reading a p pm s e n (get_peer_new a.choice s c) (deref-new s.peers zero_peer)

  -- A thread takes some steps.
  pub first_steps :
      (n : ℕ) (is : List ℕ) (t : Thread) (ts : List Thread) (s : Shared)
      → run fast (repeat 0 n is) (t ∷ ts, s)
        ≡ run fast is ((alone n (t, s)).0 ∷ ts, (alone n (t, s)).1)
  unfolding run turn alone
  first_steps zero is t ts s = refl
  first_steps (suc n) is t ts s = first_steps n is (step fast t s).0 ts (step fast t s).1

  pub second_steps :
      (n : ℕ) (is : List ℕ) (t u : Thread) (ts : List Thread) (s : Shared)
      → run fast (repeat 1 n is) (t ∷ u ∷ ts, s)
        ≡ run fast is (t ∷ (alone n (u, s)).0 ∷ ts, (alone n (u, s)).1)
  unfolding run turn alone
  second_steps zero is t u ts s = refl
  second_steps (suc n) is t u ts s = second_steps n is t (step fast u s).0 ts (step fast u s).1

  pub third_steps :
      (n : ℕ) (is : List ℕ) (t u v : Thread) (ts : List Thread) (s : Shared)
      → run fast (repeat 2 n is) (t ∷ u ∷ v ∷ ts, s)
        ≡ run fast is (t ∷ u ∷ (alone n (v, s)).0 ∷ ts, (alone n (v, s)).1)
  unfolding run turn alone
  third_steps zero is t u v ts s = refl
  third_steps (suc n) is t u v ts s = third_steps n is t u (step fast v s).0 ts (step fast v s).1

  pub looking_none :
      (a : Saving) (s : Shared)
      → get Bytes-discrete a.hash s.hashmap ≡ none
      → step fast (looking a) s ≡ (making a, s)
  unfolding step
  looking_none a s e = rw (e, step) refl

  pub looking_some :
      (a : Saving) (s : Shared) {p : ℕ}
      → get Bytes-discrete a.hash s.hashmap ≡ some p
      → step fast (looking a) s ≡ (reading a p, s)
  unfolding step
  looking_some a s e = rw (e, step) refl

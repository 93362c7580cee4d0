-- ===== src/Storage/Locks/Tests.antt =====
-- Schedules of the locks of the database, and the theorems at concrete inputs.
use trakx.Common.{
  sym, ◌∙◌, Option-cases, inl, inr, ℕ, ◌≡◌, ◌≢◌, refl, true, false, List, [], ◌∷◌, ◌++◌, none, some,
  replicate, arith,
}
use trakx.Common.Assoc
use trakx.Common.Bytes.{Bytes}
use trakx.Stats.{Stats}
use trakx.Storage.Types.{Addr, v4, Peer, Bytes-discrete}
use trakx.Storage.Memory.{
  update_counts, update_stats, update_ips, update_totals, drop_counts, drop_stats,
}
use trakx.Storage.Trim.{is_expired}
use trakx.Storage.Locks.{
  SharedMap, Shared, Saving, Thread, looking, sweeping, drop_looking, finished, write_new,
  write_found, saved_peer, get_peer, step_writing, step_counting, step_dropping, sweep,
  step_sweeping, step, turn, run, peer_at,
}
use trakx.Storage.Locks.Invariant.{IsRunning}
use trakx.Storage.Locks.Allocated.{IsAlive, run-IsAlive}
use trakx.Storage.Locks.Alone.{alone}
use trakx.Storage.Locks.Pointed.{pointer_in, pointer_in-none, pointer_in-some, IsUnshared}
use trakx.Storage.Locks.Sole.{IsWritten, alone-IsWritten}
use mathlib.Core.Logic.{if_pos, if_neg}
use trakx.Storage.Locks.Stale.{stale, run-stale}
use trakx.Storage.Locks.Lost.{race, run-race_lost, late, run-late_lost}

program : Unit {0}
unfolding get_peer write_new write_found step_writing step_counting step_dropping sweep
    step_sweeping step turn run peer_at update_counts update_stats update_ips update_totals
    drop_counts drop_stats is_expired Assoc.get Assoc.set Assoc.delete Bytes-discrete IsRunning
program = tt

abbrev no_stats : Stats
no_stats = record {
  hits = 0;
  connects = 0;
  announces = 0;
  scrapes = 0;
  seeds = 0;
  leeches = 0;
  ip_stats = [];
  server_errors = 0;
  client_errors = 0;
}

abbrev blank : Peer
blank = record { complete = true; ip = Addr.invalid; port = 9; last_seen = 9 }

abbrev hash_a : Bytes
hash_a = replicate 20 b'a'

-- A leecher with the given letter for an id.
abbrev saving : ℕ → Saving
saving c = record {
  choice = 0;
  now = 5000;
  ip = v4 (10 ∷ 0 ∷ 0 ∷ c ∷ []);
  port = 6881;
  complete = false;
  hash = hash_a;
  id = replicate 20 c;
}

abbrev nothing : Shared
nothing = record { hashmap = []; peermaps = []; peers = []; pool = []; stats = no_stats }

abbrev x_map : SharedMap
x_map = record { complete = 1; incomplete = 0; pointers = (replicate 20 b'x', 0) ∷ [] }

-- One seeder, seen at 9.
abbrev one : Shared
one = record {
  hashmap = (hash_a, 0) ∷ [];
  peermaps = x_map ∷ [];
  peers = blank ∷ [];
  pool = [];
  stats = record no_stats { seeds = 1 };
}

-- A Save, a round of trim and a Drop in turns.
abbrev three_threads : List Thread
three_threads =
    looking (saving b'y')
    ∷ sweeping 5000 600 hash_a 0
    ∷ drop_looking hash_a (replicate 20 b'x')
    ∷ []

one-IsAlive : IsAlive (three_threads, one)
one-IsAlive = record {
  allocated = record { maps = (omega arith, tt); objects = ((omega arith, tt), tt); pooled = tt };
  threads = unfold IsRunning in (tt, (omega arith, (tt, tt)));
}

run-IsAlive_example :
    IsAlive (run false (2 ∷ 0 ∷ 1 ∷ 2 ∷ 0 ∷ 0 ∷ 1 ∷ 0 ∷ 2 ∷ 0 ∷ []) (three_threads, one))
run-IsAlive_example =
    run-IsAlive false (2 ∷ 0 ∷ 1 ∷ 2 ∷ 0 ∷ 0 ∷ 1 ∷ 0 ∷ 2 ∷ 0 ∷ []) (three_threads, one) one-IsAlive

abbrev id_x : Bytes
id_x = replicate 20 b'x'

abbrev id_y : Bytes
id_y = replicate 20 b'y'

x_not_y : id_x ≢ id_y
x_not_y e = absurd (ground (arith, e))

run-race_lost_example :
    (s' : Shared) × (run false race (looking (saving b'x') ∷ looking (saving b'y') ∷ [], nothing)
      ≡ (finished ∷ finished ∷ [], s'))
    × (peer_at hash_a id_x s' ≡ none)
    × (s'.stats
        ≡ update_stats false none false
            (saving b'y').ip
            (update_stats false none false (saving b'x').ip no_stats))
unfolding Assoc.get
run-race_lost_example =
    run-race_lost false (saving b'x') (saving b'y') nothing refl refl x_not_y refl refl

abbrev swept_map : SharedMap
swept_map = record { complete = 0; incomplete = 0; pointers = [] }

-- The swept peer stays in the pool.
abbrev late_saving : Saving
late_saving = record (saving b'y') { choice = 1 }

run-late_lost_example :
    (s' : Shared) × (run false late (looking late_saving ∷ sweeping 5000 600 hash_a 0 ∷ [], one)
      ≡ (finished ∷ finished ∷ [], s'))
    × (peer_at hash_a id_y s' ≡ none)
    × (s'.stats ≡ update_stats false none false late_saving.ip (drop_stats false blank one.stats))
unfolding program
run-late_lost_example =
    run-late_lost false late_saving 5000 600 0 x_map swept_map (drop_stats false blank one.stats)
      (0 ∷ []) one (refl, tt) refl refl refl refl refl

run-stale_example :
    (s' : Shared) × (run false stale
        (looking (saving b'x') ∷ drop_looking hash_a id_x ∷ looking (saving b'y') ∷ [], one)
      ≡ (finished ∷ finished ∷ finished ∷ [], s'))
    × (peer_at hash_a id_y s' ≡ some (saved_peer (saving b'x')))
unfolding program
run-stale_example =
    run-stale false (saving b'x') (saving b'y') 0 0 x_map blank one refl refl refl refl refl refl
      refl

-- The same two Saves one after the other: both peers are there.
in_turn :
    peer_at hash_a id_x
      (run false
        (replicate 6 0 ++ replicate 6 1)
        (looking (saving b'x') ∷ looking (saving b'y') ∷ [], nothing)).1
    ≡ some (saved_peer (saving b'x'))
unfolding program
in_turn = refl

one_found : Assoc.get Bytes-discrete hash_a one.hashmap ≡ some 0
unfolding program
one_found = refl

-- Where the only peer stands.
only_key : (k h : Bytes) (v : ℕ) {p : ℕ} → Assoc.get Bytes-discrete h ((k, v) ∷ []) ≡ some p → h ≡ k
unfolding Assoc.get
only_key k h v e = elim (Bytes-discrete h k) [
  | yes y ↦ y
  | no n ↦ absurd (ground (arith, (rw (if_neg _ n) at e)))
]

only_pointer :
    (h i : Bytes) {q : ℕ}
    → pointer_in h i one.hashmap one.peermaps ≡ some q
    → (h ≡ hash_a) × (i ≡ id_x)
unfolding pointer_in
only_pointer h i {q} e = elim (Option-cases (Assoc.get Bytes-discrete h one.hashmap)) [
  | inl f ↦ absurd (ground (arith, e, pointer_in-none h i one.hashmap one.peermaps f))
  | inr (p, f) ↦
      let here = only_key hash_a h 0 f in
      let at_zero : Assoc.get Bytes-discrete h one.hashmap ≡ some 0 =
        unfold Assoc.get in if_pos (Bytes-discrete h hash_a) here _ _ in
      (
        here,
        only_key id_x i 0 (sym (pointer_in-some h i one.hashmap one.peermaps at_zero refl) ∙ e),
      )
]

one-IsUnshared : IsUnshared one
one-IsUnshared = record {
  allocated = one-IsAlive.allocated;
  own_map = λ h h' p e f. only_key hash_a h 0 e ∙ sym (only_key hash_a h' 0 f);
  own_peer = λ h h' i i' q e f. (
    (only_pointer h i e).0 ∙ sym (only_pointer h' i' f).0,
    (only_pointer h i e).1 ∙ sym (only_pointer h' i' f).1,
  );
  not_pooled = λ h i c q e f. absurd (ground (arith, f));
}

alone-IsWritten_example :
    (s' : Shared) × (alone false 5 (looking (saving b'y'), one) ≡ (finished, s'))
    × IsWritten (saving b'y') one s'
    × (s'.stats ≡ update_stats false (peer_at hash_a id_y one) false (saving b'y').ip one.stats)
alone-IsWritten_example =
    alone-IsWritten false (saving b'y') 0 x_map one one-IsUnshared one_found refl

-- ===== src/Storage/Memory/Totals.antt =====
-- The global counters against the contents of the database, in the build without the tag `fast`.
use trakx.Common.{
  ℕ, ◌+◌, ◌%◌, ◌^◌, ◌≡◌, refl, Bool, false, Option, none, some, arith, Option-cases, inl, inr,
}
use trakx.Common.Assoc.{Distinct, weight}
use trakx.Common.Bytes.{Bytes}
use trakx.Stats.{Stats, count, inc, remove}
use trakx.Stats.Counts.{count-inc, inc-Distinct, count-remove, remove-Distinct}
use trakx.Storage.Types.{Addr, Peer, Addr-discrete}
use trakx.Storage.Memory.{Store, update_ips, update_totals, update_stats, drop_stats, save, drop}
use trakx.Storage.Memory.Counts.{seed, leech}
use trakx.Storage.Memory.Sums.{
  peer_of, total_of, total_of-save, total_of-drop, stats-save, stats-drop, drop_absent,
}
use mathlib.Core.Logic.{ite, if_pos, if_neg}

abbrev pub at : Addr → Peer → ℕ
at ip p = ite (Addr-discrete ip p.ip) 1 0

-- `Seeds` and `Leeches` count peers, and the entry of an address counts the peers with this
-- address, as far as 64 and 16 bits go. `total g` is the sum of `g` over the peers.
pub record TracksBy (st : Stats) (total : (Peer → ℕ) → ℕ) : Type 0 where
  pub seeds : st.seeds ≡ total seed % 2 ^ 64
  pub leeches : st.leeches ≡ total leech % 2 ^ 64
  pub ips : (ip : Addr) → count ip st.ip_stats ≡ total (at ip) % 2 ^ 16
  pub ip_keys : Distinct Addr-discrete st.ip_stats

-- The counters count the peers of the database.
abbrev pub Tracks : Store → Type 0
Tracks s = TracksBy s.stats (λ g. total_of g s.hashmap)

-- The counters after `Save`, from the peer that was there.
seeds-update :
    (old : Option Peer) (new : Peer) (s : Stats) (n n' : ℕ)
    → s.seeds ≡ n % 2 ^ 64
    → n' + weight seed old ≡ n + seed new
    → (update_stats false old new.complete new.ip s).seeds ≡ n' % 2 ^ 64
unfolding update_stats update_totals update_ips
seeds-update none new s n n' h e = ground arith
seeds-update (some p) new s n n' h e = ground arith

leeches-update :
    (old : Option Peer) (new : Peer) (s : Stats) (n n' : ℕ)
    → s.leeches ≡ n % 2 ^ 64
    → n' + weight leech old ≡ n + leech new
    → (update_stats false old new.complete new.ip s).leeches ≡ n' % 2 ^ 64
unfolding update_stats update_totals update_ips
leeches-update none new s n n' h e = ground arith
leeches-update (some p) new s n n' h e = ground arith

ip_stats-update_totals :
    (old : Option Peer) (c : Bool) (s : Stats) → (update_totals old c s).ip_stats ≡ s.ip_stats
unfolding update_totals
ip_stats-update_totals old c s = ground arith

ips-update :
    (old : Option Peer) (new : Peer) (s : Stats) (n n' : Addr → ℕ)
    → Distinct Addr-discrete s.ip_stats
    → ((j : Addr) → count j s.ip_stats ≡ n j % 2 ^ 16)
    → ((j : Addr) → n' j + weight (at j) old ≡ n j + at j new)
    → (j : Addr) → count j (update_ips false old new.ip s).ip_stats ≡ n' j % 2 ^ 16
unfolding update_ips
ips-update none new s n n' d h e j =
    ground (arith, h j, h new.ip, e j, count-inc j new.ip s.ip_stats)
ips-update (some p) new s n n' d h e j =
    let m = remove false p.ip s.ip_stats in
    ground (
      arith,
      h j,
      h new.ip,
      h p.ip,
      e j,
      count-inc j new.ip m,
      count-remove j p.ip s.ip_stats d,
      count-remove new.ip p.ip s.ip_stats d,
    )

ip_keys-update :
    (old : Option Peer) (ip : Addr) (s : Stats)
    → Distinct Addr-discrete s.ip_stats
    → Distinct Addr-discrete (update_ips false old ip s).ip_stats
unfolding update_ips
ip_keys-update none ip s d = inc-Distinct ip s.ip_stats d
ip_keys-update (some p) ip s d =
    let moved : Stats = record s { ip_stats = inc false ip (remove false p.ip s.ip_stats) } in
    elim (Addr-discrete p.ip ip) [
      | yes e ↦ rw (if_pos (Addr-discrete p.ip ip) e s moved) d
      | no n ↦
          rw (if_neg (Addr-discrete p.ip ip) n s moved)
            (inc-Distinct ip _ (remove-Distinct p.ip s.ip_stats d))
    ]

pub updated-TracksBy :
    (st : Stats) (w w' : (Peer → ℕ) → ℕ) (old : Option Peer) (new : Peer)
    → TracksBy st w
    → ((g : Peer → ℕ) → w' g + weight g old ≡ w g + g new)
    → TracksBy (update_stats false old new.complete new.ip st) w'
updated-TracksBy st w w' old new t total =
    let mid = update_totals old new.complete st in
    let same = ip_stats-update_totals old new.complete st in
    let keys : Distinct Addr-discrete mid.ip_stats = rw same t.ip_keys in
    let stats' : update_stats false old new.complete new.ip st ≡ update_ips false old new.ip mid =
      unfold update_stats in refl in
    record {
      seeds = seeds-update old new st _ _ t.seeds (total seed);
      leeches = leeches-update old new st _ _ t.leeches (total leech);
      ips = rw stats' (
          ips-update old new mid (λ j. w (at j)) (λ j. w' (at j)) keys (rw same t.ips)
            (λ j. total (at j)));
      ip_keys = rw stats' (ip_keys-update old new.ip mid keys);
    }

-- `Save` keeps the counters in step with the database: a new peer is counted, one that was there
-- moves between the seeds and the leeches and from its old address to the new one.
pub save-Tracks :
    (recycled : Peer) (now : ℕ) (ip : Addr) (port : ℕ) (complete : Bool) (hash id : Bytes)
    (s : Store)
    → Tracks s
    → Tracks (save false recycled now ip port complete hash id s)
save-Tracks recycled now ip port complete hash id s t =
    let new : Peer = record { complete = complete; ip = ip; port = port; last_seen = now } in
    rw (stats-save false recycled now ip port complete hash id s) (
      updated-TracksBy s.stats (λ g. total_of g s.hashmap) _ (peer_of hash id s.hashmap) new t
        (total_of-save false recycled now ip port complete hash id s))

pub dropped-TracksBy :
    (st : Stats) (w w' : (Peer → ℕ) → ℕ) (old : Peer)
    → TracksBy st w
    → ((g : Peer → ℕ) → w' g + g old ≡ w g)
    → TracksBy (drop_stats false old st) w'
unfolding drop_stats
dropped-TracksBy st w w' old t total =
    let m = st.ip_stats in
    let ip_stats' : (drop_stats false old st).ip_stats ≡ remove false old.ip m = ground arith in
    record {
      seeds = ground (arith, t.seeds, total seed);
      leeches = ground (arith, t.leeches, total leech);
      ips = λ j.
          rw ip_stats' (
            ground (arith, t.ips j, t.ips old.ip, total (at j), count-remove j old.ip m t.ip_keys));
      ip_keys = rw ip_stats' (remove-Distinct old.ip m t.ip_keys);
    }

-- `Drop` keeps the counters in step with the database.
pub drop-Tracks : (hash id : Bytes) (s : Store) → Tracks s → Tracks (drop false hash id s)
drop-Tracks hash id s t = elim (Option-cases (peer_of hash id s.hashmap)) [
  | inl e ↦ rw (drop_absent false hash id s e) t
  | inr (p, e) ↦ rw (stats-drop false hash id s e) (
      dropped-TracksBy s.stats (λ g. total_of g s.hashmap) _ p t
        (λ g. rw e at (total_of-drop false hash id s g)))
]

-- ===== src/Storage/Tests.antt =====
-- Runs of the database, and the theorems at concrete inputs.
use trakx.Common.{◌≡◌, refl, true, false, [], ◌∷◌, List, replicate, map, take}
use trakx.Common.Assoc.{get, set, delete, sum_by}
use trakx.Common.Bytes.{Bytes}
use trakx.Storage.Types.{Addr, v4, Peer, Bytes-discrete, Addr-discrete}
use trakx.Storage.Map.{Call, save_peer, drop_peer, trim_all, calls, all_specified}
use trakx.Storage.Map.Refines.{contents, contents-calls}
use trakx.Storage.Memory.{
  Store, save, drop, hash_stats, hashes, find_or_make, update_counts, update_stats, update_ips,
  update_totals, delete_peer, drop_counts, drop_stats,
}
use trakx.Storage.Memory.Counts.{IsValid, save-IsValid}
use trakx.Storage.Memory.Sums.{peer_of, total_of}
use trakx.Storage.Memory.Totals.{Tracks, save-Tracks}
use trakx.Storage.Trim.{trim, trim_hashes, trim_peers, trim_peer, is_expired}
use trakx.Storage.Trim.Outer.{IsSwept, trim-IsSwept}
use trakx.Bencoding.Dictionary.{new_dictionary, reset}
use trakx.Bencoding.Value.{encode}
use trakx.Storage.PeerDicts.{peer_list, peer_value, peers_under, peer_list_lem}
use trakx.Stats.{Stats, inc, dec, remove}

program : Unit {0}
unfolding save drop hash_stats hashes find_or_make update_counts update_stats update_ips
    update_totals delete_peer drop_counts drop_stats trim trim_hashes trim_peers trim_peer
    is_expired inc dec remove get set delete sum_by Bytes-discrete Addr-discrete peer_of
program = tt

abbrev no_stats : Stats
no_stats = record {
  hits = 0;
  connects = 0;
  announces = 0;
  scrapes = 0;
  seeds = 0;
  leeches = 0;
  ip_stats = [];
  server_errors = 0;
  client_errors = 0;
}

abbrev empty : Store
empty = record { hashmap = []; stats = no_stats }

abbrev blank : Peer
blank = record { complete = true; ip = Addr.invalid; port = 9; last_seen = 9 }

abbrev home : Addr
home = v4 (10 ∷ 0 ∷ 0 ∷ 1 ∷ [])

abbrev hash_a : Bytes
hash_a = replicate 20 b'a'

abbrev id_x : Bytes
id_x = replicate 20 b'x'

abbrev id_y : Bytes
id_y = replicate 20 b'y'

-- A leecher at time 100, and a seeder at time 5000, under one hash.
one : Store
one = save false blank 100 home 6881 false hash_a id_x empty

two : Store
unfolding one
two = save false blank 5000 home 6882 true hash_a id_y one

two_stats : hash_stats hash_a two ≡ (1, 1)
unfolding two program
two_stats = refl

-- The leecher is gone after ten minutes.
trimmed_stats : hash_stats hash_a (trim false 5000 600 two).0 ≡ (1, 0)
unfolding two program
trimmed_stats = refl

trim_counts : ((trim false 5000 600 two).1 ≡ 1) × ((trim false 9000 600 two).2 ≡ 1)
unfolding two program
trim_counts = (refl, refl)

empty-IsValid : IsValid empty.hashmap
empty-IsValid = record { hashes = tt; peermaps = tt }

empty-Tracks : Tracks empty
unfolding total_of sum_by get
empty-Tracks = record { seeds = refl; leeches = refl; ips = λ ip. refl; ip_keys = tt }

one-IsValid : IsValid one.hashmap
unfolding one
one-IsValid = save-IsValid false blank 100 home 6881 false hash_a id_x empty empty-IsValid

one-Tracks : Tracks one
unfolding one
one-Tracks = save-Tracks blank 100 home 6881 false hash_a id_x empty empty-Tracks

save-Tracks_example : Tracks two
unfolding two
save-Tracks_example = save-Tracks blank 5000 home 6882 true hash_a id_y one one-Tracks

trim-IsSwept_example : IsSwept false 5000 600 [] one.hashmap (trim false 5000 600 one)
trim-IsSwept_example = trim-IsSwept false 5000 600 one one-IsValid

-- Every address shown as "-".
abbrev dash : Addr → Bytes
dash ip = b'-' ∷ []

peer_list_lem_example :
    peer_list dash true hash_a 1 (reset new_dictionary) two.hashmap
    ≡ map (λ e. encode (peer_value dash true e)) (take 1 (peers_under hash_a two.hashmap))
peer_list_lem_example = peer_list_lem dash true hash_a 1 new_dictionary two.hashmap

-- A peer comes, completes, another comes, the first goes, and what is old is trimmed.
abbrev some_calls : List Call
some_calls =
    save_peer blank 100 home 6881 false hash_a id_x
    ∷ (save_peer blank 5000 home 6881 true hash_a id_x
        ∷ (save_peer blank 5000 home 6882 true hash_a id_y
            ∷ (drop_peer hash_a id_x ∷ (trim_all 5600 600 ∷ []))))

contents-calls_example :
    (contents (calls false some_calls one) ≡ all_specified some_calls (contents one))
    × IsValid (calls false some_calls one).hashmap
contents-calls_example = contents-calls false some_calls one one-IsValid

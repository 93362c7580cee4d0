-- ===== src/Storage/Sound.antt =====
-- What holds of the database at every time: it is valid, and the global counters count its peers.
use trakx.Common.{◌≡◌, sym, ap, ◌∙◌, subst}
use trakx.Common.Assoc.{Distinct}
use trakx.Storage.Types.{Addr-discrete}
use trakx.Storage.Memory.{Store}
use trakx.Storage.Memory.Counts.{IsValid}
use trakx.Storage.Memory.Totals.{Tracks}
use trakx.Stats.{Stats, count}

-- The database is valid, and the global counters count its peers.
pub record IsSound (db : Store) : Type 0 where
  pub valid : IsValid db.hashmap
  pub tracks : Tracks db

-- The other counters do not matter.
pub recounted :
    (db : Store) (st : Stats)
    → st.seeds ≡ db.stats.seeds
    → st.leeches ≡ db.stats.leeches
    → st.ip_stats ≡ db.stats.ip_stats
    → IsSound db
    → IsSound (record db { stats = st })
recounted db st p q r s = record {
  valid = s.valid;
  tracks = record {
    seeds = p ∙ s.tracks.seeds;
    leeches = q ∙ s.tracks.leeches;
    ips = λ ip. ap (count ip) r ∙ s.tracks.ips ip;
    ip_keys = subst (Distinct Addr-discrete) (sym r) s.tracks.ip_keys;
  };
}

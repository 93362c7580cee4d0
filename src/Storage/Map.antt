-- ===== src/Storage/Map.antt =====
-- What the peer database of tracker/storage/map promises: a map from hashes and peer ids to peers.
-- The calls that change it, against what they do to such a map.
pub mod Swept
pub mod Refines
use trakx.Common.{ℕ, Bool, List, [], ◌∷◌, Option, none, some, if◌then◌else◌}
use trakx.Common.Bytes.{Bytes}
use trakx.Storage.Types.{Addr, Peer, Bytes-discrete}
use trakx.Storage.Memory.{Store, save, drop}
use trakx.Storage.Trim.{is_expired, trim}
use mathlib.Core.Logic.{ite}

-- A call, with the clock and what the pool hands out.
pub data Call : Type 0 where
  save_peer :
      (recycled : Peer)
      → (now : ℕ) → (ip : Addr) → (port : ℕ) → (complete : Bool) → (hash id : Bytes) → Call
  drop_peer : (hash id : Bytes) → Call
  trim_all : (now timeout : ℕ) → Call

module _ (fast : Bool) where
  unfoldable pub call : Call → Store → Store
  call (save_peer recycled now ip port complete hash id) s =
      save fast recycled now ip port complete hash id s
  call (drop_peer hash id) s = drop fast hash id s
  call (trim_all now timeout) s = (trim fast now timeout s).0

  unfoldable pub calls : List Call → Store → Store
  calls [] s = s
  calls (c ∷ cs) s = calls cs (call c s)

-- The map, and the calls on it.
abbrev pub Contents : Type 0
Contents = Bytes → Bytes → Option Peer

abbrev pub write : Bytes → Bytes → Option Peer → Contents → Contents
write hash id x m h i = ite (Bytes-discrete h hash) (ite (Bytes-discrete i id) x (m h i)) (m h i)

abbrev pub unexpired : ℕ → ℕ → Option Peer → Option Peer
unexpired now timeout none = none
unexpired now timeout (some p) = if is_expired now timeout p then none else some p

unfoldable pub specified : Call → Contents → Contents
specified (save_peer recycled now ip port complete hash id) m =
    write hash id (some (record { complete = complete; ip = ip; port = port; last_seen = now })) m
specified (drop_peer hash id) m = write hash id none m
specified (trim_all now timeout) m = λ h i. unexpired now timeout (m h i)

unfoldable pub all_specified : List Call → Contents → Contents
all_specified [] m = m
all_specified (c ∷ cs) m = all_specified cs (specified c m)

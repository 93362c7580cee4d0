-- ===== src/Storage/Binary/Tests.antt =====
-- Backups of concrete databases.
use trakx.Common.{◌≡◌, refl, true, [], ◌∷◌, some, replicate, All, arith}
use trakx.Common.Assoc.{get, sum_by}
use trakx.Common.Bytes.{Bytes}
use trakx.Common.Outcome.{ok}
use trakx.Storage.Types.{v4, Peer}
use trakx.Storage.Memory.{HashMap}
use trakx.Storage.Memory.Counts.{IsValid}
use trakx.Storage.Binary.{encode_binary, Decoded, decode_binary}
use trakx.Storage.Binary.Total.{decode_binary_total}
use trakx.Storage.Binary.Entries.{IsStorable}
use trakx.Storage.Binary.RoundTrip.{peers_of, decode_binary-encode_binary}
use trakx.Udp.ConnDb.Binary.{plain4}

abbrev peer : Peer
peer = record { complete = true; ip = v4 (10 ∷ 0 ∷ 0 ∷ 1 ∷ []); port = 6881; last_seen = 5000 }

abbrev pub database : HashMap
database =
    (
      replicate 20 b'a',
      record { complete = 1; incomplete = 0; peers = (replicate 20 b'x', peer) ∷ [] },
    )
    ∷ []

pub database-IsValid : IsValid database
unfolding get sum_by
database-IsValid = record {
  hashes = (refl, tt);
  peermaps = (record { ids = (refl, tt); seeds = refl; leeches = refl }, tt);
}

pub database-IsStorable : All IsStorable database
database-IsStorable = (
  record {
    hash = refl;
    peers =
        (record { id = refl; ip = plain4 _ refl; port = omega arith; last_seen = omega arith }, tt);
    count = omega arith;
  },
  tt,
)

decode_binary-encode_binary_example :
    (b : Bytes) × (encode_binary database ≡ ok b)
    × (decode_binary b
        ≡ some
            (record { hashmap = database; peers = peers_of database; hashes = 1; result = ok tt }))
decode_binary-encode_binary_example =
    decode_binary-encode_binary database database-IsValid database-IsStorable

decode_binary_total_example : (d : Decoded) × (decode_binary (replicate 30 255) ≡ some d)
decode_binary_total_example = decode_binary_total (replicate 30 255)

-- ===== src/Storage/Backup/Tests.antt =====
-- Backups and drivers at concrete databases.
use trakx.Common.{ℕ, ◌≡◌, refl, true, ◌&&◌, [], length, some, ltb, ◌==◌, if◌then◌else◌}
use trakx.Common.Bytes.{Bytes}
use trakx.Common.Outcome.{ok, panic}
use trakx.Storage.Memory.{PeerMap}
use trakx.Storage.Binary.{encode_binary, encode_hashes}
use trakx.Storage.Backup.{SqlDb, no_rows, save_pg}
use trakx.Storage.Backup.Postgres.{save_pg-insert}

-- A table that takes what is inserted, and shows nothing.
abbrev pub table : SqlDb
table = record {
  World = ℕ;
  init = λ w. (w, true);
  select = λ w. no_rows;
  insert = λ b w. (w, true);
  wait = λ w. w;
  delete_old = λ w. (w, some 0);
  delete_more = λ w. (w, some 0);
}

nothing_encoded : encode_binary [] ≡ ok []
unfolding encode_binary encode_hashes
nothing_encoded = refl

save_pg-insert_example :
    save_pg table [] 0 7
    ≡ (7, (if (length {A = Bytes × PeerMap} [] == 0) && ltb 0 20 then panic else ok tt))
save_pg-insert_example = save_pg-insert table [] 0 tt nothing_encoded refl
